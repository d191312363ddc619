-- ===== src/Status.antt =====
-- src/common/status.h: the result code of every operation.
use dingo_cache.Common.{ℕ, Option, none, some, zero, suc}

pub data Status : Type 0 where
  status_ok not_found cache_full quota_exceeded io_error invalid resource_exhausted
        no_compatible_rail :
      Status

-- The number of the enumerator.
unfoldable pub status_number : Status → ℕ
status_number status_ok = 0
status_number not_found = 1
status_number cache_full = 2
status_number quota_exceeded = 3
status_number io_error = 4
status_number invalid = 5
status_number resource_exhausted = 6
status_number no_compatible_rail = 7

-- `static_cast<Status>(raw)`, for the numbers that have an enumerator.
unfoldable pub status_of : ℕ → Option Status
status_of zero = some status_ok
status_of (suc zero) = some not_found
status_of (suc (suc zero)) = some cache_full
status_of (suc (suc (suc zero))) = some quota_exceeded
status_of (suc (suc (suc (suc zero)))) = some io_error
status_of (suc (suc (suc (suc (suc zero))))) = some invalid
status_of (suc (suc (suc (suc (suc (suc zero)))))) = some resource_exhausted
status_of (suc (suc (suc (suc (suc (suc (suc zero))))))) = some no_compatible_rail
status_of (suc (suc (suc (suc (suc (suc (suc (suc n)))))))) = none
