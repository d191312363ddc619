-- ===== src/SlabAllocator/Retention.antt =====
-- src/cache/slab_allocator.cc: the minimum lifetime of objects, its budget and its expiry wheel.
pub mod Grant
pub mod Expiry
use dingo_cache.Common.{
  ℕ, zero, suc, ◌+◌, ◌-◌, ◌*◌, ◌/◌, ◌%◌, ◌^◌, Bool, true, false, not, ◌&&◌, ◌||◌, List, [], ◌∷◌,
  ◌++◌, ltb, leb, ◌==◌, if◌then◌else◌, length, get_or, set, replicate, add32, add64, sub64, Option,
  none, some, min, max,
}
use dingo_cache.KvTypes.{BlockKey}
use dingo_cache.SlabAllocator.Index.{find}
use dingo_cache.SlabAllocator.State.{
  SlotRef, SlotMeta, Class, Allocator, RetainOptions, WheelEntry, no_ref, slot_at, class_at,
  with_slot, wheel_tick_s,
}
use dingo_cache.SlabAllocator.Lattice.{max_u32}
use dingo_cache.SlabAllocator.Rings.{touch}
use dingo_cache.SlabAllocator.Extents.{protect, unprotect}

-- RetainMode and RetainCode.
pub data RetainMode : Type 0 where
  set_mode refresh_mode : RetainMode

pub data RetainCode : Type 0 where
  miss hit_unprotected protected_new refreshed upgraded unchanged denied : RetainCode

unfoldable pub code_number : RetainCode → ℕ
code_number miss = 0
code_number hit_unprotected = 1
code_number protected_new = 2
code_number refreshed = 3
code_number upgraded = 4
code_number unchanged = 5
code_number denied = 6

pub record RetainOutcome : Type 0 where
  pub code : RetainCode
  pub ref : SlotRef
  pub until : ℕ
  pub ttl_s : ℕ
  pub persist : Bool

abbrev pub no_outcome : RetainOutcome
no_outcome = record { code = miss; ref = no_ref; until = 0; ttl_s = 0; persist = false }

-- `now_s / kWheelTickS == 0 ? 0 : now_s / kWheelTickS - 1`
unfoldable pub last_full_tick : ℕ → ℕ
last_full_tick now = now / wheel_tick_s - 1

-- ConfigureRetention.
unfoldable pub configure_retention : RetainOptions → ℕ → Allocator → Allocator
configure_retention options now s =
    let enabled = options.enabled && not (options.max_ttl_s == 0) in
    record s {
      retain = record options {
        enabled = enabled;
        class_pct = if ltb 100 options.class_pct then 100 else options.class_pct;
      };
      retain_now_s = now;
      wheel = replicate (if enabled then options.max_ttl_s / wheel_tick_s + 2 else 0) [];
      wheel_entries = 0;
      wheel_tick = last_full_tick now;
    }

-- ClassProtectCapLocked.
unfoldable pub class_protect_cap : RetainOptions → Class → ℕ
class_protect_cap r k =
    min (k.bound_extents * k.slots_per_extent * r.class_pct % 2 ^ 64 / 100) max_u32

-- PushWheelLocked.
unfoldable pub push_wheel : BlockKey → ℕ → Allocator → Allocator
push_wheel key until s =
    let n = length s.wheel in
    let b = until / wheel_tick_s % n in
    if n == 0 then s else record s {
      wheel = set s.wheel b (get_or s.wheel b [] ++ record { key = key; until = until } ∷ []);
      wheel_entries = s.wheel_entries + 1;
    }

-- `++retain_results_[code]; return out;`
unfoldable pub report : RetainOutcome → Allocator → Allocator × RetainOutcome
report out s =
    let n = code_number out.code in
    (
      record s { retain_results = set s.retain_results n (add64 (get_or s.retain_results n 0) 1) },
      out,
    )

-- The clock only goes forward.
unfoldable pub observe_time : ℕ → Allocator → Allocator
observe_time now s = if ltb s.retain_now_s now then record s { retain_now_s = now } else s

-- The deadline after a call at `now` with the effective lifetime `eff`.
unfoldable pub new_deadline : SlotMeta → ℕ → ℕ → ℕ
new_deadline m now eff = max m.retain_until (min (now + eff) max_u32)

unfoldable pub code_of : SlotMeta → ℕ → ℕ → ℕ → RetainCode
code_of m stored eff until =
    if m.retain_until == 0
    then protected_new
    else if ltb stored eff
    then upgraded
    else if ltb m.retain_until until
    then refreshed
    else unchanged

-- Whether a new protection goes over the byte budget or over the cap of the class.
unfoldable pub over_budget : ℕ → Allocator → Bool
over_budget i s =
    let m = slot_at s i in
    let k = class_at s m.ref.cls in
    ltb s.retain.budget_bytes (add64 s.protected_bytes m.ref.slot_size)
    || ltb (class_protect_cap s.retain k) (add32 k.protected_slots 1)

-- The durable record is due: for a new or a raised lifetime, or once the deadline has moved far.
unfoldable pub persist_due : RetainCode → SlotMeta → RetainOptions → ℕ → ℕ → Bool
persist_due protected_new m r eff until = true
persist_due upgraded m r eff until = true
persist_due code m r eff until =
    leb (add32 m.retain_persisted_until (max r.persist_min_delta_s (eff / 4))) until

-- The end of Retain, for a lifetime `eff` that is granted: the record, the wheel and the outcome.
unfoldable pub write_grant : ℕ → ℕ → ℕ → Bool → Allocator → Allocator
write_grant i eff until due s =
    with_slot i
      (λ n. record n {
        retain_ttl_s = eff;
        retain_until = until;
        retain_persisted_until = if due then until else n.retain_persisted_until;
      })
      (if (slot_at s i).retain_until == 0 then protect i s else s)

unfoldable pub enter_wheel : SlotMeta → ℕ → Allocator → Allocator
enter_wheel m until s =
    if not (until == m.retain_until) || m.retain_until == 0 then push_wheel m.key until s else s

unfoldable pub grant : ℕ → ℕ → ℕ → Allocator → Allocator × RetainOutcome
grant i stored eff s =
    let m = slot_at s i in
    let until = new_deadline m s.retain_now_s eff in
    let code = code_of m stored eff until in
    let due = persist_due code m s.retain eff until in
    report (record { code = code; ref = m.ref; until = until; ttl_s = eff; persist = due })
      (enter_wheel m until (write_grant i eff until due s))

-- Retain on a resident with retention enabled, after the touch of a REFRESH.
unfoldable pub retain_resident : ℕ → ℕ → RetainMode → Allocator → Allocator × RetainOutcome
retain_resident i ttl mode s =
    let m = slot_at s i in
    let stored = min m.retain_ttl_s s.retain.max_ttl_s in
    let requested = min ttl s.retain.max_ttl_s in
    let eff : ℕ = elim mode [ refresh_mode ↦ stored | set_mode ↦ max stored requested ] in
    if eff == 0
    then report (record no_outcome { code = hit_unprotected; ref = m.ref }) s
    else if m.retain_until == 0 && over_budget i s
    then report (record no_outcome { code = denied; ref = m.ref; ttl_s = m.retain_ttl_s }) s
    else grant i stored eff s

-- Retain.
unfoldable pub retain_key : BlockKey → ℕ → RetainMode → ℕ → Allocator → Allocator × RetainOutcome
retain_key key ttl mode now s =
    let t = observe_time now s in
    elim (find s.index key) [
      | none ↦ report no_outcome t
      | some i ↦
          if (slot_at s i).remove_pending
          then report no_outcome t
          else if not s.retain.enabled
          then report (record no_outcome { code = hit_unprotected }) t
          else retain_resident i ttl mode (elim mode [ refresh_mode ↦ touch i t | set_mode ↦ t ])
    ]

-- An entry of a drained bucket: it ends the protection whose deadline it is.
unfoldable pub expire_entry : WheelEntry → Allocator → Allocator × ℕ
expire_entry entry s = elim (find s.index entry.key) [
  | none ↦ (s, 0)
  | some i ↦
      let m = slot_at s i in
      if not m.live || not (m.retain_until == entry.until) then (s, 0) else (
        record (with_slot i (λ n. record n { referenced = false }) (unprotect i s)) {
          retain_expired = add64 s.retain_expired 1;
        },
        1,
      )
]

-- The loop over one bucket: what it keeps, and how many protections ended.
unfoldable pub drain_bucket : ℕ → List WheelEntry → Allocator → Allocator × List WheelEntry × ℕ
drain_bucket now [] s = (s, [], 0)
drain_bucket now (e ∷ es) s =
    let late = ltb now e.until in
    let (s', ended) =
      if late
      then (s, 0)
      else expire_entry e (record s { wheel_entries = sub64 s.wheel_entries 1 }) in
    let (t, keep, cleared) = drain_bucket now es s' in
    (t, if late then e ∷ keep else keep, ended + cleared)

-- `while (wheel_tick_ < target)`, with the ticks left.
unfoldable pub drain_ticks : ℕ → ℕ → Allocator → Allocator × ℕ
drain_ticks zero now s = (s, 0)
drain_ticks (suc n) now s =
    let tick = s.wheel_tick + 1 in
    let b = tick % length s.wheel in
    let (t, keep, cleared) =
      drain_bucket now (get_or s.wheel b []) (record s { wheel_tick = tick }) in
    let (u, more) = drain_ticks n now (record t { wheel = set t.wheel b keep }) in
    (u, cleared + more)

-- ExpireRetention. After a long stall one lap over the wheel is enough.
unfoldable pub expire_retention : ℕ → Allocator → Allocator × ℕ
expire_retention now_s s =
    let t = observe_time now_s s in
    let target = last_full_tick t.retain_now_s in
    let start =
      if ltb (length t.wheel) (target - t.wheel_tick)
      then target - length t.wheel
      else t.wheel_tick in
    if length t.wheel == 0 || leb target t.wheel_tick
    then (t, 0)
    else drain_ticks (target - start) t.retain_now_s (record t { wheel_tick = start })

-- RetentionHeadroomPct, on 64-bit words.
unfoldable pub retention_headroom_pct : Allocator → ℕ
retention_headroom_pct s =
    let used = min s.protected_bytes s.retain.budget_bytes in
    if not s.retain.enabled || s.retain.budget_bytes == 0
    then 0
    else (s.retain.budget_bytes - used) * 100 % 2 ^ 64 / s.retain.budget_bytes

-- The end of a round of RestoreBulk: a protection that is still in the future comes back.
unfoldable pub restore_retention : ℕ → ℕ → ℕ → Allocator → Allocator
restore_retention i until ttl_s s =
    let ttl = min ttl_s s.retain.max_ttl_s in
    let deadline = min until (s.retain_now_s + ttl) in
    if s.retain.enabled && (ltb s.retain_now_s until && not (ttl_s == 0))
    then push_wheel (slot_at s i).key deadline (
        protect i (
          with_slot i
            (λ m. record m {
              retain_ttl_s = ttl;
              retain_until = deadline;
              retain_persisted_until = deadline;
            })
            s))
    else if s.retain.enabled
    then with_slot i (λ m. record m { retain_ttl_s = ttl }) s
    else s
