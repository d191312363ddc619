-- ===== src/Namespace/Tests.antt =====
-- Runs of the identity of src/common/namespace.cc.
use dingo_cache.Common.{◌-◌, ◌^◌, ◌≡◌, refl, arith, [], ◌∷◌}
use dingo_cache.Status.{status_ok}
use dingo_cache.Namespace.{
  attention, NamespaceDescriptor, ObjectDescriptor, RankCoordinate, validate_rank, is_ok,
  validate_namespace, validate_object, valid_required_field,
}
use dingo_cache.Namespace.Cancel.{IsRank}
use dingo_cache.Namespace.Identity.{IsDescriptor, IsObject, serialize_object-injective}

-- A rank of -1 stands for no rank.
abbrev no_rank : RankCoordinate
no_rank = record { world_size = 1; rank = 2 ^ 32 - 1 }

abbrev first_rank : RankCoordinate
first_rank = record { world_size = 8; rank = 0 }

abbrev space : NamespaceDescriptor
space = record {
  tenant_id = b't' ∷ [];
  model_id = b'm' ∷ b'1' ∷ [];
  model_revision = b'r' ∷ [];
  pool_kind = attention;
  pool_name = b'p' ∷ [];
  dtype = b'f' ∷ b'8' ∷ [];
  layout_fingerprint = 99;
  block_tokens = 64;
  group_id = 0;
  layer_begin = 0;
  layer_count = 61;
  tp = first_rank;
  dp = no_rank;
  pp = no_rank;
}

abbrev object : ObjectDescriptor
object = record { logical_key = b'k' ∷ []; component = b'c' ∷ []; chunk_index = 1; chunk_count = 4 }

space_valid : validate_namespace space ≡ status_ok
unfolding validate_namespace valid_required_field validate_rank is_ok
space_valid = refl

object_valid : validate_object object ≡ status_ok
unfolding validate_object valid_required_field
object_valid = refl

first-IsRank : IsRank first_rank
first-IsRank = record { world_size = omega arith; rank = omega arith }

no-IsRank : IsRank no_rank
no-IsRank = record { world_size = omega arith; rank = omega arith }

space-IsDescriptor : IsDescriptor space
space-IsDescriptor = record {
  layout_fingerprint = omega arith;
  block_tokens = omega arith;
  group_id = omega arith;
  layer_begin = omega arith;
  layer_count = omega arith;
  tp = first-IsRank;
  dp = no-IsRank;
  pp = no-IsRank;
}

object-IsObject : IsObject object
object-IsObject = record { chunk_index = omega arith; chunk_count = omega arith }

serialize_object-injective_example : (object ≡ object) × (space ≡ space)
serialize_object-injective_example =
    serialize_object-injective object object space space object-IsObject object-IsObject
      space-IsDescriptor space-IsDescriptor object_valid object_valid space_valid space_valid refl
