-- ===== src/Namespace.antt =====
-- src/common/namespace.h and src/common/namespace.cc: the identity of namespaces and objects. A string is
-- the list of its bytes; a rank, an int32_t, is its bit pattern, so that -1 is 2 ^ 32 - 1. The error texts
-- of Validate are left out.
pub mod Cancel
pub mod Identity
pub mod Tests
use dingo_cache.Common.{
  ℕ, ◌+◌, ◌-◌, ◌^◌, Bool, true, false, not, ◌&&◌, ◌||◌, List, [], ◌∷◌, ◌++◌, ltb, leb, ◌==◌,
  if◌then◌else◌, length,
}
use dingo_cache.Status.{Status, status_ok, invalid}
use dingo_cache.Net.{put_u16, put_u32, put_u64}

-- The values of the enumerators; the type of the enum, a 16-bit word, has others, which Validate lets pass.
pub data PoolKind : Type 0 where
  attention mla mamba swa indexer draft_attention draft_mla draft_indexer custom : PoolKind

unfoldable pub pool_number : PoolKind → ℕ
pool_number attention = 1
pool_number mla = 2
pool_number mamba = 3
pool_number swa = 4
pool_number indexer = 5
pool_number draft_attention = 6
pool_number draft_mla = 7
pool_number draft_indexer = 8
pool_number custom = 65535

pub record RankCoordinate : Type 0 where
  pub world_size : ℕ
  pub rank : ℕ

pub record NamespaceDescriptor : Type 0 where
  pub tenant_id : List ℕ
  pub model_id : List ℕ
  pub model_revision : List ℕ
  pub pool_kind : PoolKind
  pub pool_name : List ℕ
  pub dtype : List ℕ
  pub layout_fingerprint : ℕ
  pub block_tokens : ℕ
  pub group_id : ℕ
  pub layer_begin : ℕ
  pub layer_count : ℕ
  pub tp : RankCoordinate
  pub dp : RankCoordinate
  pub pp : RankCoordinate

pub record ObjectDescriptor : Type 0 where
  pub logical_key : List ℕ
  pub component : List ℕ
  pub chunk_index : ℕ
  pub chunk_count : ℕ

-- kMaxFieldBytes and kMaxComponentBytes.
abbrev pub max_field_bytes : ℕ
max_field_bytes = 2 ^ 20

abbrev pub max_component_bytes : ℕ
max_component_bytes = 256

-- ValidRequiredField.
unfoldable pub valid_required_field : List ℕ → Bool
valid_required_field value = not (length value == 0) && not (ltb max_field_bytes (length value))

-- RankCoordinate::Validate: below -1 are the patterns from 2 ^ 31 on but for the last, from 0 on those
-- below 2 ^ 31.
unfoldable pub validate_rank : RankCoordinate → Status
validate_rank c =
    if c.world_size == 0
    then invalid
    else if (leb (2 ^ 31) c.rank && ltb c.rank (2 ^ 32 - 1))
        || (ltb c.rank (2 ^ 31) && leb c.world_size c.rank)
    then invalid
    else status_ok

unfoldable pub is_ok : Status → Bool
is_ok st = elim st [ status_ok ↦ true | _ ↦ false ]

-- NamespaceDescriptor::Validate.
unfoldable pub validate_namespace : NamespaceDescriptor → Status
validate_namespace d =
    if not (valid_required_field d.tenant_id)
      || (not (valid_required_field d.model_id)
          || (not (valid_required_field d.model_revision)
              || (not (valid_required_field d.pool_name) || not (valid_required_field d.dtype))))
    then invalid
    else if d.layout_fingerprint == 0
    then invalid
    else if d.block_tokens == 0
    then invalid
    else if d.layer_count == 0 || ltb (2 ^ 32 - 1 - d.layer_count) d.layer_begin
    then invalid
    else if not (is_ok (validate_rank d.tp))
        || (not (is_ok (validate_rank d.dp)) || not (is_ok (validate_rank d.pp)))
    then invalid
    else status_ok

-- AppendString and AppendRank, with what follows.
unfoldable pub append_string : List ℕ → List ℕ → List ℕ
append_string value rest = put_u32 (length value) ++ (value ++ rest)

unfoldable pub append_rank : RankCoordinate → List ℕ → List ℕ
append_rank c rest = put_u32 c.world_size ++ (put_u32 c.rank ++ rest)

-- The fixed-width fields of Serialize.
unfoldable pub append_numbers : NamespaceDescriptor → List ℕ
append_numbers d =
    put_u64 d.layout_fingerprint
    ++ (put_u32 d.block_tokens
        ++ (put_u32 d.group_id
            ++ (put_u32 d.layer_begin
                ++ (put_u32 d.layer_count
                    ++ append_rank d.tp (append_rank d.dp (append_rank d.pp []))))))

-- "DFKVNS\0\2" and "DFKVOBJ2".
abbrev pub namespace_magic : List ℕ
namespace_magic = b'D' ∷ b'F' ∷ b'K' ∷ b'V' ∷ b'N' ∷ b'S' ∷ 0 ∷ 2 ∷ []

abbrev pub object_magic : List ℕ
object_magic = b'D' ∷ b'F' ∷ b'K' ∷ b'V' ∷ b'O' ∷ b'B' ∷ b'J' ∷ b'2' ∷ []

-- NamespaceDescriptor::Serialize.
unfoldable pub serialize : NamespaceDescriptor → List ℕ
serialize d =
    namespace_magic
    ++ append_string d.tenant_id (
        append_string d.model_id (
          append_string d.model_revision (
            put_u16 (pool_number d.pool_kind)
            ++ append_string d.pool_name (append_string d.dtype (append_numbers d)))))

-- ObjectDescriptor::Validate.
unfoldable pub validate_object : ObjectDescriptor → Status
validate_object o =
    if not (valid_required_field o.logical_key) || not (valid_required_field o.component)
    then invalid
    else if ltb max_component_bytes (length o.component)
    then invalid
    else if o.chunk_count == 0 || leb o.chunk_count o.chunk_index
    then invalid
    else status_ok

-- ObjectDescriptor::Serialize.
unfoldable pub serialize_object : ObjectDescriptor → NamespaceDescriptor → List ℕ
serialize_object o ns =
    object_magic
    ++ append_string (serialize ns) (
        append_string o.logical_key
          (append_string o.component (put_u32 o.chunk_index ++ put_u32 o.chunk_count)))
