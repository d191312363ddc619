-- ===== src/Namespace/Identity.antt =====
-- Two objects that have one canonical text are one object of one namespace.
use dingo_cache.Common.{
  ℕ, ◌+◌, ◌^◌, ◌<◌, ◌≤◌, ◌≡◌, refl, arith, List, ◌++◌, length, length-append, true,
}
use dingo_cache.Net.{put_u16, put_u32, put_u64}
use dingo_cache.Net.Words.{put_u16_cancel, put_u32_cancel, put_u64_cancel, put_u32_last}
use dingo_cache.Status.{status_ok}
use dingo_cache.Namespace.{
  NamespaceDescriptor, ObjectDescriptor, pool_number, append_string, append_rank, append_numbers,
  namespace_magic, object_magic, serialize, serialize_object, validate_namespace, validate_object,
  valid_required_field,
}
use dingo_cache.Namespace.Cancel.{
  append_string_cancel, IsRank, append_rank_cancel, pool_number_cancel, pool_number-lt,
}

-- The numbers of a descriptor are words of their widths.
pub record IsDescriptor (d : NamespaceDescriptor) : Type 0 where
  pub layout_fingerprint : d.layout_fingerprint < 2 ^ 64
  pub block_tokens : d.block_tokens < 2 ^ 32
  pub group_id : d.group_id < 2 ^ 32
  pub layer_begin : d.layer_begin < 2 ^ 32
  pub layer_count : d.layer_count < 2 ^ 32
  pub tp : IsRank d.tp
  pub dp : IsRank d.dp
  pub pp : IsRank d.pp

pub record IsObject (o : ObjectDescriptor) : Type 0 where
  pub chunk_index : o.chunk_index < 2 ^ 32
  pub chunk_count : o.chunk_count < 2 ^ 32

-- The numbers of two descriptors agree.
record SameNumbers (a b : NamespaceDescriptor) : Type 0 where
  layout_fingerprint : a.layout_fingerprint ≡ b.layout_fingerprint
  block_tokens : a.block_tokens ≡ b.block_tokens
  group_id : a.group_id ≡ b.group_id
  layer_begin : a.layer_begin ≡ b.layer_begin
  layer_count : a.layer_count ≡ b.layer_count
  tp : a.tp ≡ b.tp
  dp : a.dp ≡ b.dp
  pp : a.pp ≡ b.pp

-- The texts of a descriptor are as short as Validate wants them.
record HasTexts (d : NamespaceDescriptor) : Type 0 where
  tenant_id : length d.tenant_id ≤ 2 ^ 20
  model_id : length d.model_id ≤ 2 ^ 20
  model_revision : length d.model_revision ≤ 2 ^ 20
  pool_name : length d.pool_name ≤ 2 ^ 20
  dtype : length d.dtype ≤ 2 ^ 20

field_bound : (t : List ℕ) → valid_required_field t ≡ true → length t ≤ 2 ^ 20
unfolding valid_required_field
field_bound t h = ground arith

validate_namespace-HasTexts :
    (d : NamespaceDescriptor) → validate_namespace d ≡ status_ok → HasTexts d
unfolding validate_namespace
validate_namespace-HasTexts d h = record {
  tenant_id = field_bound d.tenant_id (ground (arith, h));
  model_id = field_bound d.model_id (ground (arith, h));
  model_revision = field_bound d.model_revision (ground (arith, h));
  pool_name = field_bound d.pool_name (ground (arith, h));
  dtype = field_bound d.dtype (ground (arith, h));
}

append_numbers_cancel :
    (a b : NamespaceDescriptor)
    → IsDescriptor a
    → IsDescriptor b
    → append_numbers a ≡ append_numbers b
    → SameNumbers a b
unfolding append_numbers
append_numbers_cancel a b wa wb e =
    let (fingerprints, e1) =
      put_u64_cancel a.layout_fingerprint b.layout_fingerprint _ _ wa.layout_fingerprint
        wb.layout_fingerprint e in
    let (tokens, e2) =
      put_u32_cancel a.block_tokens b.block_tokens _ _ wa.block_tokens wb.block_tokens e1 in
    let (groups, e3) = put_u32_cancel a.group_id b.group_id _ _ wa.group_id wb.group_id e2 in
    let (begins, e4) =
      put_u32_cancel a.layer_begin b.layer_begin _ _ wa.layer_begin wb.layer_begin e3 in
    let (counts, e5) =
      put_u32_cancel a.layer_count b.layer_count _ _ wa.layer_count wb.layer_count e4 in
    let (tps, e6) = append_rank_cancel a.tp b.tp _ _ wa.tp wb.tp e5 in
    let (dps, e7) = append_rank_cancel a.dp b.dp _ _ wa.dp wb.dp e6 in
    let (pps, e8) = append_rank_cancel a.pp b.pp _ _ wa.pp wb.pp e7 in
    record {
      layout_fingerprint = fingerprints;
      block_tokens = tokens;
      group_id = groups;
      layer_begin = begins;
      layer_count = counts;
      tp = tps;
      dp = dps;
      pp = pps;
    }

magic_cancel : (r s : List ℕ) → namespace_magic ++ r ≡ namespace_magic ++ s → r ≡ s
magic_cancel r s e = cc e

object_magic_cancel : (r s : List ℕ) → object_magic ++ r ≡ object_magic ++ s → r ≡ s
object_magic_cancel r s e = cc e

-- The canonical text of a namespace names it: two valid namespaces with one text are equal.
pub serialize-injective :
    (a b : NamespaceDescriptor)
    → IsDescriptor a
    → IsDescriptor b
    → validate_namespace a ≡ status_ok
    → validate_namespace b ≡ status_ok
    → serialize a ≡ serialize b
    → a ≡ b
unfolding serialize
serialize-injective a b wa wb va vb e =
    let ta = validate_namespace-HasTexts a va in
    let tb = validate_namespace-HasTexts b vb in
    let (tenants, e1) =
      append_string_cancel a.tenant_id b.tenant_id _ _ (omega (arith, ta.tenant_id))
        (omega (arith, tb.tenant_id)) (magic_cancel _ _ e) in
    let (models, e2) =
      append_string_cancel a.model_id b.model_id _ _ (omega (arith, ta.model_id))
        (omega (arith, tb.model_id)) e1 in
    let (revisions, e3) =
      append_string_cancel a.model_revision b.model_revision _ _ (omega (arith, ta.model_revision))
        (omega (arith, tb.model_revision)) e2 in
    let (numbers, e4) =
      put_u16_cancel (pool_number a.pool_kind) (pool_number b.pool_kind) _ _
        (pool_number-lt a.pool_kind) (pool_number-lt b.pool_kind) e3 in
    let kinds = pool_number_cancel a.pool_kind b.pool_kind numbers in
    let (pools, e5) =
      append_string_cancel a.pool_name b.pool_name _ _ (omega (arith, ta.pool_name))
        (omega (arith, tb.pool_name)) e4 in
    let (dtypes, e6) =
      append_string_cancel a.dtype b.dtype _ _ (omega (arith, ta.dtype)) (omega (arith, tb.dtype))
        e5 in
    let same = append_numbers_cancel a b wa wb e6 in
    cc (
      tenants, models, revisions, kinds, pools, dtypes, same.layout_fingerprint, same.block_tokens,
      same.group_id, same.layer_begin, same.layer_count, same.tp, same.dp, same.pp,
    )

length-append_string :
    (t rest : List ℕ) → length (append_string t rest) ≡ 4 + length t + length rest
unfolding append_string put_u32
length-append_string t rest = omega (arith, length-append t rest)

length-append_numbers : (d : NamespaceDescriptor) → length (append_numbers d) ≡ 48
unfolding append_numbers append_rank put_u64 put_u32
length-append_numbers d = refl

length-serialize : (d : NamespaceDescriptor) → HasTexts d → length (serialize d) < 2 ^ 32
unfolding serialize put_u16
length-serialize d t =
    let numbers = append_numbers d in
    let l1 = length-append_string d.dtype numbers in
    let l2 = length-append_string d.pool_name (append_string d.dtype numbers) in
    let pool = append_string d.pool_name (append_string d.dtype numbers) in
    let tail = put_u16 (pool_number d.pool_kind) ++ pool in
    let l3 = length-append_string d.model_revision tail in
    let l4 = length-append_string d.model_id (append_string d.model_revision tail) in
    let l5 =
      length-append_string d.tenant_id
        (append_string d.model_id (append_string d.model_revision tail)) in
    omega (
      arith,
      l1,
      l2,
      l3,
      l4,
      l5,
      length-append_numbers d,
      t.tenant_id,
      t.model_id,
      t.model_revision,
      t.pool_name,
      t.dtype,
    )

object_texts :
    (o : ObjectDescriptor)
    → validate_object o ≡ status_ok
    → (length o.logical_key < 2 ^ 32) × (length o.component < 2 ^ 32)
unfolding validate_object valid_required_field
object_texts o h = ground arith

-- The canonical text of an object names the object and its namespace: two objects that pass Validate, in
-- namespaces that pass Validate, with numbers of their widths, are equal, and so are the namespaces, when the
-- texts are; no field runs into another.
pub serialize_object-injective :
    (o p : ObjectDescriptor) (a b : NamespaceDescriptor)
    → IsObject o
    → IsObject p
    → IsDescriptor a
    → IsDescriptor b
    → validate_object o ≡ status_ok
    → validate_object p ≡ status_ok
    → validate_namespace a ≡ status_ok
    → validate_namespace b ≡ status_ok
    → serialize_object o a ≡ serialize_object p b
    → (o ≡ p) × (a ≡ b)
unfolding serialize_object
serialize_object-injective o p a b wo wp wa wb vo vp va vb e =
    let (key_o, component_o) = object_texts o vo in
    let (key_p, component_p) = object_texts p vp in
    let (spaces, e1) =
      append_string_cancel (serialize a) (serialize b) _ _
        (length-serialize a (validate_namespace-HasTexts a va))
        (length-serialize b (validate_namespace-HasTexts b vb)) (object_magic_cancel _ _ e) in
    let (keys, e2) = append_string_cancel o.logical_key p.logical_key _ _ key_o key_p e1 in
    let (components, e3) =
      append_string_cancel o.component p.component _ _ component_o component_p e2 in
    let (indices, e4) =
      put_u32_cancel o.chunk_index p.chunk_index _ _ wo.chunk_index wp.chunk_index e3 in
    let counts = put_u32_last o.chunk_count p.chunk_count wo.chunk_count wp.chunk_count e4 in
    (cc (keys, components, indices, counts), serialize-injective a b wa wb va vb spaces)
