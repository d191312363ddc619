-- ===== src/SlabAllocator/State.antt =====
-- src/cache/slab_allocator.h: what the allocator keeps. The vectors `classes_`, `extents_` and `slots_`
-- are lists, read and written by number; `extent.cls` is `none` for kUnbound; the caller's vector
-- `evicted` is a field, onto which the operations push.
use dingo_cache.Common.{ℕ, Bool, false, Option, none, List, [], get_or, set}
use dingo_cache.KvTypes.{BlockKey}
use dingo_cache.SlabAllocator.Index.{FlatKeyIndex, no_slot, no_key}

pub record SlotRef : Type 0 where
  pub cls : ℕ
  pub extent : ℕ
  pub slot : ℕ
  pub slot_size : ℕ
  pub offset : ℕ

pub record SlotMeta : Type 0 where
  pub key : BlockKey
  pub ref : SlotRef
  pub useful_bytes : ℕ
  pub global_prev : ℕ
  pub global_next : ℕ
  pub free_next : ℕ
  pub read_touches : ℕ
  pub access_seq : ℕ
  pub refs : ℕ
  pub class_prev : ℕ
  pub class_next : ℕ
  pub extent_prev : ℕ
  pub extent_next : ℕ
  pub retain_until : ℕ
  pub retain_ttl_s : ℕ
  pub retain_persisted_until : ℕ
  pub referenced : Bool
  pub remove_pending : Bool
  pub live : Bool

-- `free_by_ext` is an unordered_map: `none` where it has no entry. Each stack has its back last.
pub record Class : Type 0 where
  pub slot_size : ℕ
  pub slots_per_extent : ℕ
  pub free_by_ext : ℕ → Option (List ℕ)
  pub ext_rr : List ℕ
  pub rr_next : ℕ
  pub free_count : ℕ
  pub resident_count : ℕ
  pub bound_extents : ℕ
  pub puts : ℕ
  pub useful_bytes : ℕ
  pub read_touches : ℕ
  pub read_heat : ℕ
  pub heat_seq : ℕ
  pub ring_head : ℕ
  pub hand : ℕ
  pub protected_slots : ℕ

pub record ExtentMeta : Type 0 where
  pub cls : Option ℕ
  pub free_slots : ℕ
  pub total_slots : ℕ
  pub pinned : ℕ
  pub youngest_seq : ℕ
  pub access_seq_sum : ℕ
  pub useful_bytes : ℕ
  pub read_heat : ℕ
  pub heat_seq : ℕ
  pub resident_head : ℕ
  pub resident_count : ℕ
  pub protected_slots : ℕ

-- The callbacks are the caller's. Each is asked with the number of the call, since its answer may
-- change from call to call. `max_waste` is a double: the model has whether it is positive, and
-- `stretch n`, the whole part of `double(n) / (1.0 - waste)`.
pub record Options : Type 0 where
  pub extent_bytes : ℕ
  pub num_extents : ℕ
  pub align : ℕ
  pub wasteful : Bool
  pub stretch : ℕ → ℕ
  pub on_extent_bind : Option (ℕ → ℕ → Bool)
  pub on_extent_evict : Option (ℕ → ℕ → ℕ → ℕ → Bool)
  pub on_slot_evict : Option (ℕ → SlotRef → Bool)

pub record RetainOptions : Type 0 where
  pub enabled : Bool
  pub budget_bytes : ℕ
  pub class_pct : ℕ
  pub max_ttl_s : ℕ
  pub persist_min_delta_s : ℕ

pub record WheelEntry : Type 0 where
  pub key : BlockKey
  pub until : ℕ

pub record Allocator : Type 0 where
  pub opt : Options
  pub classes : List Class
  pub extents : List ExtentMeta
  pub slots : List SlotMeta
  pub free_slot_meta_head : ℕ
  pub global_ring_head : ℕ
  pub global_hand : ℕ
  pub index : FlatKeyIndex
  pub unbound : ℕ
  pub used_bytes : ℕ
  pub evictions : ℕ
  pub steals : ℕ
  pub cold_steals : ℕ
  pub watermark_evictions : ℕ
  pub watermark_scan_steps : ℕ
  pub extent_returns : ℕ
  pub put_seq : ℕ
  pub activity_seq : ℕ
  pub cold_window : ℕ
  pub cold_steal_enabled : Bool
  pub retain : RetainOptions
  pub protected_bytes : ℕ
  pub protected_slots : ℕ
  pub retain_expired : ℕ
  pub retain_evict_skipped : ℕ
  pub retain_results : List ℕ
  pub wheel : List (List WheelEntry)
  pub wheel_entries : ℕ
  pub wheel_tick : ℕ
  pub retain_now_s : ℕ
  pub calls : ℕ
  pub evicted : List BlockKey

-- The values that `SlotMeta{}`, `ExtentMeta{}` and `Class` start with.
abbrev pub no_ref : SlotRef
no_ref = record { cls = 0; extent = 0; slot = 0; slot_size = 0; offset = 0 }

abbrev pub no_meta : SlotMeta
no_meta = record {
  key = no_key;
  ref = no_ref;
  useful_bytes = 0;
  global_prev = no_slot;
  global_next = no_slot;
  free_next = no_slot;
  read_touches = 0;
  access_seq = 0;
  refs = 0;
  class_prev = no_slot;
  class_next = no_slot;
  extent_prev = no_slot;
  extent_next = no_slot;
  retain_until = 0;
  retain_ttl_s = 0;
  retain_persisted_until = 0;
  referenced = false;
  remove_pending = false;
  live = false;
}

abbrev pub no_class : Class
no_class = record {
  slot_size = 0;
  slots_per_extent = 0;
  free_by_ext = λ e. none;
  ext_rr = [];
  rr_next = 0;
  free_count = 0;
  resident_count = 0;
  bound_extents = 0;
  puts = 0;
  useful_bytes = 0;
  read_touches = 0;
  read_heat = 0;
  heat_seq = 0;
  ring_head = no_slot;
  hand = no_slot;
  protected_slots = 0;
}

abbrev pub no_extent : ExtentMeta
no_extent = record {
  cls = none;
  free_slots = 0;
  total_slots = 0;
  pinned = 0;
  youngest_seq = 0;
  access_seq_sum = 0;
  useful_bytes = 0;
  read_heat = 0;
  heat_seq = 0;
  resident_head = no_slot;
  resident_count = 0;
  protected_slots = 0;
}

-- kStripeWays, kReadHeatUnit, kReadDecayOps and kWheelTickS.
abbrev pub stripe_ways : ℕ
stripe_ways = 8

abbrev pub read_heat_unit : ℕ
read_heat_unit = 1024

abbrev pub read_decay_ops : ℕ
read_decay_ops = 64

abbrev pub wheel_tick_s : ℕ
wheel_tick_s = 10

-- Reads and writes of one element of a vector.
abbrev pub slot_at : Allocator → ℕ → SlotMeta
slot_at s i = get_or s.slots i no_meta

abbrev pub class_at : Allocator → ℕ → Class
class_at s c = get_or s.classes c no_class

abbrev pub extent_at : Allocator → ℕ → ExtentMeta
extent_at s e = get_or s.extents e no_extent

unfoldable pub with_slot : ℕ → (SlotMeta → SlotMeta) → Allocator → Allocator
with_slot i f s = record s { slots = set s.slots i (f (slot_at s i)) }

unfoldable pub with_class : ℕ → (Class → Class) → Allocator → Allocator
with_class c f s = record s { classes = set s.classes c (f (class_at s c)) }

unfoldable pub with_extent : ℕ → (ExtentMeta → ExtentMeta) → Allocator → Allocator
with_extent e f s = record s { extents = set s.extents e (f (extent_at s e)) }
