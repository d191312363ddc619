-- ===== src/SlabAllocator/Frame.antt =====
-- What the updates of single elements leave alone: each kind of update keeps every projection of every
-- element that the update of one element keeps.
use native.Mathlib.Decide.{ℕ_discrete}
use dingo_cache.Common.{
  ℕ, ◌<◌, ◌≡◌, refl, ◌∙◌, inl, inr, Bool, arith, List, length, get_or, set, ◌==◌, if◌then◌else◌,
  get_or-set_self, get_or-set_ne, set-beyond, Bool-cases, ltb, true, false, length-set, ap,
}
use dingo_cache.KvTypes.{BlockKey}
use dingo_cache.SlabAllocator.Index.{no_slot, FlatKeyIndex}
use dingo_cache.SlabAllocator.State.{
  SlotRef, SlotMeta, Class, ExtentMeta, Allocator, RetainOptions, Options, WheelEntry, no_meta,
  slot_at, with_slot, with_class, with_extent,
}
use dingo_cache.SlabAllocator.Rings.{
  link_slot, link_before_hand, link_before_global_hand, unlink_class, unlink_global, unlink_extent,
  refresh_class, refresh_global, warm, touch,
}
use dingo_cache.SlabAllocator.Extents.{leave_class, leave_extent}

-- An element after a write.
pub get_or-set {ℓ} :
    {A : Type ℓ} (xs : List A) (i j : ℕ) (v d : A)
    → i < length xs
    → get_or (set xs i v) j d ≡ (if j == i then v else get_or xs j d)
get_or-set xs i j v d h = elim (ℕ_discrete j i) [
  | yes same ↦ rw same (ground (arith, get_or-set_self xs i v d h))
  | no other ↦ ground (arith, get_or-set_ne xs i j v d)
]

-- A projection that an update of one element keeps is kept everywhere.
pub get_or-set_keeps {ℓ κ} :
    {A : Type ℓ} {B : Type κ} (p : A → B) (xs : List A) (i j : ℕ) (v d : A)
    → p v ≡ p (get_or xs i d)
    → p (get_or (set xs i v) j d) ≡ p (get_or xs j d)
get_or-set_keeps p xs i j v d e = elim (Bool-cases (ltb i (length xs))) [
  | inl inside ↦ elim (ℕ_discrete j i) [
    | yes same ↦ rw (same, get_or-set_self xs i v d (ground arith)) e
    | no other ↦ rw (get_or-set_ne xs i j v d (λ q. other (ground arith)))
  ]
  | inr outside ↦ rw (set-beyond xs i v (ground arith))
]

-- The fields of a slot that neither the rings nor its recency use.
pub record Core : Type 0 where
  pub key : BlockKey
  pub ref : SlotRef
  pub useful_bytes : ℕ
  pub refs : ℕ
  pub retain_until : ℕ
  pub remove_pending : Bool
  pub live : Bool

abbrev pub core : SlotMeta → Core
core m = record {
  key = m.key;
  ref = m.ref;
  useful_bytes = m.useful_bytes;
  refs = m.refs;
  retain_until = m.retain_until;
  remove_pending = m.remove_pending;
  live = m.live;
}

-- The fields of the allocator that the rings and the recency do not use.
pub record Rest : Type 0 where
  pub index : FlatKeyIndex
  pub retain : RetainOptions
  pub protected_bytes : ℕ
  pub retain_now_s : ℕ
  pub used_bytes : ℕ
  pub calls : ℕ
  pub opt : Options
  pub evicted : List BlockKey
  pub wheel : List (List WheelEntry)

abbrev pub rest : Allocator → Rest
rest s = record {
  index = s.index;
  retain = s.retain;
  protected_bytes = s.protected_bytes;
  retain_now_s = s.retain_now_s;
  used_bytes = s.used_bytes;
  calls = s.calls;
  opt = s.opt;
  evicted = s.evicted;
  wheel = s.wheel;
}

-- No slot has changed but for its links and its recency, and there are as many as before.
pub record IsSame (s t : Allocator) : Type 0 where
  pub cores : (j : ℕ) → core (slot_at t j) ≡ core (slot_at s j)
  pub many : length t.slots ≡ length s.slots
  pub others : rest t ≡ rest s

pub IsSame-refl : (s : Allocator) → IsSame s s
IsSame-refl s = record { cores = λ j. refl; many = refl; others = refl }

pub IsSame-trans : {s t u : Allocator} → IsSame s t → IsSame t u → IsSame s u
IsSame-trans a b = record {
  cores = λ j. b.cores j ∙ a.cores j;
  many = b.many ∙ a.many;
  others = b.others ∙ a.others;
}

pub either :
    (b : Bool) {s x y : Allocator} → IsSame s x → IsSame s y → IsSame s (if b then x else y)
either true p q = p
either false p q = q

-- One more update after a state that is the same.
module _ {s t : Allocator} (same : IsSame s t) where
  pub and-slot :
      (i : ℕ) (f : SlotMeta → SlotMeta)
      → core (f (slot_at t i)) ≡ core (slot_at t i)
      → IsSame s (with_slot i f t)
  unfolding with_slot
  and-slot i f e = IsSame-trans same (record {
    cores = λ j. get_or-set_keeps core t.slots i j (f (slot_at t i)) no_meta e;
    many = length-set t.slots i (f (slot_at t i));
    others = refl;
  })

  pub and-class : (c : ℕ) (f : Class → Class) → IsSame s (with_class c f t)
  unfolding with_class
  and-class c f = IsSame-trans same (record { cores = λ j. refl; many = refl; others = refl })

  pub and-extent : (e : ℕ) (f : ExtentMeta → ExtentMeta) → IsSame s (with_extent e f t)
  unfolding with_extent
  and-extent e f = IsSame-trans same (record { cores = λ j. refl; many = refl; others = refl })

  pub and-aside : {u : Allocator} → u.slots ≡ t.slots → rest u ≡ rest t → IsSame s u
  and-aside e r = IsSame-trans same (record {
    cores = λ j. ap (λ xs. core (get_or xs j no_meta)) e;
    many = ap length e;
    others = r;
  })

  pub and-link :
      (i : ℕ) (f : SlotMeta → SlotMeta)
      → core (f (slot_at t i)) ≡ core (slot_at t i)
      → IsSame s (link_slot i f t)
  unfolding link_slot
  and-link i f e = either (i == no_slot) same (and-slot i f e)

pub link_before_hand-IsSame : (i : ℕ) (s : Allocator) → IsSame s (link_before_hand i s)
unfolding link_before_hand
link_before_hand-IsSame i s =
    let linked = and-slot (IsSame-refl s) i _ refl in
    either _ (and-class (IsSame-refl s) _ _)
      (and-slot (either _ (and-class linked _ _) (and-slot linked _ _ refl)) _ _ refl)

pub link_before_global_hand-IsSame :
    (i : ℕ) (s : Allocator) → IsSame s (link_before_global_hand i s)
unfolding link_before_global_hand
link_before_global_hand-IsSame i s =
    let linked = and-slot (IsSame-refl s) i _ refl in
    either _ (and-aside (IsSame-refl s) refl refl)
      (and-slot (either _ (and-aside linked refl refl) (and-slot linked _ _ refl)) _ _ refl)

pub unlink_class-IsSame : (i : ℕ) (s : Allocator) → IsSame s (unlink_class i s)
unfolding unlink_class
unlink_class-IsSame i s =
    let start = IsSame-refl s in
    and-link (either _ (and-class start _ _) (and-slot start _ _ refl)) _ _ refl

pub unlink_extent-IsSame : (i : ℕ) (s : Allocator) → IsSame s (unlink_extent i s)
unfolding unlink_extent
unlink_extent-IsSame i s =
    let start = IsSame-refl s in
    and-link (either _ (and-extent start _ _) (and-slot start _ _ refl)) _ _ refl

pub unlink_global-IsSame : (i : ℕ) (s : Allocator) → IsSame s (unlink_global i s)
unfolding unlink_global
unlink_global-IsSame i s =
    let start = IsSame-refl s in
    let joined =
      and-link (either _ (and-aside start refl refl) (and-slot start _ _ refl)) _ _ refl in
    either _ (and-aside joined refl refl) joined

refresh_class-IsSame : (i : ℕ) (s : Allocator) → IsSame s (refresh_class i s)
unfolding refresh_class
refresh_class-IsSame i s =
    either _ (IsSame-refl s)
      (IsSame-trans (and-class (unlink_class-IsSame i s) _ _) (link_before_hand-IsSame i _))

refresh_global-IsSame : (i : ℕ) (s : Allocator) → IsSame s (refresh_global i s)
unfolding refresh_global
refresh_global-IsSame i s =
    either _ (IsSame-refl s)
      (IsSame-trans (unlink_global-IsSame i s) (link_before_global_hand-IsSame i _))

warm-IsSame : (i : ℕ) (s : Allocator) → IsSame s (warm i s)
unfolding warm
warm-IsSame i s = and-slot (and-extent (and-class (IsSame-refl s) _ _) _ _) _ _ refl

-- A read moves the slot in the rings and changes nothing else.
pub touch-IsSame : (i : ℕ) (s : Allocator) → IsSame s (touch i s)
unfolding touch
touch-IsSame i s =
    let counted = and-slot (and-aside (IsSame-refl s) refl refl) i _ refl in
    IsSame-trans counted (
      IsSame-trans (refresh_class-IsSame i _)
        (IsSame-trans (refresh_global-IsSame i _) (warm-IsSame i _)))

pub leave_class-IsSame : (i : ℕ) (s : Allocator) → IsSame s (leave_class i s)
unfolding leave_class
leave_class-IsSame i s = and-class (unlink_class-IsSame i s) _ _

pub leave_extent-IsSame : (i : ℕ) (s : Allocator) → IsSame s (leave_extent i s)
unfolding leave_extent
leave_extent-IsSame i s = and-extent (unlink_extent-IsSame i s) _ _
