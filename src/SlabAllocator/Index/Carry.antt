-- ===== src/SlabAllocator/Index/Carry.antt =====
-- Rehashing: the copying loop carries every entry over, once.
use native.Mathlib.Decide.{ℕ_discrete}
use dingo_cache.Common.{
  ℕ, zero, suc, ◌+◌, ◌<◌, ◌≡◌, refl, ◌≢◌, inl, inr, Bool, true, false, Option, none, some, List, [],
  ◌∷◌, arith, length, set, if◌then◌else◌, Bool-cases, length-set, IsPowTwo, Option-cases,
}
use dingo_cache.KvTypes.{BlockKey, key_eq, key_eq_sound, key_eq_refl}
use dingo_cache.SlabAllocator.Index.Walk.{Visits-lap, home-lt, Reaches, Reaches-lt}
use dingo_cache.SlabAllocator.Index.Probe.{IsHeld, first_free_sound}
use dingo_cache.SlabAllocator.Index.Table.{IsTable, Absent, IsHeld-at_set, IsHeld-set_ne}
use dingo_cache.SlabAllocator.Index.Tally.{tally, tally-set, live_weight, dead_weight, vacant}
use dingo_cache.SlabAllocator.Index.Lookup.{find-absent}
use dingo_cache.SlabAllocator.Index.Write.{IsWrite, write-IsTable, find-write}
use dingo_cache.SlabAllocator.Index.{
  Entry, FlatKeyIndex, occupied, cell, home, find, find_bucket, first_free, carry_over, new_index,
}

-- An index that is nothing but a table.
abbrev pub over : List Entry → FlatKeyIndex
over es = record new_index { entries = es }

pub find-over : (i : FlatKeyIndex) (q : BlockKey) → find i q ≡ find (over i.entries) q
unfolding find find_bucket
find-over i q = refl

is_hit : Entry → BlockKey → Bool
is_hit o q = elim o.state [ occupied ↦ key_eq q o.key | _ ↦ false ]

is_hit-eq : (o : Entry) (q : BlockKey) → is_hit o q ≡ true → (o.state ≡ occupied) × (o.key ≡ q)
unfolding is_hit
is_hit-eq o q h = ground (arith, key_eq_sound q o.key)

-- The list of old entries, searched from the front.
pub scan : List Entry → BlockKey → Option ℕ
scan [] q = none
scan (o ∷ os) q = if is_hit o q then some o.value else scan os q

pub scan-nil : (q : BlockKey) → scan [] q ≡ none
unfolding scan
scan-nil q = refl

abbrev pub IsUnique : List Entry → Type 0
IsUnique es = (k : BlockKey) (i j : ℕ) → IsHeld es k i → IsHeld es k j → i ≡ j

abbrev shifted :
    {o : Entry} {os : List Entry} {k : BlockKey} {i : ℕ} → IsHeld os k i → IsHeld (o ∷ os) k (suc i)
shifted held = record { full = held.full; same = held.same }

pub IsUnique-tail : (o : Entry) (os : List Entry) → IsUnique (o ∷ os) → IsUnique os
IsUnique-tail o os u k i j p q = omega (arith, u k (suc i) (suc j) (shifted p) (shifted q))

pub scan-some :
    (es : List Entry) (q : BlockKey) (v : ℕ)
    → scan es q ≡ some v
    → (b : ℕ) × IsHeld es q b × ((cell es b).value ≡ v)
unfolding scan
scan-some [] q v h = cc
scan-some (o ∷ os) q v h = elim (Bool-cases (is_hit o q)) [
  | inl hit ↦
      let (occ, same) = is_hit-eq o q hit in (0, record { full = occ; same = same }, ground arith)
  | inr miss ↦ let (b, held, val) = scan-some os q v (ground arith) in (suc b, shifted held, val)
]

pub scan-none : (es : List Entry) (q : BlockKey) → scan es q ≡ none → Absent es q
unfolding scan is_hit
scan-none [] q h b held = cc (held.full)
scan-none (o ∷ os) q h zero held = ground (arith, key_eq_refl q)
scan-none (o ∷ os) q h (suc b) held =
    scan-none os q (ground arith) b (record { full = held.full; same = held.same })

-- Nothing that is still to be carried over is in the new table.
abbrev pub Apart : List Entry → List Entry → Type 0
Apart fs olds = (q : BlockKey) (b : ℕ) → IsHeld fs q b → scan olds q ≡ none

abbrev pub or_scan : Option ℕ → Option ℕ → Option ℕ
or_scan none o = o
or_scan (some v) o = some v

-- One lap finds an empty bucket of a table that is not full.
module _ (fs : List Entry) (o : Entry) (table : IsTable fs) (occ : o.state ≡ occupied)
    (fits : tally live_weight fs + tally dead_weight fs < length fs)
    (absent : Absent fs o.key) where
  sized : IsPowTwo (length fs)
  sized = table.sized (omega arith)

  target : ℕ
  target = first_free fs (length fs) (home fs o.key)

  target_lem : ((cell fs target).state ≢ occupied) × Reaches fs (length fs) (home fs o.key) target
  unfolding target
  target_lem =
      let (j, lt, hollow) = vacant fs fits in
      first_free_sound fs (length fs) (home fs o.key) j
        (Visits-lap fs sized (home fs o.key) j (home-lt fs sized o.key) lt) hollow

  carry-IsWrite : IsWrite (over fs) o.key target o (over (carry_over fs o))
  unfolding carry_over target
  carry-IsWrite = record {
    before = table;
    within = Reaches-lt fs sized _ _ _ target_lem.1 (home-lt fs sized o.key);
    written = rw occ;
    full = λ e. cc;
    own = λ e. refl;
    way = target_lem.1;
    only = λ q held. absurd (target_lem.0 held.full);
    alone = λ b ne. absent b;
  }

-- What one round does, seen from the rest of the loop.
pub record Carries (fs : List Entry) (o : Entry) (os gs : List Entry) : Type 0 where
  pub table : IsTable gs
  pub live :
      tally live_weight gs + tally live_weight os
      ≡ tally live_weight fs + tally live_weight (o ∷ os)
  pub dead : tally dead_weight gs ≡ 0
  pub size : length gs ≡ length fs
  pub apart : Apart gs os
  pub found :
      (q : BlockKey)
      → or_scan (find (over gs) q) (scan os q) ≡ or_scan (find (over fs) q) (scan (o ∷ os) q)

module _ (fs : List Entry) (o : Entry) (os : List Entry) (table : IsTable fs)
    (none_dead : tally dead_weight fs ≡ 0)
    (fits : tally live_weight fs + tally live_weight (o ∷ os) < length fs) (u : IsUnique (o ∷ os))
    (apart : Apart fs (o ∷ os)) where
  pub skip : o.state ≢ occupied → Carries fs o os (carry_over fs o)
  unfolding scan carry_over is_hit
  skip idle =
      let same : carry_over fs o ≡ fs = ground arith in
      rw same (record {
        table = table;
        live = ground arith;
        dead = none_dead;
        size = refl;
        apart = λ q b held. ground (arith, apart q b held);
        found = λ q. ground arith;
      })

  module _ (occ : o.state ≡ occupied) where
    scan_later : scan os o.key ≡ none
    scan_later = elim (Option-cases (scan os o.key)) [
      | inl e ↦ e
      | inr (v, e) ↦
          let (b, held, val) = scan-some os o.key v e in
          absurd
            (omega (arith, u o.key 0 (suc b) (record { full = occ; same = refl }) (shifted held)))
    ]

    absent : Absent fs o.key
    unfolding scan is_hit
    absent b held = ground (arith, apart o.key b held, key_eq_refl o.key)

    room : tally live_weight fs + tally dead_weight fs < length fs
    room = omega arith

    write : IsWrite (over fs) o.key (target fs o table occ room absent) o (over (carry_over fs o))
    write = carry-IsWrite fs o table occ room absent

    Apart-after : Apart (carry_over fs o) os
    unfolding scan is_hit
    Apart-after q b held =
        let t = target fs o table occ room absent in
        let there = rw write.written at held in
        elim (ℕ_discrete b t) [
          | yes at ↦ rw (← (IsHeld-at_set fs t o write.within q (rw at at there)).1) scan_later
          | no off ↦ ground (arith, apart q b ((IsHeld-set_ne fs t o write.within q b off).0 there))
        ]

    found_after :
        (q : BlockKey)
        → or_scan (find (over (carry_over fs o)) q) (scan os q)
          ≡ or_scan (find (over fs) q) (scan (o ∷ os) q)
    unfolding scan is_hit
    found_after q =
        rw (find-write (over fs) o.key (target fs o table occ room absent) o _ write q)
          (elim (Bool-cases (key_eq q o.key)) [
            | inl same ↦
                let eq : q ≡ o.key = key_eq_sound q o.key same in
                let before : find (over fs) q ≡ none =
                  find-absent (over fs) q table (rw eq absent) in
                ground (arith, before)
            | inr differ ↦ ground arith
          ])

    pub carry : Carries fs o os (carry_over fs o)
    unfolding carry_over scan is_hit
    carry =
        let t = target fs o table occ room absent in
        let before : Entry = cell fs t in
        let free : before.state ≢ occupied = (target_lem fs o table occ room absent).0 in
        let made : carry_over fs o ≡ set fs t o = write.written in
        record {
          table = write-IsTable (over fs) o.key t o (over (carry_over fs o)) write;
          live = rw made (ground (arith, tally-set live_weight fs t o write.within));
          dead = rw made (ground (arith, tally-set dead_weight fs t o write.within));
          size = rw made (length-set fs t o);
          apart = Apart-after;
          found = found_after;
        }
