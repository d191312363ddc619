-- ===== src/SlabAllocator/Index/Rehash.antt =====
-- Rehashing as a whole: the new table answers every question as the old one did.
use dingo_cache.Common.{
  ℕ, zero, suc, ◌+◌, ◌*◌, ◌≤◌, ◌<◌, ◌≡◌, refl, sym, ap, ◌∙◌, inl, inr, Option, none, some, List, [],
  ◌∷◌, arith, length, replicate, ltb, Bool-cases, IsPowTwo, Option-cases, length-replicate,
  get_or-replicate,
}
use dingo_cache.KvTypes.{BlockKey}
use dingo_cache.SlabAllocator.Index.Probe.{State-cases}
use dingo_cache.SlabAllocator.Index.Table.{IsTable, Absent}
use dingo_cache.SlabAllocator.Index.Tally.{tally, tally-replicate, live_weight, dead_weight}
use dingo_cache.SlabAllocator.Index.Lookup.{find-held, find-absent}
use dingo_cache.SlabAllocator.Index.Carry.{
  Carries, carry, skip, scan, scan-nil, scan-some, scan-none, or_scan, over, find-over, Apart,
  IsUnique, IsUnique-tail,
}
use dingo_cache.SlabAllocator.Index.{
  Entry, FlatKeyIndex, no_entry, find, carry_over, carry_all, double_to, rehash, empty, cell,
}

-- What the whole copying loop leaves.
pub record Carried (fs olds gs : List Entry) : Type 0 where
  pub table : IsTable gs
  pub live : tally live_weight gs ≡ tally live_weight fs + tally live_weight olds
  pub dead : tally dead_weight gs ≡ 0
  pub size : length gs ≡ length fs
  pub found : (q : BlockKey) → find (over gs) q ≡ or_scan (find (over fs) q) (scan olds q)

or_scan-none : (o : Option ℕ) → or_scan o none ≡ o
or_scan-none none = refl
or_scan-none (some v) = refl

round :
    (fs : List Entry) (o : Entry) (os : List Entry)
    → IsTable fs
    → tally dead_weight fs ≡ 0
    → tally live_weight fs + tally live_weight (o ∷ os) < length fs
    → IsUnique (o ∷ os)
    → Apart fs (o ∷ os)
    → Carries fs o os (carry_over fs o)
round fs o os table dead fits u apart = elim (State-cases o.state) [
  | inl e ↦ skip fs o os table dead fits u apart (λ occ. cc)
  | inr (inl occ) ↦ carry fs o os table dead fits u apart occ
  | inr (inr e) ↦ skip fs o os table dead fits u apart (λ occ. cc)
]

carry_all-Carried :
    (olds fs : List Entry)
    → IsTable fs
    → tally dead_weight fs ≡ 0
    → tally live_weight fs + tally live_weight olds < length fs
    → IsUnique olds
    → Apart fs olds
    → Carried fs olds (carry_all fs olds)
unfolding carry_all
carry_all-Carried [] fs table dead fits u apart = record {
  table = table;
  live = omega arith;
  dead = dead;
  size = refl;
  found = λ q. rw scan-nil (sym (or_scan-none (find (over fs) q)));
}
carry_all-Carried (o ∷ os) fs table dead fits u apart =
    let gs : List Entry = carry_over fs o in
    let step : Carries fs o os gs = round fs o os table dead fits u apart in
    let rest : Carried gs os (carry_all gs os) =
      carry_all-Carried os gs step.table step.dead (omega (arith, step.live, step.size))
        (IsUnique-tail o os u) step.apart in
    record {
      table = rest.table;
      live = omega (arith, rest.live, step.live);
      dead = rest.dead;
      size = rest.size ∙ step.size;
      found = λ q. rest.found q ∙ step.found q;
    }

-- A fresh table.
module _ (n : ℕ) (sized : IsPowTwo n) where
  fresh : List Entry
  fresh = replicate n no_entry

  fresh-empty : (b : ℕ) → (cell fresh b).state ≡ empty
  unfolding fresh
  fresh-empty b = rw (get_or-replicate n b no_entry)

  fresh-IsTable : IsTable fresh
  unfolding fresh
  fresh-IsTable = record {
    sized = λ pos. rw (length-replicate n no_entry) sized;
    reach = λ b occ. cc (fresh-empty b);
    unique = λ k i j p q. cc (p.full, fresh-empty i);
  }

  fresh-Absent : (q : BlockKey) → Absent fresh q
  fresh-Absent q b held = cc (held.full, fresh-empty b)

-- A search from the front answers like a probe.
scan-find : (es : List Entry) (q : BlockKey) → IsTable es → scan es q ≡ find (over es) q
scan-find es q table = elim (Option-cases (scan es q)) [
  | inl e ↦ e ∙ sym (find-absent (over es) q table (scan-none es q e))
  | inr (v, e) ↦
      let (b, held, val) = scan-some es q v e in
      e ∙ ap some (sym val) ∙ sym (find-held (over es) q table b held)
]

double_to-IsPowTwo : (n r c : ℕ) → IsPowTwo c → IsPowTwo (double_to n r c)
unfolding double_to
double_to-IsPowTwo zero r c p = p
double_to-IsPowTwo (suc n) r c p = elim (Bool-cases (ltb c r)) [
  | inl e ↦ rw e (double_to-IsPowTwo n r (c * 2) (IsPowTwo.double p refl))
  | inr e ↦ rw e p
]

-- The fuel is enough: each round adds at least one.
double_to-le : (n r c : ℕ) → 0 < c → r ≤ c + n → r ≤ double_to n r c
unfolding double_to
double_to-le zero r c pos h = omega arith
double_to-le (suc n) r c pos h = ground (arith, double_to-le n r (c * 2))

double_to-ge : (n r c : ℕ) → c ≤ double_to n r c
unfolding double_to
double_to-ge zero r c = omega arith
double_to-ge (suc n) r c = ground (arith, double_to-ge n r (c * 2))

sixteen : IsPowTwo 16
sixteen =
    IsPowTwo.double
      (IsPowTwo.double (IsPowTwo.double (IsPowTwo.double (IsPowTwo.one refl) refl) refl) refl) refl

pub record Rehashed (i j : FlatKeyIndex) (requested : ℕ) : Type 0 where
  pub table : IsTable j.entries
  pub live : tally live_weight j.entries ≡ tally live_weight i.entries
  pub dead : tally dead_weight j.entries ≡ 0
  pub wide : requested ≤ length j.entries
  pub least : 16 ≤ length j.entries
  pub found : (q : BlockKey) → find j q ≡ find i q

-- A rehash into a table for more keys than the index holds keeps every answer and the number of keys,
-- leaves no tombstone, and gives a well-formed table of the requested capacity at least.
pub rehash-Rehashed :
    (i : FlatKeyIndex) (requested : ℕ)
    → IsTable i.entries
    → tally live_weight i.entries < requested
    → Rehashed i (rehash i requested) requested
unfolding rehash fresh
rehash-Rehashed i r table fits =
    let n = double_to r r 16 in
    let enough : r ≤ n = double_to-le r r 16 (omega arith) (omega arith) in
    let sized : IsPowTwo n = double_to-IsPowTwo r r 16 sixteen in
    let len : length (fresh n sized) ≡ n = length-replicate n no_entry in
    let none_live = tally-replicate live_weight n refl in
    let whole : Carried (fresh n sized) i.entries (carry_all (fresh n sized) i.entries) =
      carry_all-Carried i.entries (fresh n sized) (fresh-IsTable n sized)
        (tally-replicate dead_weight n refl) (omega arith) table.unique
        (λ q b held. absurd (fresh-Absent n sized q b held)) in
    record {
      table = whole.table;
      live = omega arith;
      dead = whole.dead;
      wide = omega arith;
      least = omega (arith, double_to-ge r r 16);
      found = λ q.
          find-over (rehash i r) q
          ∙ whole.found q
          ∙ ap (λ o. or_scan o (scan i.entries q))
              (find-absent (over (fresh n sized)) q (fresh-IsTable n sized)
                (fresh-Absent n sized q))
          ∙ scan-find i.entries q table
          ∙ sym (find-over i q);
    }
