-- ===== src/SlabAllocator/Index/Write.antt =====
-- A new entry in a free bucket, a new value in an old one, and a tombstone: the table stays well
-- formed, and the map changes at the key alone.
use native.Mathlib.Decide.{ℕ_discrete}
use dingo_cache.Common.{
  ℕ, ◌<◌, ◌≡◌, refl, sym, ap, ◌∙◌, ◌≢◌, inl, inr, ◌↔◌, Option, none, some, arith, length, set,
  if◌then◌else◌, ◌==◌, Bool-cases,
}
use dingo_cache.KvTypes.{BlockKey, key_eq, key_eq_sound, key_eq_refl}
use dingo_cache.SlabAllocator.Index.Walk.{Reaches}
use dingo_cache.SlabAllocator.Index.Probe.{IsHeld, State-cases}
use dingo_cache.SlabAllocator.Index.Table.{
  IsTable, Absent, IsTable-set, IsHeld-set_self, IsHeld-at_set, IsHeld-set_ne, cell-set, inside,
}
use dingo_cache.SlabAllocator.Index.Lookup.{find-held, find-absent, held-or-absent}
use dingo_cache.SlabAllocator.Index.{
  Entry, FlatKeyIndex, empty, occupied, tombstone, cell, home, find, write_new, overwrite, bury,
  no_slot,
}

abbrev pub fresh_entry : BlockKey → ℕ → Entry
fresh_entry k v = record { key = k; value = v; state = occupied }

-- What a bucket answers for its key.
abbrev pub answer : Entry → Option ℕ
answer e = elim e.state [ occupied ↦ some e.value | _ ↦ none ]

-- A write into the only bucket of a key.
pub record IsWrite (i : FlatKeyIndex) (k : BlockKey) (t : ℕ) (e : Entry) (j : FlatKeyIndex)
    : Type 0 where
  pub before : IsTable i.entries
  pub within : t < length i.entries
  pub written : j.entries ≡ set i.entries t e
  pub full : e.state ≢ empty
  pub own : e.state ≡ occupied → e.key ≡ k
  pub way : Reaches i.entries (length i.entries) (home i.entries k) t
  pub only : (q : BlockKey) → IsHeld i.entries q t → q ≡ k
  pub alone : (b : ℕ) → b ≢ t → ¬ IsHeld i.entries k b

module _ (i : FlatKeyIndex) (k : BlockKey) (t : ℕ) (e : Entry) (j : FlatKeyIndex)
    (w : IsWrite i k t e j) where
  pub write-IsTable : IsTable j.entries
  write-IsTable = rw w.written (
      IsTable-set i.entries t e w.before w.within w.full (λ occ. rw (w.own occ) w.way)
        (λ occ. rw (w.own occ) w.alone))

  cell_after : (b : ℕ) → cell j.entries b ≡ (if b == t then e else cell i.entries b)
  cell_after b = rw w.written (cell-set i.entries t e b w.within)

  held_elsewhere : (q : BlockKey) (b : ℕ) → b ≢ t → IsHeld j.entries q b ↔ IsHeld i.entries q b
  held_elsewhere q b ne = rw w.written (IsHeld-set_ne i.entries t e w.within q b ne)

  held_there : (q : BlockKey) → IsHeld j.entries q t → (e.state ≡ occupied) × (e.key ≡ q)
  held_there q held = IsHeld-at_set i.entries t e w.within q (rw w.written at held)

  find_other : (q : BlockKey) → q ≢ k → find j q ≡ find i q
  find_other q ne = elim (held-or-absent i q w.before) [
    | inl (b, held) ↦
        let off : b ≢ t = λ at. ne (w.only q (rw at at held)) in
        find-held j q write-IsTable b ((held_elsewhere q b off).1 held)
        ∙ ap some (ground (arith, cell_after b))
        ∙ sym (find-held i q w.before b held)
    | inr absent ↦
        find-absent j q write-IsTable (λ b held. elim (ℕ_discrete b t) [
          | yes at ↦ let (occ, same) = held_there q (rw at at held) in ne (sym same ∙ w.own occ)
          | no off ↦ absent b ((held_elsewhere q b off).0 held)
        ])
        ∙ sym (find-absent i q w.before absent)
  ]

  find_own : find j k ≡ answer e
  find_own = elim (State-cases e.state) [
    | inl hollow ↦ absurd (w.full hollow)
    | inr (inl occ) ↦
        find-held j k write-IsTable t
          (rw w.written (IsHeld-set_self i.entries t e w.within k occ (w.own occ)))
        ∙ ground (arith, cell_after t)
    | inr (inr dead) ↦
        find-absent j k write-IsTable (λ b held. elim (ℕ_discrete b t) [
          | yes at ↦ let (occ, same) = held_there k (rw at at held) in cc
          | no off ↦ w.alone b off ((held_elsewhere k b off).0 held)
        ])
        ∙ ground arith
  ]

  -- The map changes at the key, and nowhere else.
  pub find-write : (q : BlockKey) → find j q ≡ (if key_eq q k then answer e else find i q)
  find-write q = elim (Bool-cases (key_eq q k)) [
    | inl same ↦ rw same (rw (key_eq_sound q k same) find_own)
    | inr differ ↦ rw differ (find_other q (λ e'. cc (ap (λ p. key_eq p k) e', key_eq_refl k)))
  ]

-- The three writes that the operations make.
module _ (i : FlatKeyIndex) (k : BlockKey) (table : IsTable i.entries) where
  pub fresh-IsWrite :
      (v t : ℕ)
      → (cell i.entries t).state ≢ occupied
      → t < length i.entries
      → Reaches i.entries (length i.entries) (home i.entries k) t
      → Absent i.entries k
      → IsWrite i k t (fresh_entry k v) (write_new i k v t)
  unfolding write_new
  fresh-IsWrite v t free within way absent = record {
    before = table;
    within = within;
    written = refl;
    full = λ e. cc;
    own = λ occ. refl;
    way = way;
    only = λ q held. absurd (free held.full);
    alone = λ b ne. absent b;
  }

  module _ (t : ℕ) (held : IsHeld i.entries k t) where
    held_within : t < length i.entries
    held_within = inside i.entries t (λ e. cc (held.full))

    held_way : Reaches i.entries (length i.entries) (home i.entries k) t
    held_way = rw (sym held.same) (table.reach t held.full)

    pub overwrite-IsWrite :
        (v : ℕ) → IsWrite i k t (record (cell i.entries t) { value = v }) (overwrite i t v)
    unfolding overwrite
    overwrite-IsWrite v = record {
      before = table;
      within = held_within;
      written = refl;
      full = λ e. cc (held.full);
      own = λ occ. held.same;
      way = held_way;
      only = λ q other. sym other.same ∙ held.same;
      alone = λ b ne other. ne (table.unique k b t other held);
    }

    pub bury-IsWrite :
        IsWrite i k t (record (cell i.entries t) { state = tombstone; value = no_slot }) (bury i t)
    unfolding bury
    bury-IsWrite = record {
      before = table;
      within = held_within;
      written = refl;
      full = λ e. cc;
      own = λ occ. cc;
      way = held_way;
      only = λ q other. sym other.same ∙ held.same;
      alone = λ b ne other. ne (table.unique k b t other held);
    }
