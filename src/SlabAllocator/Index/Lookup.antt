-- ===== src/SlabAllocator/Index/Lookup.antt =====
-- What a probe of a well-formed table answers.
use dingo_cache.Common.{ℕ, ◌≡◌, sym, ap, ◌∙◌, ◌⊎◌, inl, inr, ◌↔◌, none, some, length, Option-cases}
use dingo_cache.KvTypes.{BlockKey}
use dingo_cache.SlabAllocator.Index.Walk.{Reaches}
use dingo_cache.SlabAllocator.Index.Probe.{IsHeld, probe_sound, probe_complete}
use dingo_cache.SlabAllocator.Index.Table.{IsTable, Absent}
use dingo_cache.SlabAllocator.Index.{cell, home, find, find_bucket, FlatKeyIndex}

module _ (i : FlatKeyIndex) (k : BlockKey) where
  pub find_bucket-IsHeld : (b : ℕ) → find_bucket i k ≡ some b → IsHeld i.entries k b
  unfolding find_bucket
  find_bucket-IsHeld b h = (probe_sound i.entries k _ _ b h).0

  pub find_bucket-Reaches :
      (b : ℕ) → find_bucket i k ≡ some b → Reaches i.entries (length i.entries) (home i.entries k) b
  unfolding find_bucket
  find_bucket-Reaches b h = (probe_sound i.entries k _ _ b h).1

  module _ (table : IsTable i.entries) where
    pub find_bucket-held : (b : ℕ) → IsHeld i.entries k b → find_bucket i k ≡ some b
    unfolding find_bucket
    find_bucket-held b held = elim (Option-cases (find_bucket i k)) [
      | inl missed ↦ absurd (probe_complete i.entries k _ _ b way held missed)
      | inr (c, hit) ↦ hit ∙ ap some (table.unique k c b (find_bucket-IsHeld c hit) held)
    ]
      where
        way : Reaches i.entries (length i.entries) (home i.entries k) b
        way = rw (sym held.same) (table.reach b held.full)

    pub find_bucket-absent : find_bucket i k ≡ none ↔ Absent i.entries k
    find_bucket-absent = (
      λ missed b held. cc (find_bucket-held b held),
      λ absent. elim (Option-cases (find_bucket i k)) [
        | inl missed ↦ missed
        | inr (c, hit) ↦ absurd (absent c (find_bucket-IsHeld c hit))
      ],
    )

    pub find-held : (b : ℕ) → IsHeld i.entries k b → find i k ≡ some (cell i.entries b).value
    unfolding find
    find-held b held = rw (find_bucket-held b held, find)

    pub find-absent : Absent i.entries k → find i k ≡ none
    unfolding find
    find-absent absent = rw (find_bucket-absent.1 absent, find)

    pub held-or-absent : ((b : ℕ) × IsHeld i.entries k b) ⊎ Absent i.entries k
    held-or-absent = elim (Option-cases (find_bucket i k)) [
      | inl missed ↦ inr (find_bucket-absent.0 missed)
      | inr (c, hit) ↦ inl (c, find_bucket-IsHeld c hit)
    ]
