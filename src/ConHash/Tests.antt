-- ===== src/ConHash/Tests.antt =====
-- Runs of src/utils/con_hash.cc with a digest that is easy to compute.
use dingo_cache.Common.{ℕ, ◌+◌, ◌*◌, ◌%◌, ◌≡◌, ◌⊎◌, ◌↔◌, ◌≢◌, refl, List, [], ◌∷◌, none, some}
use dingo_cache.Net.{get_u32}
use dingo_cache.ConHash.{
  Nodes, add_node, ring_set, digits_onto, to_string, set_points, set_keys, keys_of, set_nodes,
  build, lower_bound, owner, lookup_node,
}
use dingo_cache.ConHash.Ring.{IsNext, IsWrapped}
use dingo_cache.ConHash.Routing.{lookup_node-add_node, lookup_node-none, lookup_node-IsNext}

abbrev stir : ℕ → List ℕ → ℕ
stir acc [] = acc
stir acc (c ∷ s) = stir ((acc * 31 + c) % 65536) s

-- A digest of four words of two different bytes each.
abbrev digest : List ℕ → List ℕ
digest s =
    stir 1 s % 256
    ∷ stir 2 s % 256
    ∷ 0
    ∷ 0
    ∷ stir 3 s % 256
    ∷ stir 4 s % 256
    ∷ 0
    ∷ 0
    ∷ stir 5 s % 256
    ∷ stir 6 s % 256
    ∷ 0
    ∷ 0
    ∷ stir 7 s % 256
    ∷ stir 8 s % 256
    ∷ 0
    ∷ 0
    ∷ []

abbrev one_node : Nodes
one_node = (b'a' ∷ [], 1) ∷ []

decimal : to_string 1039 ≡ b'1' ∷ b'0' ∷ b'3' ∷ b'9' ∷ []
unfolding to_string digits_onto
decimal = refl

routed : lookup_node digest (build digest one_node) (b'k' ∷ []) ≡ some (b'a' ∷ [])
unfolding lookup_node build set_nodes keys_of set_keys set_points ring_set to_string digits_onto
    owner lower_bound get_u32
routed = refl

-- The hash of this key is beyond the highest point, and the lowest is at 161.
abbrev last_key : List ℕ
last_key = 193 ∷ []

wraps :
    (lower_bound (build digest one_node) (get_u32 (digest last_key)) ≡ none)
    × (owner (build digest one_node) (get_u32 (digest last_key)) ≡ some (161, b'a' ∷ []))
unfolding build set_nodes keys_of set_keys set_points ring_set to_string digits_onto owner
    lower_bound get_u32
wraps = (refl, refl)

some_node : one_node ≢ []
some_node e = cc e

lookup_node-IsNext_example :
    (name : List ℕ) × (q : ℕ) × (lookup_node digest (build digest one_node) last_key ≡ some name)
    × (IsNext (build digest one_node) (get_u32 (digest last_key)) q name
        ⊎ IsWrapped (build digest one_node) (get_u32 (digest last_key)) q name)
lookup_node-IsNext_example = lookup_node-IsNext digest one_node last_key some_node

lookup_node-add_node_example :
    (lookup_node digest (build digest (add_node one_node (b'b' ∷ []) 2)) (b'k' ∷ [])
      ≡ lookup_node digest (build digest one_node) (b'k' ∷ []))
    ⊎ (lookup_node digest (build digest (add_node one_node (b'b' ∷ []) 2)) (b'k' ∷ [])
        ≡ some (b'b' ∷ []))
lookup_node-add_node_example = lookup_node-add_node digest one_node (b'b' ∷ []) 2 (b'k' ∷ [])

lookup_node-none_run :
    (lookup_node digest (build digest one_node) (b'k' ∷ []) ≡ none) ↔ (one_node ≡ [])
lookup_node-none_run = lookup_node-none digest one_node (b'k' ∷ [])
