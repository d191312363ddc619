-- ===== src/ConHash.antt =====
-- src/utils/con_hash.h and src/utils/con_hash.cc: the Ketama ring that routes keys to cache nodes.
-- A string is the list of its bytes. The digest `md5` of a string, 16 bytes, is a parameter: what is proved
-- holds of every function. The ring, a std::map, is its list of points and names in ascending order. A
-- negative weight, which AddNode raises to 1, is a 0 here.
pub mod Ring
pub mod Routing
pub mod Tests
use dingo_cache.Common.{
  ℕ, zero, suc, ◌+◌, ◌-◌, ◌*◌, ◌/◌, ◌%◌, Bool, List, [], ◌∷◌, ◌++◌, Option, none, some, ltb, leb,
  ◌==◌, if◌then◌else◌, drop, min, max,
}
use dingo_cache.Net.{get_u32}

abbrev pub Name : Type 0
Name = List ℕ

-- `ring_` and `nodes_`.
abbrev pub Ring : Type 0
Ring = List (ℕ × Name)

abbrev pub Nodes : Type 0
Nodes = List (Name × ℕ)

-- AddNode.
unfoldable pub add_node : Nodes → Name → ℕ → Nodes
add_node nodes name weight = nodes ++ ((name, if ltb weight 1 then 1 else weight) ∷ [])

-- `ring_[point] = name`.
unfoldable pub ring_set : Ring → ℕ → Name → Ring
ring_set [] point name = (point, name) ∷ []
ring_set ((q, other) ∷ ring) point name =
    let rest = ring_set ring point name in
    if ltb point q
    then (point, name) ∷ (q, other) ∷ ring
    else if point == q
    then (point, name) ∷ ring
    else (q, other) ∷ rest

-- The digits of a number, before what follows; a number has fewer digits than `fuel`.
unfoldable pub digits_onto : ℕ → ℕ → List ℕ → List ℕ
digits_onto zero n rest = rest
digits_onto (suc fuel) n rest =
    let more = digits_onto fuel (n / 10) ((b'0' + n % 10) ∷ rest) in
    if ltb n 10 then (b'0' + n) ∷ rest else more

-- `std::to_string` of an int.
unfoldable pub to_string : ℕ → List ℕ
unfolding digits_onto
to_string n = digits_onto 11 n []

-- The points of one digest, from the `h`-th on: four bytes each.
unfoldable pub set_points : ℕ → List ℕ → Name → Ring → Ring
set_points zero digest name ring = ring
set_points (suc n) digest name ring =
    set_points n (drop 4 digest) name (ring_set ring (get_u32 digest) name)

-- The keys of one node, `n` of them from the `k`-th on.
unfoldable pub set_keys : (List ℕ → List ℕ) → ℕ → ℕ → Name → Ring → Ring
set_keys md5 zero k name ring = ring
set_keys md5 (suc n) k name ring =
    set_keys md5 n (k + 1) name (set_points 4 (md5 (name ++ (b'-' ∷ to_string k))) name ring)

-- The weight that Build uses, and its keys.
unfoldable pub keys_of : ℕ → ℕ
keys_of weight = 40 * (if ltb weight 1 then 1 else if ltb 1024 weight then 1024 else weight)

unfoldable pub set_nodes : (List ℕ → List ℕ) → Nodes → Ring → Ring
set_nodes md5 [] ring = ring
set_nodes md5 ((name, weight) ∷ nodes) ring =
    set_nodes md5 nodes (set_keys md5 (keys_of weight) 0 name ring)

-- Build.
unfoldable pub build : (List ℕ → List ℕ) → Nodes → Ring
build md5 nodes = set_nodes md5 nodes []

-- `lower_bound`: the first entry from `h` on.
unfoldable pub lower_bound : Ring → ℕ → Option (ℕ × Name)
lower_bound [] h = none
lower_bound ((q, name) ∷ ring) h =
    let rest = lower_bound ring h in if leb h q then some (q, name) else rest

-- The entry that Lookup takes for a hash.
unfoldable pub owner : Ring → ℕ → Option (ℕ × Name)
owner [] h = none
owner (first ∷ ring) h = elim (lower_bound (first ∷ ring) h) [ none ↦ some first | some e ↦ some e ]

-- Lookup; Md5_32 is the first four bytes of the digest.
unfoldable pub lookup_node : (List ℕ → List ℕ) → Ring → List ℕ → Option Name
unfolding owner lower_bound
lookup_node md5 ring key = elim (owner ring (get_u32 (md5 key))) [ none ↦ none | some e ↦ some e.1 ]
