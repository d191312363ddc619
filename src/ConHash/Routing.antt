-- ===== src/ConHash/Routing.antt =====
-- What Lookup gives on a ring that Build made, before and after a node is added.
use dingo_cache.Common.{
  ℕ, zero, suc, ◌+◌, ◌<◌, ◌≡◌, ◌⊎◌, ◌↔◌, ◌≢◌, refl, arith, List, [], ◌∷◌, ◌++◌, Option, none, some,
  ltb, ◌==◌, if◌then◌else◌, drop, Bool-cases, Option-cases, inl, inr,
}
use dingo_cache.Net.{get_u32}
use dingo_cache.ConHash.Ring.{IsNext, IsWrapped, build-Ascends, owner-IsNext}
use dingo_cache.ConHash.{
  Name, Ring, Nodes, add_node, ring_set, set_points, set_keys, keys_of, set_nodes, build,
  lower_bound, owner, lookup_node, to_string,
}

-- The name that a ring gives to a hash.
abbrev named : Option (ℕ × Name) → Option Name
named none = none
named (some e) = some e.1

-- One ring gives each hash to whom the other gives it, or to `name`.
Takes : Name → Ring → Ring → Type 0
Takes name before after =
    (h : ℕ) → (named (owner after h) ≡ named (owner before h)) ⊎ (named (owner after h) ≡ some name)

lower_bound-ring_set :
    (ring : Ring) (p : ℕ) (name : Name) (h : ℕ)
    → (lower_bound (ring_set ring p name) h ≡ lower_bound ring h)
      ⊎ (named (lower_bound (ring_set ring p name) h) ≡ some name)
unfolding lower_bound ring_set
lower_bound-ring_set [] p name h = ground arith
lower_bound-ring_set ((q, other) ∷ ring) p name h =
    let ih = lower_bound-ring_set ring p name h in ground (arith, ih)

Takes-ring_set : (ring : Ring) (p : ℕ) (name : Name) → Takes name ring (ring_set ring p name)
unfolding Takes owner ring_set lower_bound
Takes-ring_set [] p name h = ground arith
Takes-ring_set ((q, other) ∷ ring) p name h =
    let step = lower_bound-ring_set ring p name h in ground (arith, step)

Takes-trans : (name : Name) (a b c : Ring) → Takes name a b → Takes name b c → Takes name a c
unfolding Takes
Takes-trans name a b c first second h = ground (arith, first h, second h)

Takes-set_points :
    (n : ℕ) (digest : List ℕ) (name : Name) (ring : Ring)
    → Takes name ring (set_points n digest name ring)
unfolding set_points
Takes-set_points zero digest name ring = unfold Takes in (λ h. inl refl)
Takes-set_points (suc n) digest name ring =
    let next = ring_set ring (get_u32 digest) name in
    Takes-trans name ring next (set_points n (drop 4 digest) name next)
      (Takes-ring_set ring (get_u32 digest) name) (Takes-set_points n (drop 4 digest) name next)

Takes-set_keys :
    (md5 : List ℕ → List ℕ) (n k : ℕ) (name : Name) (ring : Ring)
    → Takes name ring (set_keys md5 n k name ring)
unfolding set_keys
Takes-set_keys md5 zero k name ring = unfold Takes in (λ h. inl refl)
Takes-set_keys md5 (suc n) k name ring =
    let digest = md5 (name ++ (b'-' ∷ to_string k)) in
    let next = set_points 4 digest name ring in
    Takes-trans name ring next (set_keys md5 n (k + 1) name next)
      (Takes-set_points 4 digest name ring) (Takes-set_keys md5 n (k + 1) name next)

set_nodes-append :
    (md5 : List ℕ → List ℕ) (a b : Nodes) (ring : Ring)
    → set_nodes md5 (a ++ b) ring ≡ set_nodes md5 b (set_nodes md5 a ring)
unfolding set_nodes
set_nodes-append md5 [] b ring = refl
set_nodes-append md5 ((name, weight) ∷ a) b ring =
    set_nodes-append md5 a b (set_keys md5 (keys_of weight) 0 name ring)

build-add_node :
    (md5 : List ℕ → List ℕ) (nodes : Nodes) (name : Name) (weight : ℕ)
    → Takes name (build md5 nodes) (build md5 (add_node nodes name weight))
unfolding build add_node set_nodes
build-add_node md5 nodes name weight =
    let raised = if ltb weight 1 then 1 else weight in
    rw (set_nodes-append md5 nodes ((name, raised) ∷ []) [])
      (Takes-set_keys md5 (keys_of raised) 0 name (set_nodes md5 nodes []))

-- Once a node is added, with whatever weight, and the ring built again, every key is routed as before or to
-- the new node.
pub lookup_node-add_node :
    (md5 : List ℕ → List ℕ) (nodes : Nodes) (name : Name) (weight : ℕ) (key : List ℕ)
    → (lookup_node md5 (build md5 (add_node nodes name weight)) key
        ≡ lookup_node md5 (build md5 nodes) key)
      ⊎ (lookup_node md5 (build md5 (add_node nodes name weight)) key ≡ some name)
unfolding lookup_node Takes
lookup_node-add_node md5 nodes name weight key =
    let taken = build-add_node md5 nodes name weight (get_u32 (md5 key)) in ground (arith, taken)

-- A ring that some write has made is not empty.
abbrev Filled : Ring → Type 0
Filled [] = ⊥
Filled (e ∷ ring) = Unit {0}

Filled-ring_set : (ring : Ring) (p : ℕ) (name : Name) → Filled (ring_set ring p name)
unfolding ring_set
Filled-ring_set [] p name = tt
Filled-ring_set ((q, other) ∷ ring) p name = elim (Bool-cases (ltb p q)) [
  | inl before ↦ rw before tt
  | inr later ↦ elim (Bool-cases (p == q)) [
    | inl here ↦ rw (later, here) tt
    | inr there ↦ rw (later, there) tt
  ]
]

Filled-set_points :
    (n : ℕ) (digest : List ℕ) (name : Name) (ring : Ring)
    → Filled ring
    → Filled (set_points n digest name ring)
unfolding set_points
Filled-set_points zero digest name ring f = f
Filled-set_points (suc n) digest name ring f =
    Filled-set_points n (drop 4 digest) name (ring_set ring (get_u32 digest) name)
      (Filled-ring_set ring (get_u32 digest) name)

Filled-set_keys :
    (md5 : List ℕ → List ℕ) (n k : ℕ) (name : Name) (ring : Ring)
    → (0 < n) ⊎ Filled ring
    → Filled (set_keys md5 n k name ring)
unfolding set_keys
Filled-set_keys md5 zero k name ring (inl h) = absurd (omega arith)
Filled-set_keys md5 zero k name ring (inr f) = f
Filled-set_keys md5 (suc n) k name ring h =
    let digest = md5 (name ++ (b'-' ∷ to_string k)) in
    Filled-set_keys md5 n (k + 1) name (set_points 4 digest name ring) (
      inr (
        unfold set_points in
        (Filled-set_points 3 (drop 4 digest) name (ring_set ring (get_u32 digest) name)
          (Filled-ring_set ring (get_u32 digest) name))))

keys_of_pos : (weight : ℕ) → 0 < keys_of weight
unfolding keys_of
keys_of_pos weight = ground arith

Filled-set_nodes :
    (md5 : List ℕ → List ℕ) (nodes : Nodes) (ring : Ring)
    → Filled ring
    → Filled (set_nodes md5 nodes ring)
unfolding set_nodes
Filled-set_nodes md5 [] ring f = f
Filled-set_nodes md5 ((name, weight) ∷ nodes) ring f =
    Filled-set_nodes md5 nodes (set_keys md5 (keys_of weight) 0 name ring)
      (Filled-set_keys md5 (keys_of weight) 0 name ring (inr f))

owner_some : (ring : Ring) (h : ℕ) → Filled ring → owner ring h ≢ none
unfolding owner
owner_some [] h f = elim f [ ]
owner_some (e ∷ ring) h f = ground arith

-- Lookup on a ring that Build made fails exactly when there is no node.
pub lookup_node-none :
    (md5 : List ℕ → List ℕ) (nodes : Nodes) (key : List ℕ)
    → (lookup_node md5 (build md5 nodes) key ≡ none) ↔ (nodes ≡ [])
unfolding lookup_node build set_nodes
lookup_node-none md5 [] key = (λ e. refl, λ e. unfold owner in refl)
lookup_node-none md5 ((name, weight) ∷ nodes) key =
    let ring = set_keys md5 (keys_of weight) 0 name [] in
    let filled =
      Filled-set_nodes md5 nodes ring
        (Filled-set_keys md5 (keys_of weight) 0 name [] (inl (keys_of_pos weight))) in
    let found = owner_some (set_nodes md5 nodes ring) (get_u32 (md5 key)) filled in
    (λ e. absurd (ground (arith, e, found)), λ e. absurd (cc e))

-- On the ring that Build makes of one node or more, Lookup gives every key a name, and that name owns a point:
-- the next one from the hash of the key on, or, where all points are below the hash, the lowest.
pub lookup_node-IsNext :
    (md5 : List ℕ → List ℕ) (nodes : Nodes) (key : List ℕ)
    → nodes ≢ []
    → (name : Name) × (q : ℕ) × (lookup_node md5 (build md5 nodes) key ≡ some name)
      × (IsNext (build md5 nodes) (get_u32 (md5 key)) q name
          ⊎ IsWrapped (build md5 nodes) (get_u32 (md5 key)) q name)
unfolding lookup_node
lookup_node-IsNext md5 nodes key some_node =
    let ring = build md5 nodes in
    let h = get_u32 (md5 key) in
    elim (Option-cases (owner ring h)) [
      | inl nobody ↦
          absurd (some_node ((lookup_node-none md5 nodes key).0 (rw (lookup_node, nobody) refl)))
      | inr ((q, name), found) ↦ (
        name,
        q,
        rw (lookup_node, found) refl,
        owner-IsNext ring h q name (build-Ascends md5 nodes) found,
      )
    ]
