-- ===== src/ConHash/Ring.antt =====
-- The ring is an ordered map, and Lookup takes the next point of it.
use dingo_cache.Common.{
  ℕ, zero, suc, ◌+◌, ◌<◌, ◌≤◌, ◌≡◌, ◌⊎◌, refl, sym, arith, List, [], ◌∷◌, ◌++◌, Option, none, some,
  ltb, leb, ◌==◌, if◌then◌else◌, drop, true, Bool-cases, Option-cases, inl, inr, ==_iff,
}
use dingo_cache.Net.{get_u32}
use dingo_cache.ConHash.{
  Name, Ring, Nodes, ring_set, set_points, set_keys, keys_of, set_nodes, build, lower_bound, owner,
  to_string,
}

-- What the map holds at a point.
abbrev pub ring_get : Ring → ℕ → Option Name
ring_get [] p = none
ring_get ((q, name) ∷ ring) p = let rest = ring_get ring p in if p == q then some name else rest

-- The points ascend from `lo` on.
abbrev pub Ascends : ℕ → Ring → Type 0
Ascends lo [] = Unit {0}
Ascends lo ((q, name) ∷ ring) = (lo ≤ q) × Ascends (q + 1) ring

pub ring_get-ring_set :
    (ring : Ring) (p : ℕ) (name : Name) (j : ℕ)
    → ring_get (ring_set ring p name) j ≡ (if j == p then some name else ring_get ring j)
unfolding ring_set
ring_get-ring_set [] p name j = refl
ring_get-ring_set ((q, other) ∷ ring) p name j =
    let ih = ring_get-ring_set ring p name j in ground (arith, ih)

pub Ascends-ring_set :
    (lo : ℕ) (ring : Ring) (p : ℕ) (name : Name)
    → Ascends lo ring
    → lo ≤ p
    → Ascends lo (ring_set ring p name)
unfolding ring_set
Ascends-ring_set lo [] p name a h = (h, tt)
Ascends-ring_set lo ((q, other) ∷ ring) p name a h = elim (Bool-cases (ltb p q)) [
  | inl before ↦ rw before (h, (ground (arith, before), a.1))
  | inr later ↦ elim (Bool-cases (p == q)) [
    | inl here ↦
        let same : q ≡ p = sym ((==_iff p q).0 here) in rw (later, here) (h, rw (sym same) a.1)
    | inr other_point ↦
        rw (later, other_point)
          (a.0, Ascends-ring_set (q + 1) ring p name a.1 (ground (arith, later, other_point)))
  ]
]

pub Ascends-le :
    (lo : ℕ) (ring : Ring) (p : ℕ) (name : Name)
    → Ascends lo ring
    → ring_get ring p ≡ some name
    → lo ≤ p
Ascends-le lo [] p name a e = absurd (cc e)
Ascends-le lo ((q, other) ∷ ring) p name a e = elim (Bool-cases (p == q)) [
  | inl here ↦ ground (arith, here, a.0)
  | inr there ↦
      let found : ring_get ring p ≡ some name = ground (arith, e, there) in
      let above = Ascends-le (q + 1) ring p name a.1 found in omega (arith, a.0, above)
]

-- The entry at `q` is the next one from `h` on.
pub record IsNext (ring : Ring) (h q : ℕ) (name : Name) : Type 0 where
  pub held : ring_get ring q ≡ some name
  pub from_h : h ≤ q
  pub least : (p : ℕ) (other : Name) → ring_get ring p ≡ some other → h ≤ p → q ≤ p

lower_bound-IsNext :
    (lo : ℕ) (ring : Ring) (h q : ℕ) (name : Name)
    → Ascends lo ring
    → lower_bound ring h ≡ some (q, name)
    → IsNext ring h q name
unfolding lower_bound
lower_bound-IsNext lo [] h q name a e = absurd (cc e)
lower_bound-IsNext lo ((r, other) ∷ ring) h q name a e = elim (Bool-cases (leb h r)) [
  | inl here ↦
      let points : r ≡ q = ground (arith, e, here) in
      let names : other ≡ name = ground (arith, e, here) in
      record {
        held = ground (arith, points, names);
        from_h = ground (arith, points, here);
        least = λ p some_name held from_h.
            let low = Ascends-le r ((r, other) ∷ ring) p some_name (omega arith, a.1) held in
            omega (arith, points, low);
      }
  | inr there ↦
      let next = lower_bound-IsNext (r + 1) ring h q name a.1 (ground (arith, e, there)) in
      let above = Ascends-le (r + 1) ring q name a.1 next.held in
      record {
        held = ground (arith, next.held, above);
        from_h = next.from_h;
        least = λ p some_name held from_h.
            next.least p some_name (ground (arith, held, there, from_h)) from_h;
      }
]

lower_bound_beyond :
    (ring : Ring) (h p : ℕ) (name : Name)
    → lower_bound ring h ≡ none
    → ring_get ring p ≡ some name
    → p < h
unfolding lower_bound
lower_bound_beyond [] h p name e held = absurd (cc held)
lower_bound_beyond ((r, other) ∷ ring) h p name e held =
    let further : ltb r h ≡ true = ground (arith, e) in
    let rest : lower_bound ring h ≡ none = ground (arith, e) in
    elim (Bool-cases (p == r)) [
      | inl here ↦ ground (arith, here, further)
      | inr there ↦ lower_bound_beyond ring h p name rest (ground (arith, held, there))
    ]

-- The ring that Build makes ascends.
set_points-Ascends :
    (n : ℕ) (digest : List ℕ) (name : Name) (ring : Ring)
    → Ascends 0 ring
    → Ascends 0 (set_points n digest name ring)
unfolding set_points
set_points-Ascends zero digest name ring a = a
set_points-Ascends (suc n) digest name ring a =
    set_points-Ascends n (drop 4 digest) name (ring_set ring (get_u32 digest) name)
      (Ascends-ring_set 0 ring (get_u32 digest) name a (omega arith))

set_keys-Ascends :
    (md5 : List ℕ → List ℕ) (n k : ℕ) (name : Name) (ring : Ring)
    → Ascends 0 ring
    → Ascends 0 (set_keys md5 n k name ring)
unfolding set_keys
set_keys-Ascends md5 zero k name ring a = a
set_keys-Ascends md5 (suc n) k name ring a =
    set_keys-Ascends md5 n (k + 1) name _
      (set_points-Ascends 4 (md5 (name ++ (b'-' ∷ to_string k))) name ring a)

set_nodes-Ascends :
    (md5 : List ℕ → List ℕ) (nodes : Nodes) (ring : Ring)
    → Ascends 0 ring
    → Ascends 0 (set_nodes md5 nodes ring)
unfolding set_nodes
set_nodes-Ascends md5 [] ring a = a
set_nodes-Ascends md5 ((name, weight) ∷ nodes) ring a =
    set_nodes-Ascends md5 nodes (set_keys md5 (keys_of weight) 0 name ring)
      (set_keys-Ascends md5 (keys_of weight) 0 name ring a)

pub build-Ascends : (md5 : List ℕ → List ℕ) (nodes : Nodes) → Ascends 0 (build md5 nodes)
unfolding build
build-Ascends md5 nodes = set_nodes-Ascends md5 nodes [] tt

-- The entry at `q` is the lowest, and all points are below `h`.
pub record IsWrapped (ring : Ring) (h q : ℕ) (name : Name) : Type 0 where
  pub held : ring_get ring q ≡ some name
  pub all_below : (p : ℕ) (other : Name) → ring_get ring p ≡ some other → p < h
  pub least : (p : ℕ) (other : Name) → ring_get ring p ≡ some other → q ≤ p

pub owner-IsNext :
    (ring : Ring) (h q : ℕ) (name : Name)
    → Ascends 0 ring
    → owner ring h ≡ some (q, name)
    → IsNext ring h q name ⊎ IsWrapped ring h q name
unfolding owner
owner-IsNext [] h q name a e = absurd (cc e)
owner-IsNext ((r, other) ∷ ring) h q name a e =
    let whole : Ring = (r, other) ∷ ring in
    elim (Option-cases (lower_bound whole h)) [
      | inl beyond ↦
          let points : r ≡ q = ground (arith, e, beyond) in
          let names : other ≡ name = ground (arith, e, beyond) in
          inr (record {
            held = ground (arith, points, names);
            all_below = λ p some_name held. lower_bound_beyond whole h p some_name beyond held;
            least = λ p some_name held.
                let low = Ascends-le r whole p some_name (omega arith, a.1) held in
                omega (arith, points, low);
          })
      | inr (found, here) ↦
          let same : lower_bound whole h ≡ some (q, name) = ground (arith, e, here) in
          inl (lower_bound-IsNext 0 whole h q name a same)
    ]
