-- ===== src/SlabAllocator/Index.antt =====
-- src/cache/slab_allocator.{h,cc}: FlatKeyIndex, the open-addressing map from a key to the number of
-- its slot record. A pointer into the table is the number of a bucket.
pub mod Walk
pub mod Probe
pub mod Table
pub mod Tally
pub mod Lookup
pub mod Write
pub mod Carry
pub mod Rehash
pub mod Reserve
pub mod Laws
pub mod Refinement
pub mod Tests
use Prim.Native.Nat.{bit_and, bit_xor}
use dingo_cache.Common.{
  ℕ, zero, suc, ◌+◌, ◌-◌, ◌*◌, ◌/◌, ◌%◌, ◌^◌, ◌≡◌, Bool, true, false, not, ◌&&◌, ◌||◌, Option, none,
  some, List, [], ◌∷◌, ltb, leb, ◌==◌, if◌then◌else◌, is_some, length, get_or, set, replicate,
}
use dingo_cache.KvTypes.{BlockKey, key_eq}

-- The byte `state`: 0, 1 and 2.
pub data State : Type 0 where
  empty occupied tombstone : State

pub record Entry : Type 0 where
  pub key : BlockKey
  pub value : ℕ
  pub state : State

pub record FlatKeyIndex : Type 0 where
  pub entries : List Entry
  pub size : ℕ
  pub tombstones : ℕ
  pub table_allocations : ℕ
  pub rehashes : ℕ

-- kNoSlot, UINT32_MAX.
abbrev pub no_slot : ℕ
no_slot = 2 ^ 32 - 1

abbrev pub no_key : BlockKey
no_key = record { digest_hi = 0; digest_lo = 0; tenant_hash = 0 }

-- A value-initialised Entry.
abbrev pub no_entry : Entry
no_entry = record { key = no_key; value = no_slot; state = empty }

abbrev pub new_index : FlatKeyIndex
new_index = record { entries = []; size = 0; tombstones = 0; table_allocations = 0; rehashes = 0 }

abbrev pub cell : List Entry → ℕ → Entry
cell es b = get_or es b no_entry

-- The 64-bit finaliser; products and sums wrap.
unfoldable pub mix : ℕ → ℕ
mix v =
    let a = bit_xor v (v / 2 ^ 30) in
    let b = a * 0xbf58476d1ce4e5b9 % 2 ^ 64 in
    let c = bit_xor b (b / 2 ^ 27) in
    let d = c * 0x94d049bb133111eb % 2 ^ 64 in bit_xor d (d / 2 ^ 31)

unfoldable pub hash : BlockKey → ℕ
unfolding mix
hash key =
    let h = mix ((key.digest_hi + 0x9e3779b97f4a7c15) % 2 ^ 64) in
    let i = bit_xor h (mix ((key.digest_lo + 0x3c6ef372fe94f82a) % 2 ^ 64)) in
    let j = bit_xor i (mix ((key.tenant_hash + 0xdaa66d2c7ddef743) % 2 ^ 64)) in mix j

-- `Hash(key) & mask`, where the table begins to look, and `(bucket + 1) & mask`.
unfoldable pub home : List Entry → BlockKey → ℕ
home es key = bit_and (hash key) (length es - 1)

unfoldable pub next : List Entry → ℕ → ℕ
next es b = bit_and (b + 1) (length es - 1)

-- The probe loop of Find and Erase, with the probes left: the bucket that holds the key.
unfoldable pub probe : List Entry → BlockKey → ℕ → ℕ → Option ℕ
probe es key zero b = none
probe es key (suc n) b =
    let rest = probe es key n (next es b) in
    elim (cell es b).state [
      | empty ↦ none
      | occupied ↦ if key_eq (cell es b).key key then some b else rest
      | tombstone ↦ rest
    ]

-- An empty table probes nothing: it has length 0.
unfoldable pub find_bucket : FlatKeyIndex → BlockKey → Option ℕ
find_bucket i key = probe i.entries key (length i.entries) (home i.entries key)

-- Find: the value that the returned pointer shows.
unfoldable pub find : FlatKeyIndex → BlockKey → Option ℕ
find i key = elim (find_bucket i key) [ none ↦ none | some b ↦ some (cell i.entries b).value ]

-- `while (capacity < requested_capacity) capacity *= 2`, on fuel.
unfoldable pub double_to : ℕ → ℕ → ℕ → ℕ
double_to zero requested capacity = capacity
double_to (suc n) requested capacity =
    let rest = double_to n requested (capacity * 2) in
    if ltb capacity requested then rest else capacity

-- `while (replacement[bucket].state == 1) bucket = (bucket + 1) & mask`.
unfoldable pub first_free : List Entry → ℕ → ℕ → ℕ
first_free es zero b = b
first_free es (suc n) b =
    let rest = first_free es n (next es b) in elim (cell es b).state [ occupied ↦ rest | _ ↦ b ]

-- One round of the copying loop of Rehash.
unfoldable pub carry_over : List Entry → Entry → List Entry
carry_over es old = elim old.state [
  | occupied ↦ set es (first_free es (length es) (home es old.key)) old
  | _ ↦ es
]

unfoldable pub carry_all : List Entry → List Entry → List Entry
carry_all es [] = es
carry_all es (old ∷ olds) = carry_all (carry_over es old) olds

unfoldable pub rehash : FlatKeyIndex → ℕ → FlatKeyIndex
rehash i requested =
    let fresh = replicate (double_to requested requested 16) no_entry in
    record i {
      entries = carry_all fresh i.entries;
      tombstones = 0;
      table_allocations = i.table_allocations + 1;
      rehashes = i.rehashes + 1;
    }

-- `while (expected_size > (capacity * 7) / 10) capacity *= 2`.
unfoldable pub grow_to : ℕ → ℕ → ℕ → ℕ
grow_to zero expected capacity = capacity
grow_to (suc n) expected capacity =
    let rest = grow_to n expected (capacity * 2) in
    if ltb (capacity * 7 / 10) expected then rest else capacity

unfoldable pub wanted_capacity : FlatKeyIndex → ℕ → ℕ
wanted_capacity i expected =
    grow_to expected expected (if length i.entries == 0 then 16 else length i.entries)

unfoldable pub must_rehash : FlatKeyIndex → ℕ → ℕ → Bool
must_rehash i expected capacity =
    length i.entries == 0
    || (not (capacity == length i.entries)
        || (not (i.tombstones == 0)
            && (ltb (capacity * 7 / 10) (expected + i.tombstones)
                || ltb (capacity / 4) i.tombstones)))

unfoldable pub reserve : FlatKeyIndex → ℕ → FlatKeyIndex
unfolding wanted_capacity must_rehash
reserve i expected =
    if must_rehash i expected (wanted_capacity i expected)
    then rehash i (wanted_capacity i expected)
    else i

-- The loop of Insert: the target bucket, which is the first tombstone passed, or else the empty cell.
unfoldable pub vacancy : List Entry → ℕ → ℕ → Option ℕ → Option ℕ
vacancy es zero b tomb = none
vacancy es (suc n) b tomb =
    let pass = vacancy es n (next es b) tomb in
    let mark = vacancy es n (next es b) (some b) in
    elim (cell es b).state [
      | empty ↦ elim tomb [ none ↦ some b | some t ↦ some t ]
      | occupied ↦ pass
      | tombstone ↦ elim tomb [ none ↦ mark | some t ↦ pass ]
    ]

unfoldable pub is_tombstone : Entry → Bool
is_tombstone e = elim e.state [ tombstone ↦ true | _ ↦ false ]

-- The new entry, written into the target bucket.
unfoldable pub write_new : FlatKeyIndex → BlockKey → ℕ → ℕ → FlatKeyIndex
unfolding is_tombstone
write_new i key value target = record i {
  entries = set i.entries target (record { key = key; value = value; state = occupied });
  size = i.size + 1;
  tombstones = if is_tombstone (cell i.entries target) then i.tombstones - 1 else i.tombstones;
}

unfoldable pub insert_new : FlatKeyIndex → BlockKey → ℕ → FlatKeyIndex × Bool
unfolding write_new
insert_new i key value = elim (vacancy i.entries (length i.entries) (home i.entries key) none) [
  | none ↦ (i, false)
  | some target ↦ (write_new i key value target, true)
]

-- `*existing = value`.
unfoldable pub overwrite : FlatKeyIndex → ℕ → ℕ → FlatKeyIndex
overwrite i b value = record i {
  entries = set i.entries b (record (cell i.entries b) { value = value });
}

unfoldable pub insert : FlatKeyIndex → BlockKey → ℕ → FlatKeyIndex × Bool
unfolding overwrite insert_new
insert i key value = elim (find_bucket i key) [
  | some b ↦ (overwrite i b value, false)
  | none ↦ insert_new (reserve i (i.size + 1)) key value
]

unfoldable pub bury : FlatKeyIndex → ℕ → FlatKeyIndex
bury i b = record i {
  entries = set i.entries b (record (cell i.entries b) { state = tombstone; value = no_slot });
  size = i.size - 1;
  tombstones = i.tombstones + 1;
}

unfoldable pub erase : FlatKeyIndex → BlockKey → FlatKeyIndex × Bool
unfolding bury
erase i key = elim (find_bucket i key) [ none ↦ (i, false) | some b ↦ (bury i b, true) ]
