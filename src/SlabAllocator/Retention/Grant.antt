-- ===== src/SlabAllocator/Retention/Grant.antt =====
-- What a retention request does to the deadline of its object and to the budget.
use dingo_cache.Common.{
  ℕ, ◌+◌, ◌≤◌, ◌<◌, ◌≡◌, refl, ap, ◌∙◌, inl, inr, Bool, false, not, ◌||◌, ◌&&◌, arith, length,
  get_or, ltb, ◌==◌, Bool-cases, some, if◌then◌else◌, min, max, add64, get_or-set_self,
}
use dingo_cache.KvTypes.{BlockKey}
use dingo_cache.SlabAllocator.Index.{find}
use dingo_cache.SlabAllocator.State.{
  SlotMeta, Allocator, no_meta, slot_at, with_slot, with_class, with_extent,
}
use dingo_cache.SlabAllocator.Rings.{touch}
use dingo_cache.SlabAllocator.Frame.{IsSame, IsSame-refl, touch-IsSame}
use dingo_cache.SlabAllocator.Extents.{protect}
use dingo_cache.SlabAllocator.Owned.{IsOwned, IsRecord-lt}
use dingo_cache.SlabAllocator.Retention.{
  RetainMode, set_mode, refresh_mode, RetainOutcome, denied, hit_unprotected, no_outcome,
  observe_time, push_wheel, report, new_deadline, over_budget, write_grant, enter_wheel, grant,
  retain_resident, retain_key, code_of, persist_due,
}
use dingo_cache.SlabAllocator.Retention.Expiry.{observe_time_lem}

-- What a request on record `i` may do, from `s` to `t`: the deadline never moves back, and not past the
-- longest lifetime from now; and a byte budget that is kept stays kept.
record IsGranted (i : ℕ) (s t : Allocator) : Type 0 where
  later : (slot_at s i).retain_until ≤ (slot_at t i).retain_until
  bounded :
      (slot_at t i).retain_until
      ≤ max (slot_at s i).retain_until (s.retain_now_s + s.retain.max_ttl_s)
  budget : s.protected_bytes ≤ s.retain.budget_bytes → t.protected_bytes ≤ s.retain.budget_bytes

abbrev unchanged_grant :
    {i : ℕ} {s t : Allocator}
    → t.slots ≡ s.slots
    → t.protected_bytes ≡ s.protected_bytes
    → IsGranted i s t
unchanged_grant {i} {s} {t} e b =
    let same : (slot_at t i).retain_until ≡ (slot_at s i).retain_until =
      ap (λ xs. (get_or xs i no_meta).retain_until) e in
    record { later = omega arith; bounded = omega arith; budget = λ h. omega arith }

report_lem :
    (out : RetainOutcome) (s : Allocator)
    → ((report out s).0.slots ≡ s.slots) × ((report out s).0.protected_bytes ≡ s.protected_bytes)
unfolding report
report_lem out s = (refl, refl)

push_wheel_lem :
    (k : BlockKey) (until : ℕ) (s : Allocator)
    → ((push_wheel k until s).slots ≡ s.slots)
      × ((push_wheel k until s).protected_bytes ≡ s.protected_bytes)
unfolding push_wheel
push_wheel_lem k until s = elim (Bool-cases (length s.wheel == 0)) [
  | inl off ↦ rw off (refl, refl)
  | inr on ↦ rw on (refl, refl)
]

protect_lem :
    (i : ℕ) (s : Allocator)
    → ((protect i s).slots ≡ s.slots)
      × ((protect i s).protected_bytes ≡ add64 s.protected_bytes (slot_at s i).ref.slot_size)
unfolding protect with_class with_extent
protect_lem i s = (refl, refl)

enter_wheel_lem :
    (m : SlotMeta) (until : ℕ) (s : Allocator)
    → ((enter_wheel m until s).slots ≡ s.slots)
      × ((enter_wheel m until s).protected_bytes ≡ s.protected_bytes)
unfolding enter_wheel
enter_wheel_lem m until s =
    elim (Bool-cases (not (until == m.retain_until) || m.retain_until == 0)) [
      | inl moved ↦ rw moved (push_wheel_lem m.key until s)
      | inr same ↦ rw same (refl, refl)
    ]

abbrev fresh_bytes : ℕ → Allocator → ℕ
fresh_bytes i s =
    if (slot_at s i).retain_until == 0
    then add64 s.protected_bytes (slot_at s i).ref.slot_size
    else s.protected_bytes

write_grant_lem :
    (i eff until : ℕ) (due : Bool) (s : Allocator)
    → i < length s.slots
    → ((slot_at (write_grant i eff until due s) i).retain_until ≡ until)
      × ((write_grant i eff until due s).protected_bytes ≡ fresh_bytes i s)
unfolding write_grant with_slot
write_grant_lem i eff until due s inside = elim (Bool-cases ((slot_at s i).retain_until == 0)) [
  | inl fresh ↦
      let (slots, bytes) = protect_lem i s in
      rw fresh (
        ap (λ (m : SlotMeta). m.retain_until)
            (get_or-set_self (protect i s).slots i _ no_meta (rw slots inside)),
        bytes,
      )
  | inr old ↦
      rw old
        (ap (λ (m : SlotMeta). m.retain_until) (get_or-set_self s.slots i _ no_meta inside), refl)
]

-- A granted lifetime moves the deadline as computed and takes bytes of the budget once.
grant_lem :
    (i stored eff : ℕ) (s : Allocator)
    → i < length s.slots
    → let t = (grant i stored eff s).0 in
      ((slot_at t i).retain_until ≡ new_deadline (slot_at s i) s.retain_now_s eff)
      × (t.protected_bytes ≡ fresh_bytes i s)
unfolding grant
grant_lem i stored eff s inside =
    let m : SlotMeta = slot_at s i in
    let until = new_deadline m s.retain_now_s eff in
    let code = code_of m stored eff until in
    let due = persist_due code m s.retain eff until in
    let written : Allocator = write_grant i eff until due s in
    let (slots, bytes) = report_lem _ (enter_wheel m until written) in
    let (slots', bytes') = enter_wheel_lem m until written in
    let (deadline, used) = write_grant_lem i eff until due s inside in
    (
      ap (λ xs. (get_or xs i no_meta).retain_until) (slots ∙ slots') ∙ deadline,
      bytes ∙ bytes' ∙ used,
    )

-- A request on a record whose guards let it pass.
grant-IsGranted :
    (i stored eff : ℕ) (s : Allocator)
    → i < length s.slots
    → eff ≤ s.retain.max_ttl_s
    → ((slot_at s i).retain_until ≡ 0 → over_budget i s ≡ false)
    → IsGranted i s (grant i stored eff s).0
unfolding new_deadline over_budget
grant-IsGranted i stored eff s inside short within =
    let (deadline, used) = grant_lem i stored eff s inside in
    record {
      later = ground (arith, deadline);
      bounded = ground (arith, deadline);
      budget = λ h. ground (arith, used, within);
    }

lifetime-le :
    (mode : RetainMode) (stored requested most : ℕ)
    → stored ≤ most
    → requested ≤ most
    → elim mode as (λ x. ℕ) [ refresh_mode ↦ stored | set_mode ↦ max stored requested ] ≤ most
lifetime-le set_mode stored requested most p q = omega arith
lifetime-le refresh_mode stored requested most p q = p

retain_resident-IsGranted :
    (i ttl : ℕ) (mode : RetainMode) (s : Allocator)
    → i < length s.slots
    → IsGranted i s (retain_resident i ttl mode s).0
unfolding retain_resident
retain_resident-IsGranted i ttl mode s inside =
    let m : SlotMeta = slot_at s i in
    let stored = min m.retain_ttl_s s.retain.max_ttl_s in
    let requested = min ttl s.retain.max_ttl_s in
    let eff : ℕ = elim mode [ refresh_mode ↦ stored | set_mode ↦ max stored requested ] in
    let short : eff ≤ s.retain.max_ttl_s =
      lifetime-le mode stored requested s.retain.max_ttl_s (omega arith) (omega arith) in
    elim (Bool-cases (eff == 0)) [
      | inl nothing ↦
          let (slots, bytes) =
            report_lem (record no_outcome { code = hit_unprotected; ref = m.ref }) s in
          rw nothing (unchanged_grant slots bytes)
      | inr some_time ↦ elim (Bool-cases (m.retain_until == 0 && over_budget i s)) [
        | inl over ↦
            let (slots, bytes) =
              report_lem (record no_outcome { code = denied; ref = m.ref; ttl_s = m.retain_ttl_s })
                s in
            rw some_time (rw over (unchanged_grant slots bytes))
        | inr within ↦
            rw some_time
              (rw within (grant-IsGranted i stored eff s inside short (λ fresh. ground arith)))
      ]
    ]

-- The states that Retain may hand on: the clock has gone forward, and a REFRESH has touched the record.
begin-IsSame :
    (i : ℕ) (mode : RetainMode) (s : Allocator)
    → IsSame s (elim mode as (λ x. Allocator) [ refresh_mode ↦ touch i s | set_mode ↦ s ])
begin-IsSame i set_mode s = IsSame-refl s
begin-IsSame i refresh_mode s = touch-IsSame i s

observe_time-rest :
    (now : ℕ) (s : Allocator)
    → ((observe_time now s).retain ≡ s.retain)
      × ((observe_time now s).protected_bytes ≡ s.protected_bytes)
unfolding observe_time
observe_time-rest now s = elim (Bool-cases (ltb s.retain_now_s now)) [
  | inl later ↦ rw later (refl, refl)
  | inr same ↦ rw same (refl, refl)
]

-- Where the index and the slot records agree, the index knows the key, and the protected bytes are within
-- the budget: whatever Retain answers, the deadline of the object does not move back, it does not move
-- past the longest lifetime from the latest time seen, and the protected bytes stay within the budget.
pub retain_key-IsGranted :
    (k : BlockKey) (ttl now i : ℕ) (mode : RetainMode) (s : Allocator)
    → IsOwned s
    → find s.index k ≡ some i
    → s.protected_bytes ≤ s.retain.budget_bytes
    → let t = (retain_key k ttl mode now s).0 in
      ((slot_at s i).retain_until ≤ (slot_at t i).retain_until)
      × ((slot_at t i).retain_until
          ≤ max (slot_at s i).retain_until (max now s.retain_now_s + s.retain.max_ttl_s))
      × (t.protected_bytes ≤ s.retain.budget_bytes)
unfolding retain_key
retain_key-IsGranted k ttl now i mode s own hit h =
    let seen : Allocator = observe_time now s in
    let (time, slots) = observe_time_lem now s in
    let (options, bytes) = observe_time-rest now s in
    let begun : Allocator = elim mode [ refresh_mode ↦ touch i seen | set_mode ↦ seen ] in
    let same : IsSame seen begun = begin-IsSame i mode seen in
    let old : (slot_at begun i).retain_until ≡ (slot_at s i).retain_until =
      ap (λ c. c.retain_until) (same.cores i)
      ∙ ap (λ xs. (get_or xs i no_meta).retain_until) slots in
    let inside : i < length begun.slots =
      omega (arith, same.many, ap length slots, IsRecord-lt (own.records k i hit)) in
    let done = retain_resident-IsGranted i ttl mode begun inside in
    let retain : begun.retain ≡ s.retain = ap (λ r. r.retain) same.others ∙ options in
    let longest : begun.retain.max_ttl_s ≡ s.retain.max_ttl_s = ap (λ r. r.max_ttl_s) retain in
    let budget : begun.retain.budget_bytes ≡ s.retain.budget_bytes =
      ap (λ r. r.budget_bytes) retain in
    let clock : begun.retain_now_s ≡ max now s.retain_now_s =
      ap (λ r. r.retain_now_s) same.others ∙ time in
    let used : begun.protected_bytes ≡ s.protected_bytes =
      ap (λ r. r.protected_bytes) same.others ∙ bytes in
    elim (Bool-cases (slot_at s i).remove_pending) [
      | inl pending ↦
          let (slots', bytes') = report_lem no_outcome seen in
          let kept : (slot_at (report no_outcome seen).0 i).retain_until
              ≡ (slot_at s i).retain_until =
            ap (λ xs. (get_or xs i no_meta).retain_until) (slots' ∙ slots) in
          rw (hit, retain_key) (rw pending (omega arith, omega arith, omega arith))
      | inr staying ↦ elim (Bool-cases (not s.retain.enabled)) [
        | inl off ↦
            let (slots', bytes') = report_lem (record no_outcome { code = hit_unprotected }) seen in
            let kept : (slot_at (report (record no_outcome { code = hit_unprotected }) seen).0
                  i).retain_until
                ≡ (slot_at s i).retain_until =
              ap (λ xs. (get_or xs i no_meta).retain_until) (slots' ∙ slots) in
            rw (hit, retain_key) (rw staying (rw off (omega arith, omega arith, omega arith)))
        | inr on ↦
            rw (hit, retain_key)
              (rw staying (
                rw on (
                  omega (arith, done.later),
                  omega (arith, done.bounded),
                  omega (arith, done.budget (omega arith)),
                )))
      ]
    ]
