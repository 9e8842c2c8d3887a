-- ===== src/Budget/Admission.antt =====
-- `reserve_budget` of mura/cost_guards.py: when it admits a cost, and what a retry under the same key gets.
use mura_project.Prelude.{
  ℕ, ◌+◌, ◌≤◌, ◌≡◌, ◌≢◌, ◌↔◌, refl, String, Bool, true, false, Option, none, some, List, ◌∷◌, ltb,
  ok, err, ai_cost_budget_exceeded, any, Bool-cases, Option-cases, inl, inr, arith, eq_refl,
  if◌then◌else◌, ◌∙◌, sym, subst,
}
use mura_project.Prelude.Table.{find_where}
use mura_project.Budget.Reservations.{
  AiUsageReservationRow, Ledger, Request, is_live, has_key, existing_for, new_reservation, collides,
  insert, reserve_new, reserve_budget, current_consumed, check_budget_available, committed_res,
  unreserved_events_cost, active_reserved_cost,
}

abbrev pub is_live_found : Option AiUsageReservationRow → Bool
is_live_found none = false
is_live_found (some r) = is_live r.status

abbrev with_new : Request → ℕ → Ledger → Ledger
with_new q now l = record l { reservations = new_reservation q now ∷ l.reservations }

-- What a new reservation adds to the consumption: its cost, unless it expires at once.
current_consumed-with_new :
    (q : Request) (now : ℕ) (l : Ledger)
    → current_consumed now (with_new q now l)
      ≡ current_consumed now l + (if ltb 0 q.ttl then q.estimated_cost_usd else 0)
unfolding current_consumed committed_res unreserved_events_cost active_reserved_cost new_reservation
current_consumed-with_new q now l = ground arith

-- The outcome of a request whose key no live reservation has.
pub record Admitted (budget : ℕ) (q : Request) (now : ℕ) (l l' : Ledger) (r : AiUsageReservationRow)
    : Type 0 where
  pub stored : l'.reservations ≡ r ∷ l.reservations
  pub is_new : r ≡ new_reservation q now
  pub had_room : check_budget_available budget q.estimated_cost_usd now l ≡ true
  pub within : current_consumed now l' ≤ budget
  pub counted :
      current_consumed now l'
      ≡ current_consumed now l + (if ltb 0 q.ttl then q.estimated_cost_usd else 0)

with_new-Admitted :
    (budget : ℕ) (q : Request) (now : ℕ) (l : Ledger)
    → check_budget_available budget q.estimated_cost_usd now l ≡ true
    → Admitted budget q now l (with_new q now l) (new_reservation q now)
unfolding check_budget_available
with_new-Admitted budget q now l h =
    let grows : current_consumed now (with_new q now l)
        ≡ current_consumed now l + (if ltb 0 q.ttl then q.estimated_cost_usd else 0) =
      current_consumed-with_new q now l in
    record { stored = refl; is_new = refl; had_room = h; within = ground arith; counted = grows }

reserve_new-checked :
    (budget : ℕ) (q : Request) (now : ℕ) (l : Ledger)
    → reserve_new budget q now l ≡ (
        if check_budget_available budget q.estimated_cost_usd now l
        then insert q now l
        else err ai_cost_budget_exceeded)
unfolding check_budget_available
reserve_new-checked budget q now l = ground arith

reserve_budget-not_live :
    (budget : ℕ) (q : Request) (now : ℕ) (l : Ledger)
    → is_live_found (existing_for q l) ≡ false
    → reserve_budget budget q now l ≡ reserve_new budget q now l
unfolding reserve_budget
reserve_budget-not_live budget q now l h = elim (Option-cases (existing_for q l)) [
  | inl e ↦ rw e
  | inr (r, e) ↦ let dead : is_live_found (some r) ≡ false = rw e at h in rw (e, dead)
]

insert-Admitted :
    (budget : ℕ) (q : Request) (now : ℕ) (l l' : Ledger) (r : AiUsageReservationRow)
    → check_budget_available budget q.estimated_cost_usd now l ≡ true
    → insert q now l ≡ ok (l', r)
    → Admitted budget q now l l' r
insert-Admitted budget q now l l' r c h = elim (Bool-cases (any (collides q) l.reservations)) [
  | inl k ↦ absurd (ground arith)
  | inr k ↦
      let same : (with_new q now l, new_reservation q now) ≡ (l', r) = ground arith in
      subst (λ (p : Ledger × AiUsageReservationRow). Admitted budget q now l p.0 p.1) same
        (with_new-Admitted budget q now l c)
]

insert-granted_or_taken :
    (q : Request) (now : ℕ) (l : Ledger) → insert q now l ≢ err ai_cost_budget_exceeded
insert-granted_or_taken q now l h = elim (Bool-cases (any (collides q) l.reservations)) [
  | inl k ↦ absurd (ground arith)
  | inr k ↦ absurd (ground arith)
]

reserve_budget-checked :
    (budget : ℕ) (q : Request) (now : ℕ) (l : Ledger)
    → is_live_found (existing_for q l) ≡ false
    → reserve_budget budget q now l ≡ (
        if check_budget_available budget q.estimated_cost_usd now l
        then insert q now l
        else err ai_cost_budget_exceeded)
reserve_budget-checked budget q now l dead =
    reserve_budget-not_live budget q now l dead ∙ reserve_new-checked budget q now l

-- For a request whose key no reserved or committed row has: if it is granted, the check had found room,
-- exactly the new reservation is added, the consumption of the day is then within the budget, and it has
-- grown by the cost if the reservation does not expire at once.
pub reserve_budget-Admitted :
    (budget : ℕ) (q : Request) (now : ℕ) (l l' : Ledger) (r : AiUsageReservationRow)
    → is_live_found (existing_for q l) ≡ false
    → reserve_budget budget q now l ≡ ok (l', r)
    → Admitted budget q now l l' r
reserve_budget-Admitted budget q now l l' r dead h =
    let f = reserve_budget-checked budget q now l dead in
    elim (Bool-cases (check_budget_available budget q.estimated_cost_usd now l)) [
      | inl c ↦ insert-Admitted budget q now l l' r c (sym (rw c at f) ∙ h)
      | inr c ↦ absurd (ground (arith, sym (rw c at f) ∙ h))
    ]

-- Such a request is refused for the budget exactly if the check finds no room.
reserve_budget-exceeded :
    (budget : ℕ) (q : Request) (now : ℕ) (l : Ledger)
    → is_live_found (existing_for q l) ≡ false
    → (reserve_budget budget q now l ≡ err ai_cost_budget_exceeded)
      ↔ (check_budget_available budget q.estimated_cost_usd now l ≡ false)
reserve_budget-exceeded budget q now l dead =
    let f = reserve_budget-checked budget q now l dead in
    elim (Bool-cases (check_budget_available budget q.estimated_cost_usd now l)) [
      | inl c ↦ (
        λ h. absurd (insert-granted_or_taken q now l (sym (rw c at f) ∙ h)),
        λ h. absurd (ground arith),
      )
      | inr c ↦ (λ h. c, λ h. rw c at f)
    ]

find_first :
    (p : AiUsageReservationRow → Bool) (r : AiUsageReservationRow)
    (rows : List AiUsageReservationRow)
    → p r ≡ true
    → find_where p (r ∷ rows) ≡ some r
unfolding find_where
find_first p r rows h = rw h

abbrev IsFound : Request → Ledger × AiUsageReservationRow → Type 0
IsFound q (l, r) = (existing_for q l ≡ some r) × (is_live r.status ≡ true)

Admitted-IsFound :
    (budget : ℕ) (q : Request) (now : ℕ) (l l' : Ledger) (r : AiUsageReservationRow) (k : String)
    → q.idempotency_key ≡ some k
    → Admitted budget q now l l' r
    → IsFound q (l', r)
unfolding existing_for new_reservation
Admitted-IsFound budget q now l l' r k e a =
    let keyed : has_key q.idempotency_key r ≡ true = rw (a.is_new, e) (eq_refl k) in
    (rw a.stored (find_first (has_key q.idempotency_key) r l.reservations keyed), rw a.is_new)

-- The row that a granted request returns is found under its key from then on.
granted-IsFound :
    (budget : ℕ) (q : Request) (now : ℕ) (l l' : Ledger) (r : AiUsageReservationRow) (k : String)
    → q.idempotency_key ≡ some k
    → reserve_budget budget q now l ≡ ok (l', r)
    → IsFound q (l', r)
unfolding reserve_budget
granted-IsFound budget q now l l' r k e h = elim (Bool-cases (is_live_found (existing_for q l))) [
  | inl live ↦ elim (Option-cases (existing_for q l)) [
    | inl f ↦ absurd (ground arith)
    | inr (x, f) ↦
        let alive : is_live x.status ≡ true = rw f at live in
        let same : (l, x) ≡ (l', r) = ground arith in subst (IsFound q) same (f, alive)
  ]
  | inr dead ↦
      let a : Admitted budget q now l l' r = reserve_budget-Admitted budget q now l l' r dead h in
      Admitted-IsFound budget q now l l' r k e a
]

-- A request with a key that is granted can be retried: as long as the table is as the grant left it, the
-- same request under any new id, at any later time and under any budget returns the same row and changes
-- nothing.
pub reserve_budget-retry :
    (budget budget' : ℕ) (q q' : Request) (now now' : ℕ) (l l' : Ledger) (r : AiUsageReservationRow)
    (k : String)
    → q.idempotency_key ≡ some k
    → q'.idempotency_key ≡ some k
    → reserve_budget budget q now l ≡ ok (l', r)
    → reserve_budget budget' q' now' l' ≡ ok (l', r)
unfolding reserve_budget existing_for
reserve_budget-retry budget budget' q q' now now' l l' r k e e' h =
    let (f, live) = granted-IsFound budget q now l l' r k e h in
    let f' : existing_for q' l' ≡ some r = rw (e', ← e) f in rw (f', live)
