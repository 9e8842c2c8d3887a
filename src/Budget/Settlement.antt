-- ===== src/Budget/Settlement.antt =====
-- `commit_reservation`, `release_reservation` and `expire_stale_reservations` of mura/cost_guards.py: what
-- they do to the consumption of the day.
use mura_project.Prelude.{
  ℕ, ◌+◌, ◌≤◌, ◌≡◌, refl, String, true, false, Option, some, List, [], ◌∷◌, count_where, All, map,
  arith,
}
use mura_project.Prelude.Table.{find, modify}
use mura_project.Prelude.Sums.{part, sum_where-modify, sum_where-map}
use mura_project.Budget.Reservations.{
  AiUsageReservationRow, Ledger, reservation_key, counts_committed, counts_reserved, settled_cost,
  committed_res, active_reserved_cost, current_consumed, committed_row, commit_reservation,
  released_row, release_reservation, is_stale, expired_row, expire_stale_reservations,
}

committed_res-modify :
    (now : ℕ) (id : String) (g : AiUsageReservationRow → AiUsageReservationRow)
    (rows : List AiUsageReservationRow) (r : AiUsageReservationRow)
    → find reservation_key id rows ≡ some r
    → committed_res now (modify reservation_key id g rows)
        + part (counts_committed now) settled_cost r
      ≡ committed_res now rows + part (counts_committed now) settled_cost (g r)
unfolding committed_res
committed_res-modify now id g rows r h =
    sum_where-modify (counts_committed now) settled_cost reservation_key id g rows h

active-modify :
    (now : ℕ) (id : String) (g : AiUsageReservationRow → AiUsageReservationRow)
    (rows : List AiUsageReservationRow) (r : AiUsageReservationRow)
    → find reservation_key id rows ≡ some r
    → active_reserved_cost now (modify reservation_key id g rows)
        + part (counts_reserved now) (λ x. x.reserved_cost_usd) r
      ≡ active_reserved_cost now rows + part (counts_reserved now) (λ x. x.reserved_cost_usd) (g r)
unfolding active_reserved_cost
active-modify now id g rows r h =
    sum_where-modify (counts_reserved now) (λ x. x.reserved_cost_usd) reservation_key id g rows h

-- A reservation that is active and is settled at no more than it holds does not raise the consumption of
-- the day, whether or not an actual cost is given.
pub commit_reservation-le :
    (now : ℕ) (id : String) (actual_cost actual_audio : Option ℕ) (l : Ledger)
    (r : AiUsageReservationRow)
    → find reservation_key id l.reservations ≡ some r
    → counts_reserved now r ≡ true
    → settled_cost (committed_row actual_cost actual_audio r) ≤ r.reserved_cost_usd
    → current_consumed now (commit_reservation id actual_cost actual_audio l)
      ≤ current_consumed now l
unfolding commit_reservation current_consumed committed_row
commit_reservation-le now id actual_cost actual_audio l r h active le = ground (
  arith,
  committed_res-modify now id (committed_row actual_cost actual_audio) l.reservations r h,
  active-modify now id (committed_row actual_cost actual_audio) l.reservations r h,
)

-- Releasing a reservation frees exactly what it holds of the consumption of the day: its cost if it is
-- reserved and has not expired, else nothing.
pub release_reservation-frees :
    (now : ℕ) (id : String) (l : Ledger) (r : AiUsageReservationRow)
    → find reservation_key id l.reservations ≡ some r
    → current_consumed now (release_reservation id l)
        + part (counts_reserved now) (λ x. x.reserved_cost_usd) r
      ≡ current_consumed now l
unfolding release_reservation current_consumed released_row
release_reservation-frees now id l r h = ground (
  arith,
  committed_res-modify now id released_row l.reservations r h,
  active-modify now id released_row l.reservations r h,
)

no_longer_stale : (now : ℕ) (r : AiUsageReservationRow) → is_stale now (expired_row now r) ≡ false
unfolding expired_row
no_longer_stale now r = ground arith

All-expired :
    (now : ℕ) (rows : List AiUsageReservationRow)
    → All (λ r. is_stale now r ≡ false) (map (expired_row now) rows)
All-expired now [] = tt
All-expired now (r ∷ rows) = (no_longer_stale now r, All-expired now rows)

committed_res-expired :
    (now : ℕ) (rows : List AiUsageReservationRow)
    → committed_res now (map (expired_row now) rows) ≡ committed_res now rows
unfolding committed_res expired_row
committed_res-expired now rows =
    sum_where-map (counts_committed now) settled_cost (expired_row now) rows (λ r. ground arith)

active-expired :
    (now : ℕ) (rows : List AiUsageReservationRow)
    → active_reserved_cost now (map (expired_row now) rows) ≡ active_reserved_cost now rows
unfolding active_reserved_cost expired_row
active-expired now rows =
    sum_where-map (counts_reserved now) (λ r. r.reserved_cost_usd) (expired_row now) rows
      (λ r. ground arith)

map-expired_idem :
    (now : ℕ) (rows : List AiUsageReservationRow)
    → All (λ r. is_stale now r ≡ false) rows
    → (map (expired_row now) rows ≡ rows) × (count_where (is_stale now) rows ≡ 0)
unfolding expired_row
map-expired_idem now [] h = (refl, refl)
map-expired_idem now (r ∷ rows) h =
    let (e, c) = map-expired_idem now rows h.1 in (rw (h.0, e), rw (h.0, c))

-- Expiring the stale reservations leaves none that is past its time, does not change the consumption of the
-- day, and a second time changes nothing and counts none.
pub expire_stale_reservations-done :
    (now : ℕ) (l : Ledger)
    → let l' = (expire_stale_reservations now l).0 in
      All (λ r. is_stale now r ≡ false) l'.reservations
      × (current_consumed now l' ≡ current_consumed now l)
      × (expire_stale_reservations now l' ≡ (l', 0))
unfolding expire_stale_reservations current_consumed
expire_stale_reservations-done now l =
    let fresh : All (λ r. is_stale now r ≡ false) (map (expired_row now) l.reservations) =
      All-expired now l.reservations in
    let (e, c) = map-expired_idem now (map (expired_row now) l.reservations) fresh in
    (
      fresh,
      rw (committed_res-expired now l.reservations, active-expired now l.reservations),
      rw (e, c),
    )
