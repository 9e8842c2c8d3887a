-- ===== src/Budget/Examples.antt =====
-- The theorems about the budget at a small ledger, and tests by evaluation.
use mura_project.Prelude.{◌≡◌, refl, none, some, [], ◌∷◌, ok}
use mura_project.Prelude.Table.{find, find_where}
use mura_project.Prelude.Table
use mura_project.Budget.Reservations
use mura_project.Budget.Reservations.{
  reserved, committed, AiUsageReservationRow, Ledger, Request, existing_for, new_reservation,
  reserve_budget, current_consumed, check_budget_available, committed_res, unreserved_events_cost,
  active_reserved_cost, counts_reserved, committed_row, commit_reservation, release_reservation,
  is_stale, expire_stale_reservations,
}
use mura_project.Budget.Admission.{Admitted, reserve_budget-Admitted}

abbrev held : AiUsageReservationRow
held = record {
  reservation_id = "r1";
  status = reserved;
  operation = "chapter";
  provider = "deepseek";
  model = "deepseek-chat";
  family_id = none;
  user_id = none;
  recording_id = none;
  job_id = none;
  book_id = some "b1";
  reserved_cost_usd = 100;
  actual_cost_usd = none;
  reserved_audio_seconds = none;
  actual_audio_seconds = none;
  expires_at = 50;
  created_at = 1;
  idempotency_key = some "k1";
}

abbrev ledger : Ledger
ledger = record { reservations = held ∷ []; events = [] }

abbrev request : Request
request = record {
  reservation_id = "r2";
  operation = "asr";
  provider = "whisper";
  model = "whisper-1";
  family_id = none;
  user_id = none;
  recording_id = none;
  job_id = none;
  book_id = none;
  estimated_cost_usd = 30;
  reserved_audio_seconds = some 300;
  ttl = 20;
  idempotency_key = some "k2";
}

abbrev after : Ledger
after = record ledger { reservations = new_reservation request 10 ∷ held ∷ [] }

grants : reserve_budget 150 request 10 ledger ≡ ok (after, new_reservation request 10)
unfolding reserve_budget existing_for find_where current_consumed committed_res
    unreserved_events_cost active_reserved_cost
grants = refl

reserve_budget-Admitted_example : Admitted 150 request 10 ledger after (new_reservation request 10)
unfolding existing_for find_where
reserve_budget-Admitted_example =
    reserve_budget-Admitted 150 request 10 ledger after (new_reservation request 10) refl grants

-- A reservation that was released comes back into the consumption when it is committed.
released_then_committed :
    current_consumed 10 (commit_reservation "r1" none none (release_reservation "r1" ledger)) ≡ 100
unfolding commit_reservation release_reservation committed_row Reservations.released_row find
    Table.modify current_consumed committed_res unreserved_events_cost active_reserved_cost
released_then_committed = refl
