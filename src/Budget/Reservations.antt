-- ===== src/Budget/Reservations.antt =====
-- mura/cost_guards.py over the tables of storage/ai_usage.py. Costs are whole micro-dollars (the columns are
-- Numeric(12, 6)), audio milliseconds (Numeric(10, 3)), instants and spans microseconds.
use mura_project.Prelude.{
  ℕ, ◌+◌, ◌-◌, max, String, Bool, true, false, ◌&&◌, ◌||◌, Option, none, some, List, ◌∷◌, leb, ltb,
  is_some, or_else, holds_text, str_eq, if◌then◌else◌, sum_where, count_where, any, Result, ok, err,
  integrity_error, ai_cost_budget_exceeded, map,
}
use mura_project.Prelude.Table.{modify, find_where}

pub data ReservationStatus : Type 0 where
  reserved committed released expired : ReservationStatus

abbrev pub is_reserved : ReservationStatus → Bool
is_reserved reserved = true
is_reserved _ = false

abbrev pub is_committed : ReservationStatus → Bool
is_committed committed = true
is_committed _ = false

pub record AiUsageReservationRow : Type 0 where
  pub reservation_id : String
  pub status : ReservationStatus
  pub operation : String
  pub provider : String
  pub model : String
  pub family_id : Option String
  pub user_id : Option String
  pub recording_id : Option String
  pub job_id : Option String
  pub book_id : Option String
  pub reserved_cost_usd : ℕ
  pub actual_cost_usd : Option ℕ
  pub reserved_audio_seconds : Option ℕ
  pub actual_audio_seconds : Option ℕ
  pub expires_at : ℕ
  pub created_at : ℕ
  pub idempotency_key : Option String

-- The columns of `AIUsageEventRow` that the budget reads.
pub record AiUsageEventRow : Type 0 where
  pub event_id : String
  pub created_at : ℕ
  pub estimated_cost_usd : Option ℕ

pub record Ledger : Type 0 where
  pub reservations : List AiUsageReservationRow
  pub events : List AiUsageEventRow

abbrev pub reservation_key : AiUsageReservationRow → String
reservation_key r = r.reservation_id

-- `timedelta(hours=24)`
abbrev pub day : ℕ
day = 86400000000

-- `created_at >= now - timedelta(hours=24)`. Where the day reaches before instant 0, every row is recent.
abbrev pub is_recent : ℕ → ℕ → Bool
is_recent now created_at = leb (now - day) created_at

abbrev pub settled_cost : AiUsageReservationRow → ℕ
settled_cost r = or_else r.actual_cost_usd r.reserved_cost_usd

abbrev pub counts_committed : ℕ → AiUsageReservationRow → Bool
counts_committed now r = is_committed r.status && is_recent now r.created_at

abbrev pub counts_reserved : ℕ → AiUsageReservationRow → Bool
counts_reserved now r = is_reserved r.status && ltb now r.expires_at

unfoldable pub committed_res : ℕ → List AiUsageReservationRow → ℕ
committed_res now = sum_where (counts_committed now) settled_cost

-- `sum` passes over the events without a cost.
unfoldable pub unreserved_events_cost : ℕ → List AiUsageEventRow → ℕ
unreserved_events_cost now =
    sum_where (λ e. is_recent now e.created_at) (λ e. or_else e.estimated_cost_usd 0)

unfoldable pub active_reserved_cost : ℕ → List AiUsageReservationRow → ℕ
active_reserved_cost now = sum_where (counts_reserved now) (λ r. r.reserved_cost_usd)

unfoldable pub current_consumed : ℕ → Ledger → ℕ
unfolding committed_res unreserved_events_cost active_reserved_cost
current_consumed now l =
    max (committed_res now l.reservations) (unreserved_events_cost now l.events)
    + active_reserved_cost now l.reservations

unfoldable pub check_budget_available : ℕ → ℕ → ℕ → Ledger → Bool
unfolding current_consumed
check_budget_available global_daily_budget_usd additional now l =
    leb (current_consumed now l + additional) global_daily_budget_usd

-- The arguments of `reserve_budget`, with the ttl that is in force and the id, given or random.
pub record Request : Type 0 where
  pub reservation_id : String
  pub operation : String
  pub provider : String
  pub model : String
  pub family_id : Option String
  pub user_id : Option String
  pub recording_id : Option String
  pub job_id : Option String
  pub book_id : Option String
  pub estimated_cost_usd : ℕ
  pub reserved_audio_seconds : Option ℕ
  pub ttl : ℕ
  pub idempotency_key : Option String

unfoldable pub new_reservation : Request → ℕ → AiUsageReservationRow
new_reservation q now = record {
  reservation_id = q.reservation_id;
  status = reserved;
  operation = q.operation;
  provider = q.provider;
  model = q.model;
  family_id = q.family_id;
  user_id = q.user_id;
  recording_id = q.recording_id;
  job_id = q.job_id;
  book_id = q.book_id;
  reserved_cost_usd = q.estimated_cost_usd;
  actual_cost_usd = none;
  reserved_audio_seconds = q.reserved_audio_seconds;
  actual_audio_seconds = none;
  expires_at = now + q.ttl;
  created_at = now;
  idempotency_key = q.idempotency_key;
}

abbrev pub has_key : Option String → AiUsageReservationRow → Bool
has_key none r = false
has_key (some k) r = holds_text r.idempotency_key k

-- The primary key and the unique key of the table.
abbrev pub collides : Request → AiUsageReservationRow → Bool
collides q r = str_eq r.reservation_id q.reservation_id || has_key q.idempotency_key r

abbrev pub insert : Request → ℕ → Ledger → Result (Ledger × AiUsageReservationRow)
insert q now l =
    if any (collides q) l.reservations
    then err integrity_error
    else ok
        (record l { reservations = new_reservation q now ∷ l.reservations }, new_reservation q now)

abbrev pub reserve_new : ℕ → Request → ℕ → Ledger → Result (Ledger × AiUsageReservationRow)
reserve_new budget q now l =
    if ltb budget (current_consumed now l + q.estimated_cost_usd)
    then err ai_cost_budget_exceeded
    else insert q now l

abbrev pub is_live : ReservationStatus → Bool
is_live s = is_reserved s || is_committed s

abbrev pub reserve_found :
    ℕ
    → Request
    → ℕ
    → Ledger
    → Option AiUsageReservationRow
    → Result (Ledger × AiUsageReservationRow)
reserve_found budget q now l none = reserve_new budget q now l
reserve_found budget q now l (some existing) =
    if is_live existing.status then ok (l, existing) else reserve_new budget q now l

-- The lookup by the key of the request; no row has a key that is not given.
unfoldable pub existing_for : Request → Ledger → Option AiUsageReservationRow
existing_for q l = find_where (has_key q.idempotency_key) l.reservations

unfoldable pub reserve_budget : ℕ → Request → ℕ → Ledger → Result (Ledger × AiUsageReservationRow)
unfolding current_consumed new_reservation existing_for
reserve_budget budget q now l = reserve_found budget q now l (existing_for q l)

-- The first that is there.
abbrev pub first_of : Option ℕ → Option ℕ → Option ℕ → Option ℕ
first_of given old default = if is_some given then given else if is_some old then old else default

unfoldable pub committed_row : Option ℕ → Option ℕ → AiUsageReservationRow → AiUsageReservationRow
committed_row actual_cost actual_audio r = record r {
  status = committed;
  actual_cost_usd = first_of actual_cost r.actual_cost_usd (some r.reserved_cost_usd);
  actual_audio_seconds = first_of actual_audio r.actual_audio_seconds r.reserved_audio_seconds;
}

abbrev pub write : String → (AiUsageReservationRow → AiUsageReservationRow) → Ledger → Ledger
write id f l = record l { reservations = modify reservation_key id f l.reservations }

-- A missing reservation is no error.
unfoldable pub commit_reservation : String → Option ℕ → Option ℕ → Ledger → Ledger
unfolding committed_row
commit_reservation id actual_cost actual_audio l =
    write id (committed_row actual_cost actual_audio) l

unfoldable pub released_row : AiUsageReservationRow → AiUsageReservationRow
released_row r = record r { status = if is_reserved r.status then released else r.status }

unfoldable pub release_reservation : String → Ledger → Ledger
unfolding released_row
release_reservation id l = write id released_row l

abbrev pub is_stale : ℕ → AiUsageReservationRow → Bool
is_stale now r = is_reserved r.status && leb r.expires_at now

unfoldable pub expired_row : ℕ → AiUsageReservationRow → AiUsageReservationRow
expired_row now r = if is_stale now r then record r { status = expired } else r

unfoldable pub expire_stale_reservations : ℕ → Ledger → Ledger × ℕ
unfolding expired_row
expire_stale_reservations now l = (
  record l { reservations = map (expired_row now) l.reservations },
  count_where (is_stale now) l.reservations,
)
