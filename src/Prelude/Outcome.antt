-- ===== src/Prelude/Outcome.antt =====
-- The errors that the storage layer raises, and a result. A transaction that raises is rolled
-- back, so an operation returns its new state only with `ok`.
use mathlib.Core.Path.{◌≡◌, ap}
use mathlib.Core.Bool.{Bool, true, false}
use mathlib.Core.Option.{Option, none, some}

pub data Error : Type 0 where
  -- `LookupError`, `JobFinalizationError`, `LeaseOwnershipLost`, `ValueError`
  lookup_error job_finalization_error lease_ownership_lost value_error : Error
  -- a primary key or a unique column that is taken (sqlalchemy's `IntegrityError`)
  integrity_error : Error
  -- `AICostBudgetExceededError`
  ai_cost_budget_exceeded : Error
  -- storage/identity.py: `SoleOwnerError`, `MembershipNotFoundError`, `AccountDeletionBlockedError`,
  -- `InvitationNotFoundError`, `InvitationExpiredError`, `InvitationRevokedError`,
  -- `InvitationAlreadyAcceptedError`, `InvalidInvitationRoleError`
  sole_owner membership_not_found account_deletion_blocked invitation_not_found : Error
  invitation_expired invitation_revoked invitation_already_accepted : Error
  invalid_invitation_role runtime_error : Error

pub data Result {ℓ} (A : Type ℓ) : Type ℓ where
  ok : A → Result A
  err : Error → Result A

infixl 5 ◌>>=◌ ◌>>◌
abbrev pub ◌>>=◌ {ℓ κ} : {A : Type ℓ} {B : Type κ} → Result A → (A → Result B) → Result B
ok a >>= f = f a
err e >>= f = err e

abbrev pub ◌>>◌ {ℓ κ} : {A : Type ℓ} {B : Type κ} → Result A → Result B → Result B
m >> k = m >>= λ _. k

-- `if not test: raise e`
abbrev pub guard : Bool → Error → Result (Unit {0})
guard true e = ok tt
guard false e = err e

abbrev pub or_raise {ℓ} : {A : Type ℓ} → Option A → Error → Result A
or_raise none e = err e
or_raise (some a) e = ok a

-- `with session_factory.begin()`: the state after the transaction, committed or rolled back.
abbrev pub settled {ℓ} : {S : Type ℓ} → S → Result S → S
settled s (ok t) = t
settled s (err e) = s

abbrev value_or {ℓ} : {A : Type ℓ} → A → Result A → A
value_or d (ok a) = a
value_or d (err e) = d

pub ok_inj {ℓ} : {A : Type ℓ} (a : A) {b : A} → ok a ≡ ok b → a ≡ b
ok_inj a h = ap (value_or a) h
