-- ===== src/Recordings/Trace.antt =====
-- The trace of an attempt: storing events keeps what is stored, and storing them again changes nothing.
use mathlib.Core.Bool.{false≢true}
use mura_project.Prelude.{
  inl, inr, ◌≡◌, refl, sym, ◌∙◌, String, true, false, Option, none, some, List, [], ◌∷◌, str_eq,
  eq_iff, eq_refl, if◌then◌else◌, Bool-cases, is_some, All,
}
use mura_project.Prelude.Table.{find}
use mura_project.Recordings.Rows.{ProcessingTraceEventRow, event_key}
use mura_project.Recordings.Completion.{persist_trace_events}

found_below :
    (k : String) (e : ProcessingTraceEventRow) (stored : List ProcessingTraceEventRow)
    {x : ProcessingTraceEventRow}
    → find event_key k stored ≡ some x
    → is_some (find event_key e.event_id stored) ≡ false
    → find event_key k (e ∷ stored) ≡ some x
unfolding find
found_below k e stored h new = elim (Bool-cases (str_eq e.event_id k)) [
  | inl same ↦
      let equal : e.event_id ≡ k = (eq_iff e.event_id k).0 same in
      absurd (false≢true (sym new ∙ rw (equal, h)))
  | inr other ↦ rw other h
]

-- An event that is stored stays as it is, whatever is stored after it.
pub find-persist :
    (k : String) (events stored : List ProcessingTraceEventRow) {x : ProcessingTraceEventRow}
    → find event_key k stored ≡ some x
    → find event_key k (persist_trace_events events stored) ≡ some x
unfolding persist_trace_events find
find-persist k [] stored h = h
find-persist k (e ∷ es) stored {x} h =
    elim (Bool-cases (is_some (find event_key e.event_id stored))) [
      | inl old ↦ rw old (find-persist k es stored h)
      | inr new ↦ rw new (find-persist k es (e ∷ stored) {x = x} (found_below k e stored h new))
    ]

abbrev IsStored : List ProcessingTraceEventRow → ProcessingTraceEventRow → Type 0
IsStored stored e = is_some (find event_key e.event_id stored) ≡ true

persist_of_stored :
    (events stored : List ProcessingTraceEventRow)
    → All (IsStored stored) events
    → persist_trace_events events stored ≡ stored
unfolding persist_trace_events
persist_of_stored [] stored h = refl
persist_of_stored (e ∷ es) stored h = rw h.0 (persist_of_stored es stored h.1)

found_of_is_some :
    (o : Option ProcessingTraceEventRow)
    → is_some o ≡ true
    → (x : ProcessingTraceEventRow) × (o ≡ some x)
found_of_is_some none h = absurd (false≢true h)
found_of_is_some (some x) h = (x, refl)

IsStored-persist :
    (e : ProcessingTraceEventRow) (events stored : List ProcessingTraceEventRow)
    → IsStored stored e
    → IsStored (persist_trace_events events stored) e
IsStored-persist e events stored h =
    let (x, at) = found_of_is_some (find event_key e.event_id stored) h in
    rw (find-persist e.event_id events stored at)

IsStored-self :
    (e : ProcessingTraceEventRow) (stored : List ProcessingTraceEventRow) → IsStored (e ∷ stored) e
unfolding find
IsStored-self e stored = rw (eq_refl e.event_id)

-- The table after one event.
abbrev with_event :
    ProcessingTraceEventRow → List ProcessingTraceEventRow → List ProcessingTraceEventRow
with_event e stored = if is_some (find event_key e.event_id stored) then stored else e ∷ stored

IsStored-with_event :
    (e : ProcessingTraceEventRow) (stored : List ProcessingTraceEventRow)
    → IsStored (with_event e stored) e
IsStored-with_event e stored = elim (Bool-cases (is_some (find event_key e.event_id stored))) [
  | inl old ↦ rw old old
  | inr new ↦ rw new (IsStored-self e stored)
]

-- Every event that was handed over is stored afterwards.
pub persist-stores :
    (events stored : List ProcessingTraceEventRow)
    → All
        (λ e. is_some (find event_key e.event_id (persist_trace_events events stored)) ≡ true)
        events
unfolding persist_trace_events
persist-stores [] stored = tt
persist-stores (e ∷ es) stored = (
  IsStored-persist e es (with_event e stored) (IsStored-with_event e stored),
  persist-stores es (with_event e stored),
)

-- Storing the events of an attempt a second time changes nothing, whatever was stored before and whether
-- or not an event occurs twice among them.
pub persist_idem :
    (events stored : List ProcessingTraceEventRow)
    → persist_trace_events events (persist_trace_events events stored)
      ≡ persist_trace_events events stored
persist_idem events stored = persist_of_stored events _ (persist-stores events stored)
