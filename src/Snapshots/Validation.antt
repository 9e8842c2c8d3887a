-- ===== src/Snapshots/Validation.antt =====
-- `validate_snapshot_closure` of book/snapshot_validation.py. Every refusal is a `SnapshotClosureError`, which is
-- a `ValueError`. The dictionaries by id are searches in the lists, since duplicate ids are refused first.
use Prim.Native.String.{◌++◌ as append}
use mura_project.Prelude.{
  String, Bool, true, false, ◌&&◌, ◌||◌, not, Option, none, some, List, [], ◌∷◌, ◌++◌, map, flatten,
  if◌then◌else◌, ◌==◌, is_none, str_eq, any, length, is_empty, Result, ok, value_error, ◌>>=◌, ◌>>◌,
  guard, or_raise,
}
use mura_project.Prelude.Table.{find}
use mura_project.Snapshots.Relationships.{Unicode, relationship_semantics_match}
use mura_project.Snapshots.Truth.{book_truth_fields_eligible, is_allowed_status}
use mura_project.Snapshots.Rows.{
  SnapshotPerson, SnapshotRelationship, SnapshotEvent, SnapshotStory, SnapshotClaim,
  SnapshotCorrection, SnapshotUncertainty, SnapshotConflict, SnapshotEvidence, BookSourceSnapshot,
  evidence_key, claim_key, person_key,
}
use mura_project.Snapshots.Ids.{exact_ids, is_same_ids, is_within, is_unique}

abbrev pub Check : Type 0
Check = Result (Unit {0})

-- `for x in xs: ...`
unfoldable pub for_each : {A : Type 0} → (A → Check) → List A → Check
for_each f [] = ok tt
for_each f (x ∷ xs) = f x >> for_each f xs

abbrev pub selected : BookSourceSnapshot → List String
selected s = s.manifest.source_recording_ids

-- `_exact_ids(xs) != _exact_ids(ys)` is refused.
abbrev pub require_same : List String → List String → Check
require_same xs ys = guard (is_same_ids (exact_ids xs) (exact_ids ys)) value_error

abbrev pub require_unique : List String → Check
require_unique ids = guard (is_unique ids) value_error

-- `_require_recording_subset`, and the same test on other ids
abbrev pub require_within : List String → List String → Check
require_within xs ys = guard (is_within xs ys) value_error

abbrev pub require_in : String → List String → Check
require_in k ys = guard (any (str_eq k) ys) value_error

-- An optional id that is one of the list
abbrev pub is_some_in : Option String → List String → Bool
is_some_in none ys = false
is_some_in (some k) ys = any (str_eq k) ys

unfoldable pub check_version : BookSourceSnapshot → Option (List String) → Check
check_version s none = guard (str_eq s.schema_version "book-source-snapshot-v3") value_error
check_version s (some expected) = do
  guard (str_eq s.schema_version "book-source-snapshot-v3") value_error
  require_same (selected s) expected

-- No id comes twice in its table.
unfoldable pub check_unique : BookSourceSnapshot → Check
check_unique s = do
  require_unique (map evidence_key s.evidence)
  require_unique (map claim_key s.claims)
  require_unique (map person_key s.people)
  require_unique (map (λ x. x.story_id) s.stories)
  require_unique (map (λ x. x.event_id) s.events)
  require_unique (map (λ x. x.edge_id) s.relationships)
  require_unique (map (λ x. x.correction_id) s.corrections)
  require_unique (map (λ x. x.conflict_id) s.conflicts)

-- The manifest names what the snapshot holds.
unfoldable pub check_manifest : BookSourceSnapshot → Check
check_manifest s = do
  require_same (map evidence_key s.evidence) s.manifest.source_evidence_ids
  require_same (map claim_key s.claims) s.manifest.source_claim_ids
  require_same (map person_key s.people) s.manifest.source_person_ids
  require_same (map (λ x. x.story_id) s.stories) s.manifest.source_story_ids
  require_same (map (λ x. x.event_id) s.events) s.manifest.source_event_ids
  guard (s.manifest.correction_count == length s.corrections) value_error
  guard (s.manifest.uncertainty_count == length s.uncertainties) value_error
  guard (s.manifest.conflict_count == length s.conflicts) value_error

unfoldable pub check_evidence : BookSourceSnapshot → SnapshotEvidence → Check
check_evidence s e = do
  require_in e.recording_id (selected s)
  require_within e.person_ids (map person_key s.people)

abbrev pub conflict_claim_ids : BookSourceSnapshot → List String
conflict_claim_ids s = flatten (map (λ (c : SnapshotConflict). c.claim_ids) s.conflicts)

module _ (os : Unicode) where
  unfoldable pub is_eligible : BookSourceSnapshot → SnapshotClaim → Bool
  is_eligible s c =
      book_truth_fields_eligible os c.recording_id (selected s) c.archive_status c.evidence_ids
        c.evidence_class c.verification_status c.assertion_mode
        (str_eq c.archive_status "disputed" && any (str_eq c.claim_id) (conflict_claim_ids s))

  unfoldable pub check_claim : BookSourceSnapshot → SnapshotClaim → Check
  check_claim s c = do
    guard (is_eligible s c) value_error
    require_in c.recording_id (selected s)
    guard (is_allowed_status true c.archive_status) value_error
    require_within c.evidence_ids (map evidence_key s.evidence)

  unfoldable pub check_support : BookSourceSnapshot → SnapshotRelationship → String → Check
  check_support s r claim_id = do
    c ← or_raise (find claim_key claim_id s.claims) value_error
    guard (str_eq c.object_type "relationship") value_error
    guard (relationship_semantics_match os c.shape r.shape) value_error
    require_in c.recording_id (selected s)

  unfoldable pub check_relationship : BookSourceSnapshot → SnapshotRelationship → Check
  check_relationship s r = do
    guard (is_some_in r.shape.subject_person_id (map person_key s.people)) value_error
    guard (is_some_in r.shape.object_person_id (map person_key s.people)) value_error
    guard (not (is_empty r.source_claim_ids)) value_error
    for_each (check_support s r) r.source_claim_ids

-- `if category and category != "unknown"`, and `if relation_to_speaker`
abbrev pub if_said : String → String → List String
if_said value key = if str_eq value "" || str_eq value "unknown" then [] else key ∷ []

abbrev pub if_some_text : Option String → String → List String
if_some_text none key = []
if_some_text (some value) key = if str_eq value "" then [] else key ∷ []

abbrev pub if_some : {A : Type 0} → Option A → String → List String
if_some none key = []
if_some (some a) key = key ∷ []

unfoldable pub required_keys : SnapshotPerson → List String
required_keys p =
    "display_name" ∷ if_said p.category "category"
    ++ if_some_text p.relation_to_speaker "relation_to_speaker"
    ++ if_some p.birth_date "birth_date"
    ++ if_some p.death_date "death_date"
    ++ map (append "description:") p.descriptions
    ++ map (append "profession:") p.professions
    ++ map (append "location:") p.locations
    ++ map (append "alias:") p.aliases

-- `attrs.get(key, [])`
unfoldable pub sources_of : String → List (String × List String) → List String
sources_of key [] = []
sources_of key ((k, sources) ∷ attrs) = if str_eq k key then sources else sources_of key attrs

unfoldable pub check_attribute : BookSourceSnapshot → SnapshotPerson → String → Check
check_attribute s p key = do
  let sources = sources_of key p.attribute_sources
  guard (not (is_empty sources)) value_error
  require_within sources (selected s)

unfoldable pub check_person : BookSourceSnapshot → SnapshotPerson → Check
check_person s p = do
  require_within p.source_recording_ids (selected s)
  guard (not (is_empty p.source_recording_ids)) value_error
  for_each (check_attribute s p) (required_keys p)

unfoldable pub check_story : BookSourceSnapshot → SnapshotStory → Check
check_story s x = do
  require_in x.recording_id (selected s)
  require_within x.evidence_quote_ids (map evidence_key s.evidence)
  require_within x.person_ids (map person_key s.people)

unfoldable pub check_event : BookSourceSnapshot → SnapshotEvent → Check
check_event s x = do
  guard (is_some_in x.recording_id (selected s)) value_error
  require_within x.evidence_quote_ids (map evidence_key s.evidence)
  require_within x.participant_person_ids (map person_key s.people)

unfoldable pub check_correction : BookSourceSnapshot → SnapshotCorrection → Check
check_correction s x = require_in x.recording_id (selected s)

unfoldable pub check_uncertainty : BookSourceSnapshot → SnapshotUncertainty → Check
check_uncertainty s x = do
  guard (is_none x.recording_id || is_some_in x.recording_id (selected s)) value_error
  require_within x.person_ids (map person_key s.people)

-- `claim_by_id[claim_id].recording_id` of each id; the ids that are missing have been refused.
unfoldable pub recordings_of : List SnapshotClaim → List String → List String
recordings_of claims [] = []
recordings_of claims (k ∷ claim_ids) =
    let rest = recordings_of claims claim_ids in
    elim (find claim_key k claims) [ none ↦ rest | some c ↦ c.recording_id ∷ rest ]

unfoldable pub check_conflict : BookSourceSnapshot → SnapshotConflict → Check
check_conflict s x = do
  guard (not (is_empty x.claim_ids)) value_error
  require_within x.claim_ids (map claim_key s.claims)
  guard (is_none x.preferred_claim_id || is_some_in x.preferred_claim_id x.claim_ids) value_error
  require_within x.recording_ids (selected s)
  let referenced = recordings_of s.claims x.claim_ids
  guard (is_within x.recording_ids referenced && is_within referenced x.recording_ids) value_error

unfoldable pub validate_snapshot_closure :
    Unicode → BookSourceSnapshot → Option (List String) → Check
validate_snapshot_closure os s expected = do
  check_version s expected
  check_unique s
  check_manifest s
  for_each (check_evidence s) s.evidence
  for_each (check_claim os s) s.claims
  for_each (check_person s) s.people
  for_each (check_relationship os s) s.relationships
  for_each (check_story s) s.stories
  for_each (check_event s) s.events
  for_each (check_correction s) s.corrections
  for_each (check_uncertainty s) s.uncertainties
  for_each (check_conflict s) s.conflicts
