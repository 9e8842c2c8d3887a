-- ===== src/Blueprints/Plans.antt =====
-- A blueprint, its chapters and its issues (domain/book_models.py), with what the validation reads of them,
-- and its limits (book/blueprint_validation.py).
use mura_project.Prelude.{ℕ, String, Bool, Option, List}

pub record ChapterPlan : Type 0 where
  pub chapter_number : ℕ
  pub title : String
  pub purpose : String
  pub synopsis : String
  pub target_word_count : ℕ
  pub time_range : Option String
  pub person_ids : List String
  pub claim_ids : List String
  pub source_recording_ids : List String
  pub source_story_ids : List String
  pub evidence_refs : List String
  pub material_anchor_refs : List String

pub record BookBlueprint : Type 0 where
  pub target_total_words : ℕ
  pub material_anchor : Option String
  pub chapters : List ChapterPlan

pub record BlueprintLimits : Type 0 where
  pub min_chapters : ℕ
  pub max_chapters : ℕ
  pub min_total_words : ℕ
  pub max_total_words : ℕ
  pub min_chapter_words : ℕ
  pub max_chapter_words : ℕ

-- `DEFAULT_BLUEPRINT_LIMITS`
abbrev pub default_limits : BlueprintLimits
default_limits = record {
  min_chapters = 10;
  max_chapters = 15;
  min_total_words = 20000;
  max_total_words = 30000;
  min_chapter_words = 700;
  max_chapter_words = 3500;
}

pub data BlueprintIssueCode : Type 0 where
  chapter_count_out_of_range word_budget_out_of_range chapter_total_mismatch : BlueprintIssueCode
  unknown_person unknown_place unknown_recording unknown_story unknown_claim : BlueprintIssueCode
  unknown_evidence unsupported_year chapter_without_grounding event_over_repeated :
      BlueprintIssueCode
  language_mismatch unsupported_material_anchor duplicate_chapter_number : BlueprintIssueCode
  chapter_number_gap : BlueprintIssueCode

pub data IssueSeverity : Type 0 where
  blocker warning : IssueSeverity

pub record BlueprintIssue : Type 0 where
  pub code : BlueprintIssueCode
  pub severity : IssueSeverity
  pub chapter_number : Option ℕ

pub record BlueprintValidationReport : Type 0 where
  pub valid : Bool
  pub issues : List BlueprintIssue
  pub repaired : Bool
