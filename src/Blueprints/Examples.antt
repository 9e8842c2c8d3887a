-- ===== src/Blueprints/Examples.antt =====
-- The theorems about blueprints at small plans, and tests by evaluation.
use mura_project.Prelude.{
  ℕ, ◌-◌, ◌≡◌, refl, true, false, ◌&&◌, ◌||◌, none, some, [], ◌∷◌, leb, All, map, flatten, ok,
  arith,
}
use mura_project.Blueprints.Plans.{ChapterPlan, BookBlueprint, BlueprintLimits, default_limits}
use mura_project.Blueprints.Years.{Characters, extract_years}
use mura_project.Blueprints.Validation.{
  validate_blueprint, blueprint_issues, numbering_issues, has_duplicates, sorted_numbers,
  is_same_numbers, range_from, budget_issues, sum_words, chapter_issues, reference_issues,
  year_issues, chapter_years, distinct_numbers,
}
use mura_project.Blueprints.Repair.{repair_blueprint_arithmetic, repaired_chapters}
use mura_project.Blueprints.Repaired.{has_arithmetic}
use mura_project.Blueprints.Soundness.{repair_blueprint_arithmetic_sound}
use mura_project.Blueprints.Grounding.{IsGroundedChapter, validate_blueprint-IsGroundedChapter}
use mura_project.Snapshots.Examples.{plain, snapshot, accepted}

-- Letters and digits of ASCII; texts in lower case.
abbrev ascii : Characters
ascii = record {
  is_word = λ c. (leb b'a' c && leb c b'z') || (leb b'0' c && leb c b'9');
  is_digit = λ c. leb b'0' c && leb c b'9';
  digit_value = λ c. c - b'0';
  strip = λ s. s;
  lower = λ s. s;
}

years : extract_years ascii (some "born 1978, not 19781 nor x1979; moved 2003") ≡ 1978 ∷ 2003 ∷ []
unfolding extract_years
years = refl

abbrev chapter : ℕ → ℕ → ChapterPlan
chapter number words = record {
  chapter_number = number;
  title = "father";
  purpose = "";
  synopsis = "";
  target_word_count = words;
  time_range = none;
  person_ids = "p1" ∷ [];
  claim_ids = "c1" ∷ [];
  source_recording_ids = "r1" ∷ [];
  source_story_ids = [];
  evidence_refs = "e1" ∷ [];
  material_anchor_refs = [];
}

-- Eleven chapters with the same number, all too short.
abbrev careless : BookBlueprint
careless = record {
  target_total_words = 60000;
  material_anchor = none;
  chapters =
      chapter 3 100
      ∷ chapter 3 100
      ∷ chapter 3 100
      ∷ chapter 3 100
      ∷ chapter 3 100
      ∷ chapter 3 100
      ∷ chapter 3 100
      ∷ chapter 3 100
      ∷ chapter 3 100
      ∷ chapter 3 100
      ∷ chapter 3 100
      ∷ [];
}

shared :
    map
      (λ ch. ch.target_word_count)
      (repaired_chapters default_limits 20000 none
        (chapter 3 100 ∷ chapter 3 100 ∷ chapter 3 100 ∷ []))
    ≡ 3500 ∷ 3500 ∷ 3500 ∷ []
unfolding repaired_chapters
shared = refl

repair_blueprint_arithmetic_sound_example :
    (b' : BookBlueprint) × (repair_blueprint_arithmetic ascii careless default_limits none ≡ ok b')
    × (has_arithmetic (validate_blueprint ascii b' snapshot default_limits).issues ≡ false)
repair_blueprint_arithmetic_sound_example =
    repair_blueprint_arithmetic_sound ascii default_limits careless none snapshot (record {
      nonempty = omega arith;
      few = omega arith;
      counted = (omega arith, omega arith);
      totals = omega arith;
      enough = omega arith;
      room = omega arith;
      sizes = omega arith;
      total_bounds = (omega arith, omega arith);
      chapter_bounds = (omega arith, omega arith);
    })

abbrev short_limits : BlueprintLimits
short_limits = record default_limits { min_chapters = 1; min_total_words = 1000 }

abbrev short : BookBlueprint
short = record { target_total_words = 2000; material_anchor = none; chapters = chapter 1 2000 ∷ [] }

valid : (validate_blueprint ascii short snapshot short_limits).valid ≡ true
unfolding validate_blueprint blueprint_issues numbering_issues has_duplicates is_same_numbers
    sorted_numbers range_from budget_issues sum_words flatten chapter_issues reference_issues
    year_issues chapter_years distinct_numbers extract_years
valid = refl

validate_blueprint-IsGroundedChapter_example : All (IsGroundedChapter ascii snapshot) short.chapters
validate_blueprint-IsGroundedChapter_example =
    validate_blueprint-IsGroundedChapter ascii snapshot plain (some ("r1" ∷ [])) short short_limits
      accepted valid
