-- ===== src/Blueprints/Validation.antt =====
-- `validate_blueprint` of book/blueprint_validation.py. The texts of an issue are left out.
use mura_project.Prelude.{
  ℕ, ◌+◌, suc, zero, String, Bool, true, false, ◌&&◌, ◌||◌, not, Option, none, some, List, [], ◌∷◌,
  ◌++◌, map, flatten, if◌then◌else◌, ltb, leb, ◌==◌, any, length, is_empty, str_eq,
}
use mura_project.Blueprints.Plans.{
  ChapterPlan, BookBlueprint, BlueprintLimits, BlueprintIssueCode, chapter_count_out_of_range,
  word_budget_out_of_range, chapter_total_mismatch, unknown_person, unknown_recording,
  unknown_story, unknown_claim, unknown_evidence, unsupported_year, chapter_without_grounding,
  unsupported_material_anchor, duplicate_chapter_number, chapter_number_gap, blocker, IssueSeverity,
  BlueprintIssue, BlueprintValidationReport,
}
use mura_project.Blueprints.Years.{Characters, extract_years, is_anchor_grounded}
use mura_project.Snapshots.Rows.{BookSourceSnapshot, person_key}

-- `if test: issues.append(...)`; every issue is a blocker.
abbrev pub issue_if : Bool → BlueprintIssueCode → Option ℕ → List BlueprintIssue
issue_if test code number =
    if test then record { code = code; severity = blocker; chapter_number = number } ∷ [] else []

abbrev pub is_outside : ℕ → ℕ → ℕ → Bool
is_outside low high n = ltb n low || ltb high n

-- Whether some number comes twice
unfoldable pub has_duplicates : List ℕ → Bool
has_duplicates [] = false
has_duplicates (n ∷ numbers) = any (λ m. n == m) numbers || has_duplicates numbers

unfoldable pub insert_number : ℕ → List ℕ → List ℕ
insert_number n [] = n ∷ []
insert_number n (m ∷ numbers) =
    let rest = insert_number n numbers in if leb n m then n ∷ m ∷ numbers else m ∷ rest

unfoldable pub sorted_numbers : List ℕ → List ℕ
unfolding insert_number
sorted_numbers [] = []
sorted_numbers (n ∷ numbers) = insert_number n (sorted_numbers numbers)

unfoldable pub is_same_numbers : List ℕ → List ℕ → Bool
is_same_numbers [] [] = true
is_same_numbers [] (n ∷ ns) = false
is_same_numbers (m ∷ ms) [] = false
is_same_numbers (m ∷ ms) (n ∷ ns) = (m == n) && is_same_numbers ms ns

-- `range(start, start + n)`
unfoldable pub range_from : ℕ → ℕ → List ℕ
range_from start zero = []
range_from start (suc n) = start ∷ range_from (suc start) n

unfoldable pub sum_words : List ChapterPlan → ℕ
sum_words [] = 0
sum_words (ch ∷ chapters) = ch.target_word_count + sum_words chapters

abbrev pub numbers_of : List ChapterPlan → List ℕ
numbers_of chapters = map (λ ch. ch.chapter_number) chapters

-- The sections on numbering and on word budgets of the whole book
unfoldable pub numbering_issues : BookBlueprint → List BlueprintIssue
numbering_issues blueprint =
    let numbers = numbers_of blueprint.chapters in
    let expected = range_from 1 (length blueprint.chapters) in
    issue_if (has_duplicates numbers) duplicate_chapter_number none
    ++ issue_if
        (not (is_same_numbers (sorted_numbers numbers) expected) && not (has_duplicates numbers))
        chapter_number_gap none

unfoldable pub budget_issues : BlueprintLimits → BookBlueprint → List BlueprintIssue
budget_issues lim blueprint =
    issue_if (is_outside lim.min_total_words lim.max_total_words blueprint.target_total_words)
      word_budget_out_of_range none
    ++ issue_if (not (sum_words blueprint.chapters == blueprint.target_total_words))
        chapter_total_mismatch none

-- Whether a text counts as true, being there and not empty
abbrev pub is_said : Option String → Bool
is_said none = false
is_said (some s) = not (str_eq s "")

abbrev pub has_grounding : ChapterPlan → Bool
has_grounding ch =
    not (is_empty ch.person_ids)
    || not (is_empty ch.source_recording_ids)
    || not (is_empty ch.source_story_ids)
    || not (is_empty ch.claim_ids)
    || not (is_empty ch.evidence_refs)

abbrev pub has_unknown : List String → List String → Bool
has_unknown ids known = any (λ k. not (any (str_eq k) known)) ids

-- `set(numbers)`; the order of a set is left open by Python.
unfoldable pub distinct_numbers : List ℕ → List ℕ
distinct_numbers [] = []
distinct_numbers (n ∷ numbers) =
    let rest = distinct_numbers numbers in if any (λ m. n == m) numbers then rest else n ∷ rest

abbrev pub chapter_budget_issues : BlueprintLimits → ChapterPlan → List BlueprintIssue
chapter_budget_issues lim ch =
    issue_if (is_outside lim.min_chapter_words lim.max_chapter_words ch.target_word_count)
      word_budget_out_of_range (some ch.chapter_number)

-- The references of a chapter to the snapshot
unfoldable pub reference_issues : BookSourceSnapshot → ChapterPlan → List BlueprintIssue
reference_issues snapshot ch =
    issue_if (not (has_grounding ch)) chapter_without_grounding (some ch.chapter_number)
    ++ issue_if (has_unknown ch.person_ids (map person_key snapshot.people)) unknown_person
        (some ch.chapter_number)
    ++ issue_if (has_unknown ch.source_recording_ids snapshot.manifest.source_recording_ids)
        unknown_recording (some ch.chapter_number)
    ++ issue_if (has_unknown ch.source_story_ids snapshot.manifest.source_story_ids) unknown_story
        (some ch.chapter_number)
    ++ issue_if (has_unknown ch.claim_ids snapshot.manifest.source_claim_ids) unknown_claim
        (some ch.chapter_number)
    ++ issue_if (has_unknown ch.evidence_refs snapshot.manifest.source_evidence_ids)
        unknown_evidence (some ch.chapter_number)

abbrev pub is_blocker : BlueprintIssue → Bool
is_blocker issue = elim issue.severity [
  | IssueSeverity.blocker ↦ true
  | IssueSeverity.warning ↦ false
]

abbrev pub chapter_anchor_issues : BookBlueprint → ChapterPlan → List BlueprintIssue
chapter_anchor_issues blueprint ch =
    issue_if (not (is_empty ch.material_anchor_refs) && not (is_said blueprint.material_anchor))
      unsupported_material_anchor (some ch.chapter_number)

abbrev pub year_issue : BookSourceSnapshot → ChapterPlan → ℕ → List BlueprintIssue
year_issue snapshot ch y =
    issue_if (not (any (λ m. y == m) snapshot.allowed_years)) unsupported_year
      (some ch.chapter_number)

module _ (os : Characters) where
  unfoldable pub chapter_years : ChapterPlan → List ℕ
  chapter_years ch = distinct_numbers (
      extract_years os (some ch.title)
      ++ extract_years os ch.time_range
      ++ extract_years os (some ch.purpose)
      ++ extract_years os (some ch.synopsis))

  unfoldable pub year_issues : BookSourceSnapshot → ChapterPlan → List BlueprintIssue
  year_issues snapshot ch = flatten (map (year_issue snapshot ch) (chapter_years ch))

  unfoldable pub chapter_issues :
      BlueprintLimits → BookSourceSnapshot → BookBlueprint → ChapterPlan → List BlueprintIssue
  chapter_issues lim snapshot blueprint ch =
      chapter_budget_issues lim ch
      ++ reference_issues snapshot ch
      ++ year_issues snapshot ch
      ++ chapter_anchor_issues blueprint ch

  abbrev pub anchor_issues : BookBlueprint → BookSourceSnapshot → List BlueprintIssue
  anchor_issues blueprint snapshot =
      issue_if
        (is_said blueprint.material_anchor
          && not (is_anchor_grounded os blueprint.material_anchor snapshot))
        unsupported_material_anchor none

  -- The sections on the book as a whole
  unfoldable pub book_issues :
      BookBlueprint → BookSourceSnapshot → BlueprintLimits → List BlueprintIssue
  book_issues blueprint snapshot lim =
      issue_if (is_outside lim.min_chapters lim.max_chapters (length blueprint.chapters))
        chapter_count_out_of_range none
      ++ numbering_issues blueprint
      ++ budget_issues lim blueprint
      ++ anchor_issues blueprint snapshot

  unfoldable pub blueprint_issues :
      BookBlueprint → BookSourceSnapshot → BlueprintLimits → List BlueprintIssue
  unfolding book_issues
  blueprint_issues blueprint snapshot lim =
      book_issues blueprint snapshot lim
      ++ flatten (map (chapter_issues lim snapshot blueprint) blueprint.chapters)

  unfoldable pub validate_blueprint :
      BookBlueprint → BookSourceSnapshot → BlueprintLimits → BlueprintValidationReport
  validate_blueprint blueprint snapshot lim =
      let issues = blueprint_issues blueprint snapshot lim in
      record { valid = not (any is_blocker issues); issues = issues; repaired = false }
