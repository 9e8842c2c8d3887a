-- ===== src/Blueprints/Repaired.antt =====
-- What is left to say against a blueprint that `repair_blueprint_arithmetic` has repaired
-- (book/blueprint_validation.py).
use mura_project.Prelude.{
  ℕ, suc, ◌*◌, ◌/◌, ◌%◌, ◌≤◌, ◌<◌, ◌≡◌, ◌∙◌, refl, ap, String, Bool, true, false, ◌&&◌, not, Option,
  some, List, [], ◌∷◌, map, flatten, ◌==◌, any, any-append, All, All-map, length, arith,
}
use mura_project.Blueprints.Plans.{
  ChapterPlan, BookBlueprint, BlueprintLimits, BlueprintIssueCode, chapter_count_out_of_range,
  word_budget_out_of_range, chapter_total_mismatch, unsupported_year, duplicate_chapter_number,
  chapter_number_gap, BlueprintIssue,
}
use mura_project.Blueprints.Years.{Characters}
use mura_project.Blueprints.Validation.{
  issue_if, is_outside, numbering_issues, budget_issues, reference_issues, year_issues, year_issue,
  chapter_issues, book_issues, blueprint_issues, sum_words, numbers_of, range_from, chapter_years,
}
use mura_project.Blueprints.Repair.{clamp, repaired_chapters}
use mura_project.Blueprints.Shares.{IsSized, repaired_chapters-IsSized, repaired_chapters-shares}
use mura_project.Blueprints.Numbering.{
  has_duplicates-range_from, sorted_numbers-range_from, is_same_numbers_refl,
  numbers_of-repaired_from, length-repaired_from,
}
use mura_project.Snapshots.Rows.{BookSourceSnapshot}

-- The issues about the number of chapters, their numbers and their words.
abbrev pub is_arithmetic : BlueprintIssueCode → Bool
is_arithmetic chapter_count_out_of_range = true
is_arithmetic word_budget_out_of_range = true
is_arithmetic chapter_total_mismatch = true
is_arithmetic duplicate_chapter_number = true
is_arithmetic chapter_number_gap = true
is_arithmetic code = false

abbrev pub has_arithmetic : List BlueprintIssue → Bool
has_arithmetic issues = any (λ i. is_arithmetic i.code) issues

-- The limits leave room for so many chapters, and are within the bounds of the fields.
pub record IsFeasible (lim : BlueprintLimits) (n : ℕ) : Type 0 where
  pub nonempty : 0 < n
  pub few : n ≤ 15
  pub counted : (lim.min_chapters ≤ n) × (n ≤ lim.max_chapters)
  pub totals : lim.min_total_words ≤ lim.max_total_words
  pub enough : n * lim.min_chapter_words ≤ lim.min_total_words
  pub room : lim.max_total_words ≤ n * lim.max_chapter_words
  pub sizes : lim.min_chapter_words ≤ lim.max_chapter_words
  pub total_bounds : (1000 ≤ lim.min_total_words) × (lim.max_total_words ≤ 60000)
  pub chapter_bounds : (100 ≤ lim.min_chapter_words) × (lim.max_chapter_words ≤ 20000)

has_arithmetic-issue_if :
    (test : Bool) (code : BlueprintIssueCode) (number : Option ℕ)
    → has_arithmetic (issue_if test code number) ≡ (test && is_arithmetic code)
has_arithmetic-issue_if true code number = ground arith
has_arithmetic-issue_if false code number = refl

has_arithmetic-flatten :
    {A : Type 0} (f : A → List BlueprintIssue) (xs : List A)
    → All (λ x. has_arithmetic (f x) ≡ false) xs
    → has_arithmetic (flatten (map f xs)) ≡ false
unfolding flatten
has_arithmetic-flatten f [] h = refl
has_arithmetic-flatten f (x ∷ xs) h =
    any-append _ (f x) (flatten (map f xs)) ∙ rw (h.0, has_arithmetic-flatten f xs h.1) refl

all_free :
    {A : Type 0} (f : A → List BlueprintIssue)
    → ((x : A) → has_arithmetic (f x) ≡ false)
    → (xs : List A) → All (λ x. has_arithmetic (f x) ≡ false) xs
all_free f h [] = tt
all_free f h (x ∷ xs) = (h x, all_free f h xs)

and_false : (b : Bool) → (b && false) ≡ false
and_false true = refl
and_false false = refl

has_arithmetic-false :
    (code : BlueprintIssueCode) (number : Option ℕ) (test : Bool)
    → is_arithmetic code ≡ false
    → has_arithmetic (issue_if test code number) ≡ false
has_arithmetic-false code number test h =
    has_arithmetic-issue_if test code number ∙ ap (λ b. test && b) h ∙ and_false test

module _ (os : Characters) (s : BookSourceSnapshot) (lim : BlueprintLimits) where
  has_arithmetic-reference_issues :
      (ch : ChapterPlan) → has_arithmetic (reference_issues s ch) ≡ false
  unfolding reference_issues
  has_arithmetic-reference_issues ch = simp (any-append, has_arithmetic-issue_if, and_false)

  has_arithmetic-year_issues : (ch : ChapterPlan) → has_arithmetic (year_issues os s ch) ≡ false
  unfolding year_issues
  has_arithmetic-year_issues ch = has_arithmetic-flatten (year_issue s ch) (chapter_years os ch) (
      all_free (year_issue s ch)
        (λ y.
          has_arithmetic-false unsupported_year (some ch.chapter_number)
            (not (any (λ m. y == m) s.allowed_years)) refl)
        (chapter_years os ch))

  has_arithmetic-chapter_issues :
      (b : BookBlueprint) (ch : ChapterPlan)
      → IsSized lim ch
      → has_arithmetic (chapter_issues os lim s b ch) ≡ false
  unfolding chapter_issues
  has_arithmetic-chapter_issues b ch sized =
      let inside : is_outside lim.min_chapter_words lim.max_chapter_words ch.target_word_count
          ≡ false =
        ground (arith, sized) in
      simp (
        any-append,
        has_arithmetic-issue_if,
        inside,
        has_arithmetic-reference_issues ch,
        has_arithmetic-year_issues ch,
        and_false,
      )

  has_arithmetic-numbering_issues :
      (b : BookBlueprint)
      → numbers_of b.chapters ≡ range_from 1 (length b.chapters)
      → has_arithmetic (numbering_issues b) ≡ false
  unfolding numbering_issues
  has_arithmetic-numbering_issues b h =
      rw
        (
          h,
          has_duplicates-range_from 1 (length b.chapters),
          sorted_numbers-range_from 1 (length b.chapters),
          is_same_numbers_refl (range_from 1 (length b.chapters)),
        )
        refl

  pub has_arithmetic-blueprint_issues :
      (b : BookBlueprint)
      → is_outside lim.min_chapters lim.max_chapters (length b.chapters) ≡ false
      → numbers_of b.chapters ≡ range_from 1 (length b.chapters)
      → is_outside lim.min_total_words lim.max_total_words b.target_total_words ≡ false
      → sum_words b.chapters ≡ b.target_total_words
      → All (IsSized lim) b.chapters
      → has_arithmetic (blueprint_issues os b s lim) ≡ false
  unfolding blueprint_issues book_issues budget_issues
  has_arithmetic-blueprint_issues b counted numbered total summed sized =
      let right : (sum_words b.chapters == b.target_total_words) ≡ true = ground (arith, summed) in
      let numbers = has_arithmetic-numbering_issues b numbered in
      let chapters =
        has_arithmetic-flatten (chapter_issues os lim s b) b.chapters
          (All-map (has_arithmetic-chapter_issues b) b.chapters sized) in
      simp
        (any-append, has_arithmetic-issue_if, counted, total, right, numbers, chapters, and_false)

  pub clamp_inside :
      (n : ℕ)
      → lim.min_total_words ≤ lim.max_total_words
      → is_outside lim.min_total_words lim.max_total_words
          (clamp lim.min_total_words lim.max_total_words n)
        ≡ false
  clamp_inside n h = ground (arith, h)

  -- The chapters of a feasible plan after the repair
  pub record IsRepaired (total : ℕ) (n : ℕ) (chapters : List ChapterPlan) : Type 0 where
    pub size : length chapters ≡ n
    pub numbered : numbers_of chapters ≡ range_from 1 n
    pub summed : sum_words chapters ≡ total
    pub sized : All (IsSized lim) chapters

  pub repaired_chapters-IsRepaired :
      (total : ℕ) (anchor : Option String) (chapters : List ChapterPlan)
      → 0 < length chapters
      → lim.min_chapter_words ≤ lim.max_chapter_words
      → length chapters * lim.min_chapter_words ≤ total
      → total ≤ length chapters * lim.max_chapter_words
      → IsRepaired total (length chapters) (repaired_chapters lim total anchor chapters)
  repaired_chapters-IsRepaired total anchor [] some_there sizes enough room =
      absurd (omega (arith, some_there))
  repaired_chapters-IsRepaired total anchor (ch ∷ chapters) some_there sizes enough room =
      let n : ℕ = suc (length chapters) in
      let shared = repaired_chapters-shares lim total anchor ch chapters enough room in
      record {
        size =
            ap length shared.1
            ∙ length-repaired_from lim (total / n) (total % n) anchor 0 (ch ∷ chapters);
        numbered =
            ap numbers_of shared.1
            ∙ numbers_of-repaired_from lim (total / n) (total % n) anchor 0 (ch ∷ chapters);
        summed = shared.0;
        sized = repaired_chapters-IsSized lim sizes total anchor (ch ∷ chapters);
      }
