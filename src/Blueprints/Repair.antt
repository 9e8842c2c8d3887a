-- ===== src/Blueprints/Repair.antt =====
-- `repair_blueprint_arithmetic` of book/blueprint_validation.py.
use mura_project.Prelude.{
  ℕ, zero, suc, ◌+◌, ◌-◌, ◌/◌, ◌%◌, min, max, String, Bool, true, false, ◌&&◌, not, Option, none,
  some, List, [], ◌∷◌, if◌then◌else◌, ltb, leb, all, length, is_none, Result, ok, value_error, ◌>>◌,
  guard,
}
use mura_project.Blueprints.Plans.{ChapterPlan, BookBlueprint, BlueprintLimits}
use mura_project.Blueprints.Years.{Characters, is_anchor_grounded}
use mura_project.Blueprints.Validation.{is_said, sum_words}
use mura_project.Snapshots.Rows.{BookSourceSnapshot}

-- `max(low, min(n, high))`
abbrev pub clamp : ℕ → ℕ → ℕ → ℕ
clamp low high n = max low (min n high)

-- One round of the loop that gives out the words
abbrev pub repaired_chapter :
    BlueprintLimits → ℕ → ℕ → Option String → ℕ → ChapterPlan → ChapterPlan
repaired_chapter lim base remainder anchor idx ch = record ch {
  chapter_number = idx + 1;
  target_word_count =
      clamp lim.min_chapter_words lim.max_chapter_words
        (base + (if ltb idx remainder then 1 else 0));
  material_anchor_refs = if is_none anchor then [] else ch.material_anchor_refs;
}

unfoldable pub repaired_from :
    BlueprintLimits → ℕ → ℕ → Option String → ℕ → List ChapterPlan → List ChapterPlan
repaired_from lim base remainder anchor idx [] = []
repaired_from lim base remainder anchor idx (ch ∷ chapters) =
    repaired_chapter lim base remainder anchor idx ch
    ∷ repaired_from lim base remainder anchor (suc idx) chapters

-- A word more, or a word less, where the limits allow it
abbrev pub nudged : BlueprintLimits → Bool → ChapterPlan → ChapterPlan
nudged lim true ch =
    if ltb ch.target_word_count lim.max_chapter_words
    then record ch { target_word_count = ch.target_word_count + 1 }
    else ch
nudged lim false ch =
    if ltb lim.min_chapter_words ch.target_word_count
    then record ch { target_word_count = ch.target_word_count - 1 }
    else ch

unfoldable pub nudge_at : BlueprintLimits → Bool → ℕ → List ChapterPlan → List ChapterPlan
nudge_at lim up idx [] = []
nudge_at lim up zero (ch ∷ chapters) = nudged lim up ch ∷ chapters
nudge_at lim up (suc idx) (ch ∷ chapters) = ch ∷ nudge_at lim up idx chapters

-- `for i in range(n)` from a given `i` on
unfoldable pub nudge_all : BlueprintLimits → Bool → ℕ → ℕ → List ChapterPlan → List ChapterPlan
unfolding nudge_at
nudge_all lim up zero i chapters = chapters
nudge_all lim up (suc n) i chapters =
    nudge_all lim up n (suc i) (nudge_at lim up (i % length chapters) chapters)

-- The last loop; `diff` is positive, negative or zero.
unfoldable pub settle_sum : BlueprintLimits → ℕ → List ChapterPlan → List ChapterPlan
unfolding nudge_all sum_words
settle_sum lim total chapters =
    let sum = sum_words chapters in
    if ltb sum total
    then nudge_all lim true (total - sum) 0 chapters
    else nudge_all lim false (sum - total) 0 chapters

unfoldable pub repaired_chapters :
    BlueprintLimits → ℕ → Option String → List ChapterPlan → List ChapterPlan
unfolding repaired_from settle_sum
repaired_chapters lim total anchor [] = []
repaired_chapters lim total anchor (ch ∷ chapters) = settle_sum lim total (
    repaired_from lim (total / length (ch ∷ chapters)) (total % length (ch ∷ chapters)) anchor 0
      (ch ∷ chapters))

abbrev pub is_between : ℕ → ℕ → ℕ → Bool
is_between low high n = leb low n && leb n high

-- `BookBlueprint.model_validate` on what the repair writes: the bounds of the fields. pydantic raises a
-- `ValueError`.
unfoldable pub model_validate : BookBlueprint → Result BookBlueprint
model_validate blueprint = do
  guard (is_between 1000 60000 blueprint.target_total_words) value_error
  guard
      (all
        (λ (ch : ChapterPlan).
          is_between 1 15 ch.chapter_number && is_between 100 20000 ch.target_word_count)
        blueprint.chapters)
      value_error
  ok blueprint

module _ (os : Characters) where
  -- The anchor that is kept: with a snapshot, one that is not grounded in it is dropped.
  unfoldable pub repaired_anchor : Option String → Option BookSourceSnapshot → Option String
  repaired_anchor anchor none = anchor
  repaired_anchor anchor (some snapshot) =
      if is_said anchor && not (is_anchor_grounded os anchor snapshot) then none else anchor

  unfoldable pub repaired_blueprint :
      BookBlueprint → BlueprintLimits → Option BookSourceSnapshot → BookBlueprint
  repaired_blueprint blueprint lim snapshot =
      let total = clamp lim.min_total_words lim.max_total_words blueprint.target_total_words in
      let anchor = repaired_anchor blueprint.material_anchor snapshot in
      record {
        target_total_words = total;
        material_anchor = anchor;
        chapters = repaired_chapters lim total anchor blueprint.chapters;
      }

  unfoldable pub repair_blueprint_arithmetic :
      BookBlueprint → BlueprintLimits → Option BookSourceSnapshot → Result BookBlueprint
  repair_blueprint_arithmetic blueprint lim snapshot =
      model_validate (repaired_blueprint blueprint lim snapshot)
