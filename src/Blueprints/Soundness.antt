-- ===== src/Blueprints/Soundness.antt =====
-- The repair of a feasible blueprint and its validation together (book/blueprint_validation.py).
use mura_project.Prelude.{
  ℕ, zero, suc, ◌+◌, ◌≤◌, ◌≡◌, ◌∙◌, refl, sym, ap, Bool, true, false, ◌&&◌, Option, List, [], ◌∷◌,
  all, All, length, ok, arith,
}
use mura_project.Blueprints.Plans.{ChapterPlan, BookBlueprint, BlueprintLimits}
use mura_project.Blueprints.Years.{Characters}
use mura_project.Blueprints.Validation.{numbers_of, range_from, is_outside, validate_blueprint}
use mura_project.Blueprints.Repair.{
  clamp, is_between, model_validate, repaired_chapters, repaired_anchor, repaired_blueprint,
  repair_blueprint_arithmetic,
}
use mura_project.Blueprints.Shares.{IsSized}
use mura_project.Blueprints.Repaired.{
  IsFeasible, IsRepaired, has_arithmetic, has_arithmetic-blueprint_issues, clamp_inside,
  repaired_chapters-IsRepaired,
}
use mura_project.Snapshots.Rows.{BookSourceSnapshot}

abbrev is_valid_chapter : ChapterPlan → Bool
is_valid_chapter ch = is_between 1 15 ch.chapter_number && is_between 100 20000 ch.target_word_count

module _ (lim : BlueprintLimits)
    (bounds : (100 ≤ lim.min_chapter_words) × (lim.max_chapter_words ≤ 20000)) where
  fields_valid :
      (k n : ℕ) (chapters : List ChapterPlan)
      → 1 ≤ k
      → k + n ≤ 16
      → numbers_of chapters ≡ range_from k n
      → All (IsSized lim) chapters
      → all is_valid_chapter chapters ≡ true
  unfolding range_from
  fields_valid k n [] low high e sized = refl
  fields_valid k zero (ch ∷ chapters) low high e sized = absurd (cc)
  fields_valid k (suc n) (ch ∷ chapters) low high e sized =
      let number : ch.chapter_number ≡ k = cc in
      let rest : numbers_of chapters ≡ range_from (suc k) n = cc in
      ground (
        arith,
        number,
        sized.0,
        bounds,
        fields_valid (suc k) n chapters (omega arith) (omega arith) rest sized.1,
      )

module _ (os : Characters) (lim : BlueprintLimits) where
  model_validate-ok :
      (b : BookBlueprint)
      → is_between 1000 60000 b.target_total_words ≡ true
      → all is_valid_chapter b.chapters ≡ true
      → model_validate b ≡ ok b
  unfolding model_validate
  model_validate-ok b total chapters = rw (total, chapters) refl

  -- If the limits leave room for the number of chapters and are within the bounds of the fields, the repair
  -- succeeds, whatever numbers and word counts the chapters have, with whichever snapshot it is called, and
  -- the validation of what it returns finds no fault with the number of chapters, their numbers, the
  -- words of a chapter, the words of the book or their sum.
  pub repair_blueprint_arithmetic_sound :
      (b : BookBlueprint) (grounding : Option BookSourceSnapshot) (s : BookSourceSnapshot)
      → IsFeasible lim (length b.chapters)
      → (b' : BookBlueprint) × (repair_blueprint_arithmetic os b lim grounding ≡ ok b')
        × (has_arithmetic (validate_blueprint os b' s lim).issues ≡ false)
  unfolding repair_blueprint_arithmetic validate_blueprint repaired_blueprint
  repair_blueprint_arithmetic_sound b grounding s f =
      let total : ℕ = clamp lim.min_total_words lim.max_total_words b.target_total_words in
      let anchor = repaired_anchor os b.material_anchor grounding in
      let b' : BookBlueprint = repaired_blueprint os b lim grounding in
      let low : lim.min_total_words ≤ total = omega arith in
      let high : total ≤ lim.max_total_words = omega (arith, f.totals) in
      let r : IsRepaired os s lim total (length b.chapters)
          (repaired_chapters lim total anchor b.chapters) =
        repaired_chapters-IsRepaired os s lim total anchor b.chapters f.nonempty f.sizes
          (omega (arith, f.enough, low)) (omega (arith, f.room, high)) in
      let number : numbers_of b'.chapters ≡ range_from 1 (length b'.chapters) =
        r.numbered ∙ ap (range_from 1) (sym r.size) in
      let count : is_outside lim.min_chapters lim.max_chapters (length b'.chapters) ≡ false =
        rw r.size (ground (arith, f.counted)) in
      (
        b',
        model_validate-ok b' (ground (arith, low, high, f.total_bounds)) (
            fields_valid lim f.chapter_bounds 1 (length b.chapters) b'.chapters (omega arith)
              (omega (arith, f.few)) r.numbered r.sized),
        has_arithmetic-blueprint_issues os s lim b' count number
            (clamp_inside os s lim b.target_total_words f.totals) r.summed r.sized,
      )
