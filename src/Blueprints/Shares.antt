-- ===== src/Blueprints/Shares.antt =====
-- How `repair_blueprint_arithmetic` of book/blueprint_validation.py shares the words of a book among its chapters.
use native.Mathlib.Nat.{suc-mul, mul-suc, zero-mul, div-add-mod, mod-lt, mul-le-mul_left}
use mura_project.Prelude.{
  ℕ, zero, suc, ◌+◌, ◌-◌, ◌*◌, ◌/◌, ◌%◌, ◌≤◌, ◌<◌, ◌≡◌, ◌∙◌, refl, ap, min, String, Bool, true,
  false, Option, List, [], ◌∷◌, ltb, leb, leb→le, leb→lt, ltb→lt, All, length, Bool-cases, inl, inr,
  arith,
}
use mura_project.Blueprints.Plans.{ChapterPlan, BlueprintLimits}
use mura_project.Blueprints.Validation.{sum_words}
use mura_project.Blueprints.Repair.{
  repaired_from, nudged, nudge_at, nudge_all, settle_sum, repaired_chapters,
}

module _ (lim : BlueprintLimits) where
  -- The number of words of a chapter is within the limits of a chapter.
  abbrev pub IsSized : ChapterPlan → Type 0
  IsSized ch =
      (lim.min_chapter_words ≤ ch.target_word_count)
      × (ch.target_word_count ≤ lim.max_chapter_words)

  module _ (ordered : lim.min_chapter_words ≤ lim.max_chapter_words) where
    repaired_from-IsSized :
        (base remainder : ℕ) (anchor : Option String) (idx : ℕ) (chapters : List ChapterPlan)
        → All IsSized (repaired_from lim base remainder anchor idx chapters)
    unfolding repaired_from
    repaired_from-IsSized base remainder anchor idx [] = tt
    repaired_from-IsSized base remainder anchor idx (ch ∷ chapters) =
        ((omega arith, omega arith), repaired_from-IsSized base remainder anchor (suc idx) chapters)

    nudged-IsSized : (up : Bool) (ch : ChapterPlan) → IsSized ch → IsSized (nudged lim up ch)
    nudged-IsSized true ch s = elim (Bool-cases (ltb ch.target_word_count lim.max_chapter_words)) [
      | inl e ↦ rw e (ground (arith, s, e), ground (arith, s, e))
      | inr e ↦ rw e s
    ]
    nudged-IsSized false ch s = elim (Bool-cases (ltb lim.min_chapter_words ch.target_word_count)) [
      | inl e ↦ rw e (ground (arith, s, e), ground (arith, s, e))
      | inr e ↦ rw e s
    ]

    nudge_at-IsSized :
        (up : Bool) (idx : ℕ) (chapters : List ChapterPlan)
        → All IsSized chapters
        → All IsSized (nudge_at lim up idx chapters)
    unfolding nudge_at
    nudge_at-IsSized up idx [] s = tt
    nudge_at-IsSized up zero (ch ∷ chapters) s = (nudged-IsSized up ch s.0, s.1)
    nudge_at-IsSized up (suc idx) (ch ∷ chapters) s = (s.0, nudge_at-IsSized up idx chapters s.1)

    nudge_all-IsSized :
        (up : Bool) (n i : ℕ) (chapters : List ChapterPlan)
        → All IsSized chapters
        → All IsSized (nudge_all lim up n i chapters)
    unfolding nudge_all
    nudge_all-IsSized up zero i chapters s = s
    nudge_all-IsSized up (suc n) i chapters s =
        nudge_all-IsSized up n (suc i) _ (nudge_at-IsSized up (i % length chapters) chapters s)

    settle_sum-IsSized :
        (total : ℕ) (chapters : List ChapterPlan)
        → All IsSized chapters
        → All IsSized (settle_sum lim total chapters)
    unfolding settle_sum
    settle_sum-IsSized total chapters s = elim (Bool-cases (ltb (sum_words chapters) total)) [
      | inl e ↦ rw e (nudge_all-IsSized true (total - sum_words chapters) 0 chapters s)
      | inr e ↦ rw e (nudge_all-IsSized false (sum_words chapters - total) 0 chapters s)
    ]

    -- Whatever the total, every chapter gets a number of words within the limits.
    pub repaired_chapters-IsSized :
        (total : ℕ) (anchor : Option String) (chapters : List ChapterPlan)
        → All IsSized (repaired_chapters lim total anchor chapters)
    unfolding repaired_chapters
    repaired_chapters-IsSized total anchor [] = tt
    repaired_chapters-IsSized total anchor (ch ∷ chapters) =
        settle_sum-IsSized total
          (repaired_from lim (total / length (ch ∷ chapters)) (total % length (ch ∷ chapters))
            anchor 0 (ch ∷ chapters))
          (repaired_from-IsSized (total / length (ch ∷ chapters)) (total % length (ch ∷ chapters))
            anchor 0 (ch ∷ chapters))

  -- Shares that the limits leave alone
  module _ (base remainder : ℕ) (anchor : Option String) (low : lim.min_chapter_words ≤ base)
      (high : base + min remainder 1 ≤ lim.max_chapter_words) where
    sum_words-repaired_from :
        (idx : ℕ) (chapters : List ChapterPlan)
        → sum_words (repaired_from lim base remainder anchor idx chapters) + min remainder idx
          ≡ length chapters * base + min remainder (idx + length chapters)
    unfolding sum_words repaired_from
    sum_words-repaired_from idx [] = rw zero-mul (omega arith)
    sum_words-repaired_from idx (ch ∷ chapters) =
        let rest = sum_words-repaired_from (suc idx) chapters in
        let more : suc (length chapters) * base ≡ length chapters * base + base =
          suc-mul (length chapters) base in
        rw more (elim (Bool-cases (ltb idx remainder)) [
          | inl e ↦ rw e (ground (arith, rest, e, low, high))
          | inr e ↦ rw e (ground (arith, rest, e, low, high))
        ])

  settle_sum-exact :
      (total : ℕ) (chapters : List ChapterPlan)
      → sum_words chapters ≡ total
      → settle_sum lim total chapters ≡ chapters
  unfolding settle_sum nudge_all
  settle_sum-exact total chapters e =
      let same : ltb (sum_words chapters) total ≡ false = ground (arith, e) in
      let nothing : sum_words chapters - total ≡ 0 = omega (arith, e) in rw (same, nothing) refl

  share_low :
      (total n : ℕ) → suc n * lim.min_chapter_words ≤ total → lim.min_chapter_words ≤ total / suc n
  share_low total n enough = elim (Bool-cases (leb lim.min_chapter_words (total / suc n))) [
    | inl e ↦ leb→le lim.min_chapter_words (total / suc n) e
    | inr e ↦
        let below : suc (total / suc n) ≤ lim.min_chapter_words =
          leb→lt lim.min_chapter_words (total / suc n) e in
        let step : suc n * suc (total / suc n) ≤ suc n * lim.min_chapter_words =
          mul-le-mul_left (suc n) below in
        let whole : suc n * (total / suc n) + total % suc n ≡ total = div-add-mod total (suc n) in
        let rest : total % suc n < suc n = mod-lt total (omega arith) in
        let more : suc n * suc (total / suc n) ≡ suc n * (total / suc n) + suc n =
          mul-suc (suc n) (total / suc n) in
        absurd (omega (arith, step, whole, rest, more, enough))
  ]

  share_high :
      (total n : ℕ)
      → total ≤ suc n * lim.max_chapter_words
      → total / suc n + min (total % suc n) 1 ≤ lim.max_chapter_words
  share_high total n room =
      let whole : suc n * (total / suc n) + total % suc n ≡ total = div-add-mod total (suc n) in
      elim (Bool-cases (leb (total / suc n + min (total % suc n) 1) lim.max_chapter_words)) [
        | inl e ↦ leb→le (total / suc n + min (total % suc n) 1) lim.max_chapter_words e
        | inr e ↦
            let above : lim.max_chapter_words < total / suc n + min (total % suc n) 1 =
              leb→lt (total / suc n + min (total % suc n) 1) lim.max_chapter_words e in
            let more : suc n * suc lim.max_chapter_words ≡ suc n * lim.max_chapter_words + suc n =
              mul-suc (suc n) lim.max_chapter_words in
            elim (Bool-cases (ltb 0 (total % suc n))) [
              | inl some_left ↦
                  let left : 0 < total % suc n = ltb→lt 0 (total % suc n) some_left in
                  let step : suc n * lim.max_chapter_words ≤ suc n * (total / suc n) =
                    mul-le-mul_left (suc n) (omega (arith, above, left)) in
                  absurd (omega (arith, step, whole, left, room))
              | inr none_left ↦
                  let no_rest : total % suc n ≡ 0 = ground (arith, none_left) in
                  let step : suc n * suc lim.max_chapter_words ≤ suc n * (total / suc n) =
                    mul-le-mul_left (suc n) (omega (arith, above, no_rest)) in
                  absurd (omega (arith, step, whole, more, room))
            ]
      ]

  -- Where the total fits the limits, the chapters keep their shares, and these add up to the total.
  pub repaired_chapters-shares :
      (total : ℕ) (anchor : Option String) (ch : ChapterPlan) (chapters : List ChapterPlan)
      → length (ch ∷ chapters) * lim.min_chapter_words ≤ total
      → total ≤ length (ch ∷ chapters) * lim.max_chapter_words
      → (sum_words (repaired_chapters lim total anchor (ch ∷ chapters)) ≡ total)
        × (repaired_chapters lim total anchor (ch ∷ chapters)
            ≡ repaired_from lim
                (total / length (ch ∷ chapters))
                (total % length (ch ∷ chapters))
                anchor
                0
                (ch ∷ chapters))
  unfolding repaired_chapters
  repaired_chapters-shares total anchor ch chapters enough room =
      let n : ℕ = length chapters in
      let shared : List ChapterPlan =
        repaired_from lim (total / suc n) (total % suc n) anchor 0 (ch ∷ chapters) in
      let summed =
        sum_words-repaired_from (total / suc n) (total % suc n) anchor (share_low total n enough)
          (share_high total n room) 0 (ch ∷ chapters) in
      let whole : suc n * (total / suc n) + total % suc n ≡ total = div-add-mod total (suc n) in
      let rest : total % suc n < suc n = mod-lt total (omega arith) in
      let exact : sum_words shared ≡ total = omega (arith, summed, whole, rest) in
      let kept : settle_sum lim total shared ≡ shared = settle_sum-exact total shared exact in
      (ap sum_words kept ∙ exact, kept)
