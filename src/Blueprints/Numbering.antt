-- ===== src/Blueprints/Numbering.antt =====
-- The numbers that `repair_blueprint_arithmetic` of book/blueprint_validation.py gives to the chapters.
use mura_project.Prelude.{
  ℕ, zero, suc, ◌+◌, ◌<◌, ◌≡◌, ◌∙◌, refl, ap, String, true, false, Option, List, [], ◌∷◌, ◌==◌, any,
  length, arith,
}
use mura_project.Blueprints.Plans.{ChapterPlan, BlueprintLimits}
use mura_project.Blueprints.Validation.{
  has_duplicates, insert_number, sorted_numbers, is_same_numbers, range_from, numbers_of,
}
use mura_project.Blueprints.Repair.{repaired_from}

any-range_from : (k j n : ℕ) → k < j → any (λ m. k == m) (range_from j n) ≡ false
unfolding range_from
any-range_from k j zero h = refl
any-range_from k j (suc n) h = ground (arith, any-range_from k (suc j) n (omega arith))

pub has_duplicates-range_from : (k n : ℕ) → has_duplicates (range_from k n) ≡ false
unfolding has_duplicates range_from
has_duplicates-range_from k zero = refl
has_duplicates-range_from k (suc n) =
    rw (any-range_from k (suc k) n (omega arith), has_duplicates-range_from (suc k) n) refl

insert_number-range_from :
    (k n : ℕ) → insert_number k (range_from (suc k) n) ≡ k ∷ range_from (suc k) n
unfolding insert_number range_from
insert_number-range_from k zero = refl
insert_number-range_from k (suc n) = ground arith

pub sorted_numbers-range_from : (k n : ℕ) → sorted_numbers (range_from k n) ≡ range_from k n
unfolding sorted_numbers range_from
sorted_numbers-range_from k zero = refl
sorted_numbers-range_from k (suc n) =
    ap (insert_number k) (sorted_numbers-range_from (suc k) n) ∙ insert_number-range_from k n

pub is_same_numbers_refl : (ns : List ℕ) → is_same_numbers ns ns ≡ true
unfolding is_same_numbers
is_same_numbers_refl [] = refl
is_same_numbers_refl (n ∷ ns) = ground (arith, is_same_numbers_refl ns)

module _ (lim : BlueprintLimits) (base remainder : ℕ) (anchor : Option String) where
  pub numbers_of-repaired_from :
      (idx : ℕ) (chapters : List ChapterPlan)
      → numbers_of (repaired_from lim base remainder anchor idx chapters)
        ≡ range_from (suc idx) (length chapters)
  unfolding repaired_from range_from
  numbers_of-repaired_from idx [] = refl
  numbers_of-repaired_from idx (ch ∷ chapters) =
      let one : idx + 1 ≡ suc idx = omega arith in
      rw (one, numbers_of-repaired_from (suc idx) chapters) refl

  pub length-repaired_from :
      (idx : ℕ) (chapters : List ChapterPlan)
      → length (repaired_from lim base remainder anchor idx chapters) ≡ length chapters
  unfolding repaired_from
  length-repaired_from idx [] = refl
  length-repaired_from idx (ch ∷ chapters) = ap suc (length-repaired_from (suc idx) chapters)
