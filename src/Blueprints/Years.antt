-- ===== src/Blueprints/Years.antt =====
-- The texts of a blueprint (book/blueprint_validation.py): years and material anchors.
use Prim.Native.String as Native
use Prim.Native.Char.{code}
use text.Mathlib.Text.{find? as text_find?}
use mura_project.Prelude.{
  ℕ, ◌+◌, ◌*◌, String, Bool, true, false, ◌&&◌, ◌||◌, not, Option, none, some, List, [], ◌∷◌,
  if◌then◌else◌, ◌==◌, any, is_some, str_eq,
}
use mura_project.Snapshots.Rows.{BookSourceSnapshot}

-- What the code takes from Python's tables of Unicode: `\w`, `\d` and the value of a digit, `str.strip` and
-- `str.lower`.
pub record Characters : Type 0 where
  pub is_word : ℕ → Bool
  pub is_digit : ℕ → Bool
  pub digit_value : ℕ → ℕ
  pub strip : String → String
  pub lower : String → String

module _ (os : Characters) where
  -- `\b` between a character of a word and what follows
  abbrev pub ends_word : String → Bool
  ends_word Native.String.[] = true
  ends_word (Native.String.◌∷◌ c s) = not (os.is_word (code c))

  -- `1[89]\d{2}|20\d{2}` on the numbers of four characters
  abbrev pub is_year : ℕ → ℕ → ℕ → ℕ → Bool
  is_year a b c d =
      ((a == b'1' && (b == b'8' || b == b'9')) || (a == b'2' && b == b'0'))
      && os.is_digit c
      && os.is_digit d

  abbrev pub year_of : ℕ → ℕ → ℕ → ℕ → ℕ
  year_of a b c d =
      1000 * os.digit_value a + 100 * os.digit_value b + 10 * os.digit_value c + os.digit_value d

  -- The year that the text begins with, if it is followed by the end of a word
  abbrev pub year_at : String → Option ℕ
  year_at
        (Native.String.◌∷◌ a (Native.String.◌∷◌ b (Native.String.◌∷◌ c (Native.String.◌∷◌ d s)))) =
      if is_year (code a) (code b) (code c) (code d) && ends_word s
      then some (year_of (code a) (code b) (code c) (code d))
      else none
  year_at s = none

  abbrev pub with_year : Bool → Option ℕ → List ℕ → List ℕ
  with_year inside none years = years
  with_year true (some y) years = years
  with_year false (some y) years = y ∷ years

  -- `_YEAR_REGEX.findall`. The flag tells whether the character before is of a word; within a match it is, so
  -- no match begins there.
  pub years_from : Bool → String → List ℕ
  years_from inside Native.String.[] = []
  years_from inside (Native.String.◌∷◌ c s) =
      with_year inside (year_at (Native.String.◌∷◌ c s)) (years_from (os.is_word (code c)) s)

  unfoldable pub extract_years : Option String → List ℕ
  unfolding years_from
  extract_years none = []
  extract_years (some text) = years_from false text

  -- `needle in text`
  abbrev pub contains : String → String → Bool
  contains text needle = is_some (text_find? text needle)

  unfoldable pub is_anchor_grounded : Option String → BookSourceSnapshot → Bool
  is_anchor_grounded none snapshot = false
  is_anchor_grounded (some anchor) snapshot =
      let norm = os.lower (os.strip anchor) in
      not (str_eq (os.strip anchor) "")
      && (any
            (λ cand.
              str_eq (os.lower (os.strip cand)) norm || contains (os.lower (os.strip cand)) norm)
            snapshot.material_anchor_candidates
          || any (λ (ev : _). contains (os.lower ev.text) norm) snapshot.evidence)
