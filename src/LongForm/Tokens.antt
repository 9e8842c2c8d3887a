-- ===== src/LongForm/Tokens.antt =====
-- What the planner of long_form.py takes from Python, and `estimate_tokens`. A text is the list of its
-- code points.
use mura_project.Prelude.{
  ℕ, ◌+◌, ◌*◌, ◌/◌, max, Bool, false, ◌||◌, ◌&&◌, not, List, [], ◌∷◌, if◌then◌else◌, ◌==◌,
  count_where, is_empty, select, ◌≡◌,
}

abbrev pub Text : Type 0
Text = List ℕ

-- Arithmetic on floats, with `start / length` as `ratio`, the classes `\w` and `\s` of Unicode, and what
-- `str_strip_whitespace` of pydantic strips from the ends of a text, with its class of blanks.
pub record Platform (Seconds : Type 0) : Type 0 where
  pub plus : Seconds → Seconds → Seconds
  pub minus : Seconds → Seconds → Seconds
  pub times : Seconds → Seconds → Seconds
  pub earlier : Seconds → Seconds → Seconds
  pub later : Seconds → Seconds → Seconds
  pub ratio : ℕ → ℕ → Seconds
  pub is_at_least : Seconds → Seconds → Bool
  pub is_word : ℕ → Bool
  pub is_space : ℕ → Bool
  pub is_blank : ℕ → Bool
  pub strip : Text → Text

-- The strip of pydantic takes away blanks only.
pub record IsStripping {Seconds : Type 0} (os : Platform Seconds) : Type 0 where
  pub keeps :
      (text : Text)
      → select (λ c. not (os.is_blank c)) (os.strip text) ≡ select (λ c. not (os.is_blank c)) text

module _ {Seconds : Type 0} (os : Platform Seconds) where
  -- a character of `[\w'-]`
  abbrev pub is_in_token : ℕ → Bool
  is_in_token c = os.is_word c || c == b'\'' || c == b'-'

  -- `len(_TOKEN_RE.findall(text))`: the runs of such characters. The flag tells whether the character
  -- before belongs to a run.
  pub count_runs : Bool → Text → ℕ
  count_runs inside [] = 0
  count_runs inside (c ∷ cs) =
      (if is_in_token c && not inside then 1 else 0) + count_runs (is_in_token c) cs

  unfoldable pub count_words : Text → ℕ
  unfolding count_runs
  count_words text = count_runs false text

  -- `math.ceil(non_space_chars / 3.5)` is the quotient by 7 of twice the number, rounded up.
  unfoldable pub estimate_tokens : Text → ℕ
  unfolding count_words
  estimate_tokens text =
      let non_space_chars = count_where (λ c. not (os.is_space c)) text in
      if is_empty text then 0 else max (count_words text) ((2 * non_space_chars + 6) / 7)
