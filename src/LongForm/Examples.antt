-- ===== src/LongForm/Examples.antt =====
-- The theorems about long recordings at small transcripts, and tests by evaluation.
use mathlib.Core.Option
use mura_project.Prelude.{
  ℕ, zero, suc, ◌+◌, ◌-◌, ◌*◌, ◌/◌, ◌≡◌, ◌∙◌, refl, ap, min, max, not, select, is_empty, is_some,
  if◌then◌else◌, Bool-cases, inl, inr, String, Bool, true, false, ◌&&◌, Option, none, some, List,
  [], ◌∷◌, ◌++◌, map, leb, ◌==◌, length, any, All, arith,
}
use mura_project.LongForm.Tokens.{Text, Platform, IsStripping, count_words, estimate_tokens}
use mura_project.LongForm.Segments.{RawSegment, TranscriptEnvelope, LongFormPolicy, IsValid}
use mura_project.LongForm.Slices.{bounded_clause_slices, slice_count, expand_oversized_segments}
use mura_project.LongForm.Groups.{group_segments}
use mura_project.LongForm.Windows.{
  SegmentSlice, TranscriptWindow, WindowPlan, plan, plan_of, reasons_of,
}
use mura_project.LongForm.Materialize.{materialize_window}
use mura_project.LongForm.Partition.{IsPartition, bounded_clause_slices-IsPartition}
use mura_project.LongForm.Pieces.{Spells, expand_oversized_segments-Spells}
use mura_project.LongForm.Bounds.{IsFitting, group_segments_bounds}
use mura_project.Prelude.Table.{find}
use mura_project.Prelude.{str_eq}
use mura_project.LongForm.Segments.{text_eq}
use mura_project.LongForm.Shown.{plan-materialize_window}

abbrev is_blank : ℕ → Bool
is_blank c = c == 32

-- The text without the blanks at its front, and at its end.
abbrev strip_front : Text → Text
strip_front [] = []
strip_front (c ∷ s) = if is_blank c then strip_front s else c ∷ s

abbrev strip_end : Text → Text
strip_end [] = []
strip_end (c ∷ s) = let rest = strip_end s in if is_empty rest && is_blank c then [] else c ∷ rest

abbrev solid_of : Text → Text
solid_of = select (λ c. not (is_blank c))

solid-strip_front : (t : Text) → solid_of (strip_front t) ≡ solid_of t
solid-strip_front [] = refl
solid-strip_front (c ∷ t) = elim (Bool-cases (is_blank c)) [
  | inl b ↦ rw b (solid-strip_front t)
  | inr b ↦ rw b (rw b refl)
]

solid-strip_end : (t : Text) → solid_of (strip_end t) ≡ solid_of t
solid-strip_end [] = refl
solid-strip_end (c ∷ t) = ending (strip_end t) (is_blank c) refl (solid-strip_end t)
  where
    ending :
        (rest : Text) (b : Bool)
        → is_blank c ≡ b
        → solid_of rest ≡ solid_of t
        → solid_of (if is_empty rest && b then [] else c ∷ rest)
          ≡ (if not b then c ∷ solid_of t else solid_of t)
    ending [] true e h = h
    ending [] false e h = rw e (ap (λ r. c ∷ r) h)
    ending (d ∷ rest) true e h = rw e h
    ending (d ∷ rest) false e h = rw e (ap (λ r. c ∷ r) h)

-- Times in milliseconds; letters and the space of ASCII.
abbrev ascii : Platform ℕ
ascii = record {
  plus = λ a b. a + b;
  minus = λ a b. a - b;
  times = λ a b. a * b / 1000;
  earlier = min;
  later = max;
  ratio = λ a b. a * 1000 / b;
  is_at_least = λ a b. leb b a;
  is_word = λ c. leb b'a' c && leb c b'z';
  is_space = λ c. c == 32;
  is_blank = is_blank;
  strip = λ t. strip_end (strip_front t);
}

ascii-IsStripping : IsStripping ascii
ascii-IsStripping = record { keeps = λ t. solid-strip_end (strip_front t) ∙ solid-strip_front t }

abbrev policy : LongFormPolicy ℕ
policy = record {
  segment_count_threshold = 40;
  normalized_token_threshold = 1200;
  estimated_input_token_threshold = 6000;
  maximum_segment_tokens = 200;
  model_context_tokens = 32768;
  expected_schema_tokens = 9000;
  prompt_overhead_tokens = 2000;
  target_window_tokens = 200;
  maximum_window_tokens = 256;
  target_segments_per_window = 6;
  maximum_windows = 3;
  overlap_segments = 1;
  minimum_window_tokens = 80;
  pause_boundary_seconds = 1200;
}

policy-IsValid : IsValid policy
policy-IsValid = record {
  some_tokens = omega arith;
  some_segments = omega arith;
  some_windows = omega arith;
  few_windows = omega arith;
  few_overlap = omega arith;
  target_within = omega arith;
  context = omega arith;
}

abbrev replicate : ℕ → ℕ → Text
replicate zero c = []
replicate (suc n) c = c ∷ replicate n c

abbrev segment : String → ℕ → Text → RawSegment ℕ
segment id start text = record {
  segment_id = id;
  start = start;
  end = start + 1000;
  text = text;
  chunk_id = none;
}

abbrev transcript : List (RawSegment ℕ) → TranscriptEnvelope ℕ
transcript segments = record {
  recording_id = "r1";
  duration_seconds = 2000;
  full_text = [];
  segments = segments;
}

abbrev ab_cd : Text
ab_cd = b'a' ∷ b',' ∷ b'c' ∷ b'd' ∷ []

slices_at_comma : bounded_clause_slices ab_cd 2 ≡ some ((0, 2) ∷ (2, 4) ∷ [])
unfolding bounded_clause_slices
slices_at_comma = refl

tokens_of_text : estimate_tokens ascii (b'a' ∷ 32 ∷ b'b' ∷ []) ≡ 2
unfolding estimate_tokens
tokens_of_text = refl

bounded_clause_slices-IsPartition_example :
    (slices : List (ℕ × ℕ)) × (bounded_clause_slices ab_cd 2 ≡ some slices) × IsPartition 0 4 slices
bounded_clause_slices-IsPartition_example =
    bounded_clause_slices-IsPartition ab_cd 2 (omega arith) (omega arith)

-- Two segments too long for one window, of 257 tokens each.
abbrev long_a : RawSegment ℕ
long_a = segment "a" 0 (replicate 450 b'a' ++ replicate 450 b'b')

abbrev long_b : RawSegment ℕ
long_b = segment "b" 1000 (replicate 450 b'c' ++ replicate 450 b'd')

abbrev long_talk : TranscriptEnvelope ℕ
long_talk = transcript (long_a ∷ long_b ∷ [])

expand_oversized_segments-Spells_example :
    (out : List (RawSegment ℕ)) × (expand_oversized_segments ascii policy (long_a ∷ long_b ∷ [])
      ≡ some out)
    × Spells ascii (long_a ∷ long_b ∷ []) out
unfolding bounded_clause_slices slice_count
expand_oversized_segments-Spells_example =
    expand_oversized_segments-Spells ascii policy policy-IsValid (long_a ∷ long_b ∷ [])
      ascii-IsStripping (refl, (refl, tt)) refl

-- A long pause that is written as blanks makes a slice that pydantic refuses.
abbrev blank_inside : RawSegment ℕ
blank_inside = segment "a" 0 (replicate 1 b'a' ++ (replicate 2000 32 ++ replicate 900 b'b'))

abbrev narrow : LongFormPolicy ℕ
narrow = record policy { target_window_tokens = 128 }

blank_slice_refused : is_some (expand_oversized_segments ascii narrow (blank_inside ∷ [])) ≡ false
unfolding expand_oversized_segments
blank_slice_refused = refl

abbrev windows_of : Option (WindowPlan ℕ) → List (TranscriptWindow ℕ)
windows_of none = []
windows_of (some p) = p.windows

abbrev slices_of_window : TranscriptWindow ℕ → ℕ
slices_of_window w = length w.segment_slices

-- The first window holds both pieces of the first segment.
merged_slices : map slices_of_window (windows_of (plan ascii policy long_talk)) ≡ 2 ∷ 2 ∷ 1 ∷ []
unfolding plan
merged_slices = refl

-- Whether the model reads the character in the window.
abbrev is_read : ℕ → TranscriptWindow ℕ → Bool
is_read c w = elim (materialize_window ascii policy long_talk w) [
  | none ↦ false
  | some t ↦ any (λ d. d == c) t.full_text
]

-- The first half of the first segment, all of it the letter a, is read in no window; the other halves are.
first_half_lost :
    (any (is_read b'a') (windows_of (plan ascii policy long_talk)) ≡ false)
    × (any (is_read b'b') (windows_of (plan ascii policy long_talk)) ≡ true)
    × (any (is_read b'c') (windows_of (plan ascii policy long_talk)) ≡ true)
    × (any (is_read b'd') (windows_of (plan ascii policy long_talk)) ≡ true)
unfolding plan materialize_window
first_half_lost = (refl, refl, refl, refl)

group_segments_bounds_example :
    All (IsFitting ascii policy) (group_segments ascii policy [] 0 (long_a ∷ long_b ∷ []))
group_segments_bounds_example = group_segments_bounds ascii policy (long_a ∷ long_b ∷ [])

abbrev small_groups : List (List (RawSegment ℕ))
small_groups =
    (segment "a" 0 ab_cd ∷ [])
    ∷ (segment "b" 0 ab_cd ∷ [])
    ∷ (segment "c" 0 ab_cd ∷ [])
    ∷ (segment "d" 0 ab_cd ∷ [])
    ∷ []

abbrev is_c : String → Text → Bool
is_c id text = text_eq text ab_cd && str_eq id "c"

abbrev short_talk : TranscriptEnvelope ℕ
short_talk = transcript (segment "a" 0 ab_cd ∷ segment "b" 1000 ab_cd ∷ [])

plan-materialize_window_example :
    (w : TranscriptWindow ℕ) × (plan ascii policy short_talk
      ≡ some (plan_of ascii policy short_talk [] (w ∷ [])))
    × (Option.map
          (λ (t : TranscriptEnvelope ℕ). t.segments)
          (materialize_window ascii policy short_talk w)
        ≡ some short_talk.segments)
unfolding reasons_of find count_words estimate_tokens
plan-materialize_window_example =
    plan-materialize_window ascii policy short_talk refl (refl, (refl, tt)) refl

abbrev slice_a : ℕ → ℕ → SegmentSlice
slice_a from to = record { segment_id = "a"; start_char = from; end_char = to }
