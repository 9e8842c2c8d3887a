-- ===== src/LongForm/Segments.antt =====
-- The segments of a transcript (domain/models.py) and the policy of the planner (long_form.py).
use mura_project.Prelude.{
  ℕ, ◌+◌, ◌≤◌, ◌<◌, ◌≡◌, String, Bool, true, false, ◌&&◌, Option, List, [], ◌∷◌, str_eq, is_empty,
  ◌==◌,
}
use mura_project.LongForm.Tokens.{Text, Platform, estimate_tokens}

pub record RawSegment (Seconds : Type 0) : Type 0 where
  pub segment_id : String
  pub start : Seconds
  pub end : Seconds
  pub text : Text
  pub chunk_id : Option String

pub record TranscriptEnvelope (Seconds : Type 0) : Type 0 where
  pub recording_id : String
  pub duration_seconds : Seconds
  pub full_text : Text
  pub segments : List (RawSegment Seconds)

pub record LongFormPolicy (Seconds : Type 0) : Type 0 where
  pub segment_count_threshold : ℕ
  pub normalized_token_threshold : ℕ
  pub estimated_input_token_threshold : ℕ
  pub maximum_segment_tokens : ℕ
  pub model_context_tokens : ℕ
  pub expected_schema_tokens : ℕ
  pub prompt_overhead_tokens : ℕ
  pub target_window_tokens : ℕ
  pub maximum_window_tokens : ℕ
  pub target_segments_per_window : ℕ
  pub maximum_windows : ℕ
  pub overlap_segments : ℕ
  pub minimum_window_tokens : ℕ
  pub pause_boundary_seconds : Seconds

-- The bounds of the fields that the planner relies on, and `validate_window_limits`.
pub record IsValid {Seconds : Type 0} (policy : LongFormPolicy Seconds) : Type 0 where
  pub some_tokens : 128 ≤ policy.target_window_tokens
  pub some_segments : 2 ≤ policy.target_segments_per_window
  pub some_windows : 1 ≤ policy.maximum_windows
  pub few_windows : policy.maximum_windows ≤ 32
  pub few_overlap : policy.overlap_segments ≤ 2
  pub target_within : policy.target_window_tokens ≤ policy.maximum_window_tokens
  pub context :
      policy.expected_schema_tokens + policy.prompt_overhead_tokens < policy.model_context_tokens

-- `==` on texts
abbrev pub text_eq : Text → Text → Bool
text_eq [] [] = true
text_eq [] (d ∷ t) = false
text_eq (c ∷ s) [] = false
text_eq (c ∷ s) (d ∷ t) = c == d && text_eq s t

module _ {Seconds : Type 0} where
  -- the key `(segment_id, text)` of `_unique_segments`
  abbrev pub is_same_piece : RawSegment Seconds → RawSegment Seconds → Bool
  is_same_piece r s = str_eq r.segment_id s.segment_id && text_eq r.text s.text

  -- The texts of validated segments are not empty.
  abbrev pub HasText : RawSegment Seconds → Type 0
  HasText s = is_empty s.text ≡ false

  -- `sum(estimate_tokens(item.text) for item in segments)`
  abbrev pub total_tokens : Platform Seconds → List (RawSegment Seconds) → ℕ
  total_tokens os [] = 0
  total_tokens os (s ∷ segments) = estimate_tokens os s.text + total_tokens os segments
