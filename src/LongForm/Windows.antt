-- ===== src/LongForm/Windows.antt =====
-- `LongFormExtractionPlanner`: the plan of a transcript, its windows, and what the model is shown of one.
use mathlib.Core.Option
use mura_project.Prelude.{
  ℕ, ◌+◌, ◌-◌, max, String, Bool, true, false, ◌&&◌, Option, none, some, List, [], ◌∷◌, ◌++◌, map,
  if◌then◌else◌, ltb, length, any, select, str_eq, is_empty,
}
use mura_project.LongForm.Tokens.{Text, Platform, count_words, estimate_tokens}
use mura_project.LongForm.Segments.{
  RawSegment, TranscriptEnvelope, LongFormPolicy, text_eq, total_tokens,
}
use mura_project.LongForm.Slices.{expand_oversized_segments}
use mura_project.LongForm.Groups.{group_segments, coalesce_to_budget}

pub data LongFormMode : Type 0 where
  short : LongFormMode
  windowed : LongFormMode

pub record SegmentSlice : Type 0 where
  pub segment_id : String
  pub start_char : ℕ
  pub end_char : ℕ

pub record TranscriptWindow (Seconds : Type 0) : Type 0 where
  pub ordinal : ℕ
  pub source_segment_ids : List String
  pub start_seconds : Seconds
  pub end_seconds : Seconds
  pub estimated_token_count : ℕ
  pub overlap_segment_ids : List String
  pub boundary_reason : String
  pub segment_slices : List SegmentSlice

pub record WindowPlan (Seconds : Type 0) : Type 0 where
  pub recording_id : String
  pub mode : LongFormMode
  pub decision_reasons : List String
  pub segment_count : ℕ
  pub normalized_token_count : ℕ
  pub estimated_input_tokens : ℕ
  pub maximum_segment_tokens : ℕ
  pub windows : List (TranscriptWindow Seconds)

-- `list(dict.fromkeys(...))`, with the texts seen so far
unfoldable pub unique_texts : List String → List String → List String
unique_texts seen [] = []
unique_texts seen (s ∷ texts) =
    let old = any (str_eq s) seen in
    let rest = unique_texts (s ∷ seen) texts in if old then rest else s ∷ rest

-- Whether the text starts with the word.
abbrev pub starts_with : Text → Text → Bool
starts_with [] text = true
starts_with (c ∷ word) [] = false
starts_with (c ∷ word) (d ∷ text) = text_eq (c ∷ []) (d ∷ []) && starts_with word text

-- `text.find(word)`, from the given position on
unfoldable pub find_text : Text → ℕ → Text → Option ℕ
find_text word i [] = if is_empty word then some i else none
find_text word i (c ∷ text) =
    let rest = find_text word (i + 1) text in if starts_with word (c ∷ text) then some i else rest

-- `source[segment_id]`, the dictionary built from the list: the last entry of a key wins.
unfoldable pub find_last : {A : Type 0} → (A → String) → String → List A → Option A
find_last key k [] = none
find_last key k (x ∷ xs) = elim (find_last key k xs) [
  | some y ↦ some y
  | none ↦ if str_eq (key x) k then some x else none
]

module _ {Seconds : Type 0} where
  abbrev pub segment_key : RawSegment Seconds → String
  segment_key s = s.segment_id

  -- The slice that a piece is of its segment, where its text differs from the segment's.
  unfoldable pub slice_of : List (RawSegment Seconds) → RawSegment Seconds → List SegmentSlice
  unfolding find_text find_last
  slice_of segments piece = elim (find_last segment_key piece.segment_id segments) [
    | none ↦ []
    | some original ↦
        if text_eq piece.text original.text
        then []
        else elim (find_text piece.text 0 original.text) [
          | none ↦ []
          | some start_char ↦
              record {
                segment_id = piece.segment_id;
                start_char = start_char;
                end_char = start_char + length piece.text;
              }
              ∷ []
        ]
  ]

  unfoldable pub slices_of :
      List (RawSegment Seconds) → List (RawSegment Seconds) → List SegmentSlice
  unfolding slice_of
  slices_of segments [] = []
  slices_of segments (piece ∷ pieces) = slice_of segments piece ++ slices_of segments pieces

module _ {Seconds : Type 0} (os : Platform Seconds) (policy : LongFormPolicy Seconds) where
  -- `min(item.start ...)` and `max(item.end ...)`, from the first segment on
  abbrev pub earliest : Seconds → List (RawSegment Seconds) → Seconds
  earliest t [] = t
  earliest t (s ∷ segments) = earliest (os.earlier t s.start) segments

  abbrev pub latest : Seconds → List (RawSegment Seconds) → Seconds
  latest t [] = t
  latest t (s ∷ segments) = latest (os.later t s.end) segments

  -- `_window`; its callers never pass an empty group, for which `min` raises: `none`.
  unfoldable pub window :
      TranscriptEnvelope Seconds
      → ℕ
      → List (RawSegment Seconds)
      → List String
      → String
      → Option (TranscriptWindow Seconds)
  unfolding slices_of unique_texts
  window transcript ordinal [] overlap_ids boundary_reason = none
  window transcript ordinal (s ∷ segments) overlap_ids boundary_reason = some (record {
    ordinal = ordinal;
    source_segment_ids = unique_texts [] (map segment_key (s ∷ segments));
    start_seconds = earliest s.start segments;
    end_seconds = latest s.end segments;
    estimated_token_count = total_tokens os (s ∷ segments);
    overlap_segment_ids = overlap_ids;
    boundary_reason = boundary_reason;
    segment_slices = slices_of transcript.segments (s ∷ segments);
  })

  -- The loop over the groups, with `index` and `prior_ids`.
  unfoldable pub windows_from :
      TranscriptEnvelope Seconds
      → ℕ
      → List String
      → List (List (RawSegment Seconds))
      → Option (List (TranscriptWindow Seconds))
  unfolding window Option.bind
  windows_from transcript index prior_ids [] = some []
  windows_from transcript index prior_ids (group ∷ groups) =
      let ids = map segment_key group in
      let overlap_ids = unique_texts [] (select (λ k. any (str_eq k) prior_ids) ids) in
      let reason =
        if is_empty groups then "final_segment" else "bounded_token_or_semantic_boundary" in
      Option.bind (window transcript index group overlap_ids reason) (λ w.
        Option.map (λ rest. w ∷ rest)
          (windows_from transcript (index + 1) (ids ++ prior_ids) groups))

  unfoldable pub windowed_groups :
      TranscriptEnvelope Seconds → Option (List (List (RawSegment Seconds)))
  unfolding expand_oversized_segments group_segments coalesce_to_budget
  windowed_groups transcript =
      Option.map (λ expanded. coalesce_to_budget os policy (group_segments os policy [] 0 expanded))
        (expand_oversized_segments os policy transcript.segments)

  -- `_windowed`
  unfoldable pub windowed_windows :
      TranscriptEnvelope Seconds → Option (List (TranscriptWindow Seconds))
  unfolding windowed_groups windows_from Option.bind
  windowed_windows transcript =
      Option.bind (windowed_groups transcript) (λ groups. windows_from transcript 1 [] groups)

  abbrev reason : Bool → String → List String → List String
  reason test name rest = if test then name ∷ rest else rest

  unfoldable pub decision_reasons : ℕ → ℕ → ℕ → ℕ → List String
  decision_reasons segment_count normalized_tokens estimated_input maximum_segment_tokens =
      let available = policy.model_context_tokens - policy.expected_schema_tokens in
      reason (ltb policy.segment_count_threshold segment_count) "segment_count" (
        reason (ltb policy.normalized_token_threshold normalized_tokens) "normalized_tokens" (
          reason (ltb policy.estimated_input_token_threshold estimated_input)
            "estimated_input_tokens"
            (reason (ltb policy.maximum_segment_tokens maximum_segment_tokens) "oversized_segment"
              (reason (ltb available estimated_input) "provider_context_limit" []))))

  abbrev total_words : List (RawSegment Seconds) → ℕ
  total_words [] = 0
  total_words (s ∷ segments) = count_words os s.text + total_words segments

  abbrev most_tokens : List (RawSegment Seconds) → ℕ
  most_tokens [] = 0
  most_tokens (s ∷ segments) = max (estimate_tokens os s.text) (most_tokens segments)

  -- The reasons of the transcript against a single pass.
  unfoldable pub reasons_of : TranscriptEnvelope Seconds → List String
  unfolding decision_reasons
  reasons_of transcript =
      decision_reasons (length transcript.segments) (total_words transcript.segments)
        (total_tokens os transcript.segments + policy.prompt_overhead_tokens)
        (most_tokens transcript.segments)

  unfoldable pub plan_windows :
      TranscriptEnvelope Seconds → List String → Option (List (TranscriptWindow Seconds))
  unfolding windowed_windows window
  plan_windows transcript [] =
      Option.map (λ w. w ∷ []) (window transcript 1 transcript.segments [] "short_path")
  plan_windows transcript (r ∷ reasons) = windowed_windows transcript

  -- The plan with its windows filled in.
  abbrev pub plan_of :
      TranscriptEnvelope Seconds
      → List String
      → List (TranscriptWindow Seconds)
      → WindowPlan Seconds
  plan_of transcript reasons windows = record {
    recording_id = transcript.recording_id;
    mode = if is_empty reasons then short else windowed;
    decision_reasons = if is_empty reasons then "within_single_pass_limits" ∷ [] else reasons;
    segment_count = length transcript.segments;
    normalized_token_count = total_words transcript.segments;
    estimated_input_tokens = total_tokens os transcript.segments + policy.prompt_overhead_tokens;
    maximum_segment_tokens = most_tokens transcript.segments;
    windows = windows;
  }

  unfoldable pub plan : TranscriptEnvelope Seconds → Option (WindowPlan Seconds)
  unfolding reasons_of plan_windows
  plan transcript =
      let reasons = reasons_of transcript in
      Option.map (plan_of transcript reasons) (plan_windows transcript reasons)
