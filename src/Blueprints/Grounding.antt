-- ===== src/Blueprints/Grounding.antt =====
-- What a valid blueprint refers to (book/blueprint_validation.py), in a snapshot that book/snapshot_validation.py
-- has accepted.
use mura_project.Prelude.{
  ℕ, ◌≡◌, ◌∙◌, refl, sym, String, Bool, true, false, ◌||◌, not, Option, some, List, [], ◌∷◌, ◌++◌,
  map, flatten, ◌==◌, any, any-append, All, All-map, ok, arith,
}
use mura_project.Blueprints.Plans.{
  ChapterPlan, BookBlueprint, BlueprintLimits, BlueprintIssueCode, BlueprintIssue, unsupported_year,
}
use mura_project.Blueprints.Years.{Characters}
use mura_project.Blueprints.Validation.{
  issue_if, is_blocker, has_grounding, has_unknown, chapter_budget_issues, reference_issues,
  year_issues, year_issue, chapter_years, chapter_anchor_issues, book_issues, chapter_issues,
  blueprint_issues, validate_blueprint,
}
use mura_project.Snapshots.Relationships.{Unicode}
use mura_project.Snapshots.Rows.{BookSourceSnapshot, person_key, claim_key, evidence_key}
use mura_project.Snapshots.Ids.{is_within, IsWithin, IsSame}
use mura_project.Snapshots.Sets.{is_within-IsWithin}
use mura_project.Snapshots.Validation.{selected, validate_snapshot_closure}
use mura_project.Snapshots.Closed.{IsClosed}
use mura_project.Snapshots.Acceptance.{validate_snapshot_closure-IsClosed}

any-issue_if :
    (test : Bool) (code : BlueprintIssueCode) (number : Option ℕ)
    → any is_blocker (issue_if test code number) ≡ test
any-issue_if true code number = refl
any-issue_if false code number = refl

any-flatten :
    {A : Type 0} (f : A → List BlueprintIssue) (xs : List A)
    → any is_blocker (flatten (map f xs)) ≡ false
    → All (λ x. any is_blocker (f x) ≡ false) xs
unfolding flatten
any-flatten f [] h = tt
any-flatten f (x ∷ xs) h =
    let split = any-append is_blocker (f x) (flatten (map f xs)) in
    (ground (arith, h, split), any-flatten f xs (ground (arith, h, split)))

has_unknown-not : (ids known : List String) → has_unknown ids known ≡ not (is_within ids known)
has_unknown-not [] known = refl
has_unknown-not (k ∷ ids) known = ground (arith, has_unknown-not ids known)

has_unknown-IsWithin :
    (ids known : List String) → has_unknown ids known ≡ false → IsWithin ids known
has_unknown-IsWithin ids known h =
    (is_within-IsWithin ids known).0 (ground (arith, h, has_unknown-not ids known))

IsWithin-IsSame : (xs ys zs : List String) → IsWithin xs zs → IsSame ys zs → IsWithin xs ys
IsWithin-IsSame xs ys zs w same k m = same k ∙ w k m

append_free :
    (xs ys : List BlueprintIssue)
    → any is_blocker (xs ++ ys) ≡ false
    → (any is_blocker xs ≡ false) × (any is_blocker ys ≡ false)
append_free xs ys h =
    let split = any-append is_blocker xs ys in (ground (arith, h, split), ground (arith, h, split))

module _ (os : Characters) (s : BookSourceSnapshot) where
  -- The chapter refers to something, and only to parts of the snapshot, selected recordings and allowed years.
  pub record IsGroundedChapter (ch : ChapterPlan) : Type 0 where
    pub grounded : has_grounding ch ≡ true
    pub people : IsWithin ch.person_ids (map person_key s.people)
    pub recordings : IsWithin ch.source_recording_ids (selected s)
    pub stories : IsWithin ch.source_story_ids (map (λ x. x.story_id) s.stories)
    pub claims : IsWithin ch.claim_ids (map claim_key s.claims)
    pub evidence : IsWithin ch.evidence_refs (map evidence_key s.evidence)
    pub years : All (λ y. any (λ m. y == m) s.allowed_years ≡ true) (chapter_years os ch)

  years_allowed :
      (ch : ChapterPlan)
      → any is_blocker (year_issues os s ch) ≡ false
      → All (λ y. any (λ m. y == m) s.allowed_years ≡ true) (chapter_years os ch)
  unfolding year_issues
  years_allowed ch h =
      All-map
        (λ y free. ground (
          arith,
          free,
          any-issue_if (not (any (λ m. y == m) s.allowed_years)) unsupported_year
              (some ch.chapter_number),
        ))
        (chapter_years os ch) (any-flatten (year_issue s ch) (chapter_years os ch) h)

  -- The tests of `reference_issues`
  abbrev reference_tests : ChapterPlan → Bool
  reference_tests ch =
      not (has_grounding ch)
      || has_unknown ch.person_ids (map person_key s.people)
      || has_unknown ch.source_recording_ids s.manifest.source_recording_ids
      || has_unknown ch.source_story_ids s.manifest.source_story_ids
      || has_unknown ch.claim_ids s.manifest.source_claim_ids
      || has_unknown ch.evidence_refs s.manifest.source_evidence_ids

  any-reference_issues :
      (ch : ChapterPlan) → any is_blocker (reference_issues s ch) ≡ reference_tests ch
  unfolding reference_issues
  any-reference_issues ch = simp (any-append, any-issue_if)

  chapter_free :
      (b : BookBlueprint) (lim : BlueprintLimits) (ch : ChapterPlan)
      → any is_blocker (chapter_issues os lim s b ch) ≡ false
      → (reference_tests ch ≡ false) × (any is_blocker (year_issues os s ch) ≡ false)
  unfolding chapter_issues
  chapter_free b lim ch h =
      let last : List BlueprintIssue = chapter_anchor_issues b ch in
      let sized : List BlueprintIssue = chapter_budget_issues lim ch in
      let referred : List BlueprintIssue = reference_issues s ch in
      let first = append_free (sized ++ referred ++ year_issues os s ch) last h in
      let second = append_free (sized ++ referred) (year_issues os s ch) first.0 in
      (sym (any-reference_issues ch) ∙ (append_free sized referred second.0).1, second.1)

  chapters_free :
      (b : BookBlueprint) (lim : BlueprintLimits)
      → (validate_blueprint os b s lim).valid ≡ true
      → All (λ ch. any is_blocker (chapter_issues os lim s b ch) ≡ false) b.chapters
  unfolding validate_blueprint blueprint_issues
  chapters_free b lim valid =
      any-flatten (chapter_issues os lim s b) b.chapters
        (append_free (book_issues os b s lim) (flatten (map (chapter_issues os lim s b) b.chapters))
          (ground (arith, valid))).1

  -- Every chapter of a valid blueprint refers to something, and refers only to people, claims, stories and pieces of
  -- evidence of the snapshot, if that has been accepted, to recordings selected for the book, and to
  -- years that the snapshot allows.
  pub validate_blueprint-IsGroundedChapter :
      (u : Unicode) (wanted : Option (List String)) (b : BookBlueprint) (lim : BlueprintLimits)
      → validate_snapshot_closure u s wanted ≡ ok tt
      → (validate_blueprint os b s lim).valid ≡ true
      → All IsGroundedChapter b.chapters
  validate_blueprint-IsGroundedChapter u wanted b lim accepted valid =
      let closed : IsClosed s u wanted =
        (validate_snapshot_closure-IsClosed s u wanted).0 accepted in
      All-map
        (λ ch free.
          let c = chapter_free b lim ch free in
          record {
            grounded = ground (arith, c.0);
            people = has_unknown-IsWithin ch.person_ids _ (ground (arith, c.0));
            recordings = has_unknown-IsWithin ch.source_recording_ids _ (ground (arith, c.0));
            stories =
                IsWithin-IsSame ch.source_story_ids (map (λ x. x.story_id) s.stories)
                  s.manifest.source_story_ids
                  (has_unknown-IsWithin ch.source_story_ids _ (ground (arith, c.0)))
                  closed.listed.stories;
            claims =
                IsWithin-IsSame ch.claim_ids (map claim_key s.claims) s.manifest.source_claim_ids
                  (has_unknown-IsWithin ch.claim_ids _ (ground (arith, c.0))) closed.listed.claims;
            evidence =
                IsWithin-IsSame ch.evidence_refs (map evidence_key s.evidence)
                  s.manifest.source_evidence_ids
                  (has_unknown-IsWithin ch.evidence_refs _ (ground (arith, c.0)))
                  closed.listed.evidence;
            years = years_allowed ch c.1;
          })
        b.chapters (chapters_free b lim valid)
