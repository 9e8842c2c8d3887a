-- ===== src/Prelude/Claim.antt =====
-- `SELECT ... ORDER BY created_at ... LIMIT 1` under `FOR UPDATE SKIP LOCKED`, and the write to the row
-- that it finds, over any table.
use mathlib.Core.Option
use mura_project.Prelude.Lists.{All}
use mura_project.Prelude.Table.{
  find, modify, HasUniqueKeys, find-modify_self, find-modify_ne, find_of_Mem, first_by,
  first_by-holds, first_by-mem, first_by-least, first_by-none, first_by-eq-none, All-modify,
  HasUniqueKeys-modify,
}
use Prim.Native.Nat.{ℕ, ◌≤◌}
use Prim.Native.String.{String}
use mathlib.Core.Path.{◌≡◌, refl, subst, ap, ◌∙◌}
use mathlib.Core.Logic.{◌↔◌}
use mathlib.Core.Bool.{Bool, true, false}
use mathlib.Core.Option.{Option, none, some}
use mathlib.Core.List.{List}
use text.Mathlib.Text.{◌==◌}

module _ {ℓ} {A : Type ℓ} (key : A → String) (free : A → Bool) (created : A → ℕ)
    (stamp : A → A) where
  abbrev pub stamp_chosen : List A → Option A → List A × Option A
  stamp_chosen rows none = (rows, none)
  stamp_chosen rows (some r) = (modify key (key r) stamp rows, some (stamp r))

  unfoldable pub take_first : List A → List A × Option A
  take_first rows = stamp_chosen rows (first_by free created rows)

  -- What was done when the row `r` was taken and returned as `job`.
  pub record Takes (rows : List A) (job r : A) : Type ℓ where
    pub stored : find key (key r) rows ≡ some r
    pub was_free : free r ≡ true
    pub oldest : All (λ s. free s ≡ true → created r ≤ created s) rows
    pub returned : job ≡ stamp r
    pub written : find key (key r) (take_first rows).0 ≡ some job
    pub others :
        (j : String) → (key r == j) ≡ false → find key j (take_first rows).0 ≡ find key j rows

  Takes-of_first :
      (rows : List A) {r : A}
      → ((x : A) → key (stamp x) ≡ key x)
      → HasUniqueKeys key rows
      → first_by free created rows ≡ some r
      → Takes rows (stamp r) r
  unfolding take_first
  Takes-of_first rows {r} keeps unique e =
      let here : find key (key r) rows ≡ some r =
        find_of_Mem key rows unique (first_by-mem free created rows e) in
      record {
        stored = here;
        was_free = first_by-holds free created rows e;
        oldest = first_by-least free created rows e;
        returned = refl;
        written = rw e (find-modify_self key (key r) stamp rows keeps ∙ ap (Option.map stamp) here);
        others = λ j ne. rw e (find-modify_ne key (key r) j stamp rows keeps ne);
      }

  pub take_first-Takes :
      (rows : List A) {job : A}
      → ((x : A) → key (stamp x) ≡ key x)
      → HasUniqueKeys key rows
      → (take_first rows).1 ≡ some job
      → (r : A) × Takes rows job r
  unfolding take_first
  take_first-Takes rows {job} keeps unique h = taken (first_by free created rows) refl h
    where
      taken :
          (o : Option A)
          → first_by free created rows ≡ o
          → (stamp_chosen rows o).1 ≡ some job
          → (r : A) × Takes rows job r
      taken none e p = absurd (cc)
      taken (some r) e p =
          let same : stamp r ≡ job = cc in
          (r, subst (λ j. Takes rows j r) same (Takes-of_first rows keeps unique e))

  pub take_first-none :
      (rows : List A) → ((take_first rows).1 ≡ none) ↔ All (λ r. free r ≡ false) rows
  unfolding take_first
  take_first-none rows = (
    λ h. first_by-none free created rows (chose_none (first_by free created rows) h),
    λ h. rw (first_by-eq-none free created rows h),
  )
    where
      chose_none : (o : Option A) → (stamp_chosen rows o).1 ≡ none → o ≡ none
      chose_none none e = refl
      chose_none (some r) e = absurd (cc)

  -- A property of every row survives, if the stamp keeps it on the rows that are free.
  pub take_first-All {κ} :
      (P : A → Type κ) (rows : List A)
      → ((x : A) → P x → free x ≡ true → P (stamp x))
      → HasUniqueKeys key rows
      → All P rows
      → All P (take_first rows).0
  unfolding take_first
  take_first-All P rows keep unique h = kept (first_by free created rows) refl
    where
      kept : (o : Option A) → first_by free created rows ≡ o → All P (stamp_chosen rows o).0
      kept none e = h
      kept (some r) e =
          let here : find key (key r) rows ≡ some r =
            find_of_Mem key rows unique (first_by-mem free created rows e) in
          let r_free : free r ≡ true = first_by-holds free created rows e in
          All-modify key P (key r) stamp rows
            (λ x at px. let same : r ≡ x = cc in keep x px (rw (← same) r_free)) h

  pub take_first-HasUniqueKeys :
      (rows : List A)
      → ((x : A) → key (stamp x) ≡ key x)
      → HasUniqueKeys key rows
      → HasUniqueKeys key (take_first rows).0
  unfolding take_first
  take_first-HasUniqueKeys rows keeps unique = kept (first_by free created rows)
    where
      kept : (o : Option A) → HasUniqueKeys key (stamp_chosen rows o).0
      kept none = unique
      kept (some r) = HasUniqueKeys-modify key (key r) stamp rows keeps unique
