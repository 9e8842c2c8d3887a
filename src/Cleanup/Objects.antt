-- ===== src/Cleanup/Objects.antt =====
-- What `enqueue_many` promises: one row for each object, and no row is lost or changed.
use mathlib.Core.Path.{ap₂}
use mathlib.Core.List.{append_assoc}
use mura_project.Prelude.{
  refl, sym, ◌∙◌, not, ◌||◌, ◌++◌, eq_iff, select, inl, inr, ℕ, ◌≡◌, String, Bool, true, false,
  List, [], ◌∷◌, arith, All, Bool-cases, any, eq_refl,
}
use mura_project.Cleanup.Rows.{StorageCleanupJobRow, CleanupItem, is_object, is_same_object}
use mura_project.Cleanup.Enqueue.{new_row, enqueue_cleanup, unique_items, enqueue_all, enqueue_many}

-- Whether two rows are of one object.
abbrev pub item_of : StorageCleanupJobRow → CleanupItem
item_of r = record {
  resource_type = r.resource_type;
  storage_kind = r.storage_kind;
  storage_backend = r.storage_backend;
  storage_key = r.storage_key;
}

-- The constraint `uq_storage_cleanup_object`.
abbrev pub HasUniqueObjects : List StorageCleanupJobRow → Type 0
HasUniqueObjects [] = Unit
HasUniqueObjects (r ∷ rows) = (any (is_object (item_of r)) rows ≡ false) × HasUniqueObjects rows

abbrev pub has_row : List StorageCleanupJobRow → CleanupItem → Bool
has_row rows item = any (is_object item) rows

is_object-new_row :
    (item : CleanupItem) (id : String) (max_attempts now : ℕ)
    → is_object item (new_row item id max_attempts now) ≡ true
unfolding new_row
is_object-new_row item id max_attempts now =
    rw (eq_refl item.storage_kind, eq_refl item.storage_backend, eq_refl item.storage_key)

module _ (id : CleanupItem → String) (max_attempts now : ℕ) where
  pub enqueue_cleanup-has_row :
      (item : CleanupItem) (rows : List StorageCleanupJobRow)
      → has_row (enqueue_cleanup item (id item) max_attempts now rows) item ≡ true
  unfolding enqueue_cleanup
  enqueue_cleanup-has_row item rows = elim (Bool-cases (any (is_object item) rows)) [
    | inl h ↦ rw h h
    | inr h ↦ rw (h, is_object-new_row item (id item) max_attempts now)
  ]

  enqueue_cleanup-keeps :
      (item other : CleanupItem) (rows : List StorageCleanupJobRow)
      → has_row rows other ≡ true
      → has_row (enqueue_cleanup item (id item) max_attempts now rows) other ≡ true
  unfolding enqueue_cleanup
  enqueue_cleanup-keeps item other rows h = elim (Bool-cases (any (is_object item) rows)) [
    | inl e ↦ rw e h
    | inr e ↦ rw e (ground arith)
  ]

  enqueue_all-keeps :
      (items : List CleanupItem) (other : CleanupItem) (rows : List StorageCleanupJobRow)
      → has_row rows other ≡ true
      → has_row (enqueue_all id max_attempts now items rows) other ≡ true
  unfolding enqueue_all
  enqueue_all-keeps [] other rows h = h
  enqueue_all-keeps (item ∷ items) other rows h =
      enqueue_all-keeps items other (enqueue_cleanup item (id item) max_attempts now rows)
        (enqueue_cleanup-keeps item other rows h)

  enqueue_all-has_rows :
      (items : List CleanupItem) (rows : List StorageCleanupJobRow)
      → All (λ item. has_row (enqueue_all id max_attempts now items rows) item ≡ true) items
  unfolding enqueue_all
  enqueue_all-has_rows [] rows = tt
  enqueue_all-has_rows (item ∷ items) rows = (
    enqueue_all-keeps items item (enqueue_cleanup item (id item) max_attempts now rows)
        (enqueue_cleanup-has_row item rows),
    enqueue_all-has_rows items (enqueue_cleanup item (id item) max_attempts now rows),
  )

  -- New rows go before the old ones, which stay as they are.
  enqueue_all-prefix :
      (items : List CleanupItem) (rows : List StorageCleanupJobRow)
      → (added : List StorageCleanupJobRow) × (enqueue_all id max_attempts now items rows
          ≡ added ++ rows)
  unfolding enqueue_all enqueue_cleanup
  enqueue_all-prefix [] rows = ([], refl)
  enqueue_all-prefix (item ∷ items) rows = elim (Bool-cases (any (is_object item) rows)) [
    | inl h ↦ let (added, e) = enqueue_all-prefix items rows in (added, rw h e)
    | inr h ↦
        let (added, e) =
          enqueue_all-prefix items (new_row item (id item) max_attempts now ∷ rows) in
        (
          added ++ (new_row item (id item) max_attempts now ∷ []),
          rw h (e ∙ sym (append_assoc added (new_row item (id item) max_attempts now ∷ []) rows)),
        )
  ]

  enqueue_all-HasUniqueObjects :
      (items : List CleanupItem) (rows : List StorageCleanupJobRow)
      → HasUniqueObjects rows
      → HasUniqueObjects (enqueue_all id max_attempts now items rows)
  unfolding enqueue_all enqueue_cleanup new_row
  enqueue_all-HasUniqueObjects [] rows u = u
  enqueue_all-HasUniqueObjects (item ∷ items) rows u =
      elim (Bool-cases (any (is_object item) rows)) [
        | inl h ↦ rw h (enqueue_all-HasUniqueObjects items rows u)
        | inr h ↦ rw h (
            enqueue_all-HasUniqueObjects items (new_row item (id item) max_attempts now ∷ rows)
              (h, u))
      ]

is_object_same :
    (a b : CleanupItem) (r : StorageCleanupJobRow)
    → is_same_object a b ≡ true
    → is_object a r ≡ is_object b r
is_object_same a b r h = ground (
  arith,
  eq_iff a.storage_kind b.storage_kind,
  eq_iff a.storage_backend b.storage_backend,
  eq_iff a.storage_key b.storage_key,
)

has_row_same :
    (a b : CleanupItem) (rows : List StorageCleanupJobRow)
    → is_same_object a b ≡ true
    → has_row rows a ≡ has_row rows b
has_row_same a b [] h = refl
has_row_same a b (r ∷ rows) h = ap₂ ◌||◌ (is_object_same a b r h) (has_row_same a b rows h)

All-of_select :
    (P : CleanupItem → Type 0) (q : CleanupItem → Bool) (xs : List CleanupItem)
    → ((x : CleanupItem) → q x ≡ false → P x)
    → All P (select q xs)
    → All P xs
All-of_select P q [] d h = tt
All-of_select P q (x ∷ xs) d h = elim (Bool-cases (q x)) [
  | inl e ↦
      let kept : All P (x ∷ select q xs) = rw e at h in (kept.0, All-of_select P q xs d kept.1)
  | inr e ↦ (d x e, All-of_select P q xs d (rw e at h))
]

All-of_unique_items :
    (rows : List StorageCleanupJobRow) (items : List CleanupItem)
    → All (λ item. has_row rows item ≡ true) (unique_items items)
    → All (λ item. has_row rows item ≡ true) items
unfolding unique_items
All-of_unique_items rows [] h = tt
All-of_unique_items rows (item ∷ items) h = (
  h.0,
  All-of_unique_items rows items (
      All-of_select _ (λ other. not (is_same_object item other)) (unique_items items)
        (λ x e. sym (has_row_same item x rows (not_false _ e)) ∙ h.0) h.1),
)
  where
    not_false : (b : Bool) → not b ≡ false → b ≡ true
    not_false b e = ground arith

-- What `enqueue_many` leaves.
pub record Enqueued (items : List CleanupItem) (rows rows' : List StorageCleanupJobRow)
    : Type 0 where
  pub covered : All (λ item. any (is_object item) rows' ≡ true) items
  pub kept : (added : List StorageCleanupJobRow) × (rows' ≡ added ++ rows)
  pub unique : HasUniqueObjects rows'

-- From a table with one row an object, whatever objects are handed over and however often each: every
-- object has a row afterwards, still one row an object, and the old rows are as they were.
pub enqueue_many-Enqueued :
    (id : CleanupItem → String) (max_attempts now : ℕ) (items : List CleanupItem)
    (rows : List StorageCleanupJobRow)
    → HasUniqueObjects rows
    → Enqueued items rows (enqueue_many id max_attempts now items rows)
unfolding enqueue_many
enqueue_many-Enqueued id max_attempts now items rows u = record {
  covered =
      All-of_unique_items _ items
        (enqueue_all-has_rows id max_attempts now (unique_items items) rows);
  kept = enqueue_all-prefix id max_attempts now (unique_items items) rows;
  unique = enqueue_all-HasUniqueObjects id max_attempts now (unique_items items) rows u;
}
