-- ===== src/Snapshots/Ids.antt =====
-- Sets of ids as the validation compares them (book/snapshot_validation.py).
use mura_project.Prelude.{
  ◌≡◌, String, Bool, true, false, ◌&&◌, List, [], ◌∷◌, if◌then◌else◌, ◌==◌, any, all, length,
  str_eq,
}
use mura_project.Prelude.Texts.{text_lt}

unfoldable pub insert_id : String → List String → List String
insert_id k [] = k ∷ []
insert_id k (x ∷ xs) =
    let rest = insert_id k xs in
    if str_eq k x then x ∷ xs else if text_lt k x then k ∷ x ∷ xs else x ∷ rest

-- `_exact_ids`, `sorted(set(values))`
unfoldable pub exact_ids : List String → List String
exact_ids [] = []
exact_ids (k ∷ values) = insert_id k (exact_ids values)

-- `==` on lists of texts
unfoldable pub is_same_ids : List String → List String → Bool
is_same_ids [] [] = true
is_same_ids [] (y ∷ ys) = false
is_same_ids (x ∷ xs) [] = false
is_same_ids (x ∷ xs) (y ∷ ys) = str_eq x y && is_same_ids xs ys

-- Whether `set(xs) - set(ys)` is empty.
abbrev pub is_within : List String → List String → Bool
is_within xs ys = all (λ k. any (str_eq k) ys) xs

-- `len(set(values)) == len(values)`
unfoldable pub is_unique : List String → Bool
is_unique values = length (exact_ids values) == length values

-- No id comes twice.
abbrev pub IsUnique : List String → Type 0
IsUnique [] = Unit
IsUnique (k ∷ values) = (any (str_eq k) values ≡ false) × IsUnique values

-- The two lists have the same ids.
abbrev pub IsSame : List String → List String → Type 0
IsSame xs ys = (k : String) → any (str_eq k) xs ≡ any (str_eq k) ys

abbrev pub IsIn : String → List String → Type 0
IsIn k xs = any (str_eq k) xs ≡ true

-- Every id of the first list is in the second.
abbrev pub IsWithin : List String → List String → Type 0
IsWithin xs ys = (k : String) → IsIn k xs → IsIn k ys
