-- ===== src/Books/Stubs.antt =====
-- `create_chapter_stubs` of storage/book.py run once and again, and the chapter that a worker turns to next.
use mathlib.Core.List.{append_assoc}
use mura_project.Prelude.{
  ◌||◌, ◌&&◌, not, ltb, ◌>>=◌, ℕ, ◌≤◌, ◌≡◌, refl, sym, ◌∙◌, String, Bool, true, false, none, some,
  List, [], ◌∷◌, ◌++◌, any, All, All-map, str_eq, eq_refl, ok, Bool-cases, inl, inr, arith, ◌↔◌,
  Memᴰ,
}
use mura_project.Prelude.Table.{
  first_by-holds, first_by-least, first_by-none, first_by-eq-none, first_by-mem,
}
use mura_project.Books.Rows.{planned, BookChapterRow, Database, is_chapter, is_approved}
use mura_project.Books.Guard.{Writer, guard_worker_write}
use mura_project.Books.Chapters.{
  ChapterPlan, number_of, new_stub, add_stub, add_stubs, create_chapter_stubs, is_unfinished,
  get_first_unfinished_chapter,
}

abbrev pub has_chapter : String → List BookChapterRow → ChapterPlan → Bool
has_chapter book_id rows plan = any (is_chapter book_id (number_of plan)) rows

-- Every plan has its chapter, and the new chapters, all planned, came before the old ones.
pub record Stubbed (book_id : String) (plans : List ChapterPlan) (rows rows' : List BookChapterRow)
    : Type 0 where
  pub covered : All (λ plan. has_chapter book_id rows' plan ≡ true) plans
  pub added : List BookChapterRow
  pub added_planned : All (λ r. r.status ≡ planned) added
  pub kept : rows' ≡ added ++ rows

module _ (title : ℕ → String) (id : ChapterPlan → String) (book_id : String) (now : ℕ) where
  is_chapter-new_stub :
      (plan : ChapterPlan)
      → is_chapter book_id (number_of plan) (new_stub title id book_id now plan) ≡ true
  unfolding new_stub
  is_chapter-new_stub plan = rw (eq_refl book_id) (ground arith)

  add_stub-has_chapter :
      (plan : ChapterPlan) (rows : List BookChapterRow)
      → has_chapter book_id (add_stub title id book_id now plan rows) plan ≡ true
  unfolding add_stub
  add_stub-has_chapter plan rows = elim (Bool-cases (has_chapter book_id rows plan)) [
    | inl h ↦ rw h h
    | inr h ↦ rw (h, is_chapter-new_stub plan)
  ]

  add_stub-keeps :
      (plan other : ChapterPlan) (rows : List BookChapterRow)
      → has_chapter book_id rows other ≡ true
      → has_chapter book_id (add_stub title id book_id now plan rows) other ≡ true
  unfolding add_stub
  add_stub-keeps plan other rows h = elim (Bool-cases (has_chapter book_id rows plan)) [
    | inl e ↦ rw e h
    | inr e ↦ rw e (ground arith)
  ]

  add_stubs-keeps :
      (plans : List ChapterPlan) (other : ChapterPlan) (rows : List BookChapterRow)
      → has_chapter book_id rows other ≡ true
      → has_chapter book_id (add_stubs title id book_id now plans rows) other ≡ true
  unfolding add_stubs
  add_stubs-keeps [] other rows h = h
  add_stubs-keeps (plan ∷ plans) other rows h =
      add_stubs-keeps plans other (add_stub title id book_id now plan rows)
        (add_stub-keeps plan other rows h)

  add_stubs-covered :
      (plans : List ChapterPlan) (rows : List BookChapterRow)
      → All
          (λ plan. has_chapter book_id (add_stubs title id book_id now plans rows) plan ≡ true)
          plans
  unfolding add_stubs
  add_stubs-covered [] rows = tt
  add_stubs-covered (plan ∷ plans) rows = (
    add_stubs-keeps plans plan (add_stub title id book_id now plan rows)
        (add_stub-has_chapter plan rows),
    add_stubs-covered plans (add_stub title id book_id now plan rows),
  )

  add_stubs-Stubbed :
      (plans : List ChapterPlan) (rows : List BookChapterRow)
      → (added : List BookChapterRow) × All (λ r. r.status ≡ planned) added
        × (add_stubs title id book_id now plans rows ≡ added ++ rows)
  unfolding add_stubs add_stub new_stub
  add_stubs-Stubbed [] rows = ([], tt, refl)
  add_stubs-Stubbed (plan ∷ plans) rows = elim (Bool-cases (has_chapter book_id rows plan)) [
    | inl h ↦ let (added, p, e) = add_stubs-Stubbed plans rows in (added, p, rw h e)
    | inr h ↦
        let stub : BookChapterRow = new_stub title id book_id now plan in
        let (added, p, e) = add_stubs-Stubbed plans (stub ∷ rows) in
        (
          added ++ (stub ∷ []),
          All-append added p,
          rw h (e ∙ sym (append_assoc added (stub ∷ []) rows)),
        )
  ]
    where
      All-append :
          (xs : List BookChapterRow)
          → All (λ r. r.status ≡ planned) xs
          → All (λ r. r.status ≡ planned) (xs ++ (new_stub title id book_id now plan ∷ []))
      All-append [] p = (refl, tt)
      All-append (x ∷ xs) p = (p.0, All-append xs p.1)

  add_stubs_idem :
      (plans : List ChapterPlan) (rows : List BookChapterRow)
      → All (λ plan. has_chapter book_id rows plan ≡ true) plans
      → add_stubs title id book_id now plans rows ≡ rows
  unfolding add_stubs add_stub
  add_stubs_idem [] rows h = refl
  add_stubs_idem (plan ∷ plans) rows h = rw h.0 (add_stubs_idem plans rows h.1)

abbrev with_chapters : Database → List BookChapterRow → Database
with_chapters db rows = record db { chapters = rows }

-- When stubs are created, every plan gets its chapter, no chapter that was there changes, and the new ones
-- are planned. A worker that comes back later and creates the same stubs again, under new ids, changes
-- nothing or is refused by the fence.
pub create_chapter_stubs-Stubbed :
    (title : ℕ → String) (id id' : ChapterPlan → String) (book_id : String)
    (plans : List ChapterPlan) (writer writer' : Writer) (now now' : ℕ) (db : Database)
    → guard_worker_write book_id writer db ≡ ok tt
    → (db' : Database) × (create_chapter_stubs title id book_id plans writer now db ≡ ok db')
      × Stubbed book_id plans db.chapters db'.chapters
      × (create_chapter_stubs title id' book_id plans writer' now' db'
          ≡ (guard_worker_write book_id writer' db' >>= (λ u. ok db')))
unfolding create_chapter_stubs
create_chapter_stubs-Stubbed title id id' book_id plans writer writer' now now' db g =
    let rows : List BookChapterRow = add_stubs title id book_id now plans db.chapters in
    let (added, p, e) = add_stubs-Stubbed title id book_id now plans db.chapters in
    let covered : All (λ plan. has_chapter book_id rows plan ≡ true) plans =
      add_stubs-covered title id book_id now plans db.chapters in
    (
      with_chapters db rows,
      rw g,
      record { covered = covered; added = added; added_planned = p; kept = e },
      rw (add_stubs_idem title id' book_id now' plans rows covered) refl,
    )

-- A chapter of the book that comes before `n` is approved.
abbrev pub IsDoneBefore : String → ℕ → BookChapterRow → Type 0
IsDoneBefore book_id n r =
    (not (str_eq r.book_id book_id && ltb r.chapter_number n) || is_approved r.status) ≡ true

abbrev pub IsDone : String → BookChapterRow → Type 0
IsDone book_id r = (not (str_eq r.book_id book_id) || is_approved r.status) ≡ true

done_of_least :
    (book_id : String) (n : ℕ) (r : BookChapterRow)
    → (is_unfinished book_id r ≡ true → n ≤ r.chapter_number)
    → IsDoneBefore book_id n r
done_of_least book_id n r h = ground arith

-- The chapter that a worker turns to next is one of the book that is not approved, and every chapter of the
-- book before it is approved.
pub get_first_unfinished_chapter-first :
    (book_id : String) (db : Database) (r : BookChapterRow)
    → get_first_unfinished_chapter book_id db ≡ some r
    → Memᴰ r db.chapters
      × (is_unfinished book_id r ≡ true)
      × All (IsDoneBefore book_id r.chapter_number) db.chapters
unfolding get_first_unfinished_chapter
get_first_unfinished_chapter-first book_id db r h = (
  first_by-mem _ _ db.chapters h,
  first_by-holds _ _ db.chapters h,
  All-map (λ s k. done_of_least book_id r.chapter_number s k) db.chapters
      (first_by-least _ _ db.chapters h),
)

-- There is none exactly if every chapter of the book is approved.
get_first_unfinished_chapter-none :
    (book_id : String) (db : Database)
    → (get_first_unfinished_chapter book_id db ≡ none) ↔ All (IsDone book_id) db.chapters
unfolding get_first_unfinished_chapter
get_first_unfinished_chapter-none book_id db = (
  λ h. All-map (λ s f. ground arith) db.chapters (first_by-none _ _ db.chapters h),
  λ h. first_by-eq-none _ _ db.chapters (All-map (λ s d. unfinished_of_done s d) db.chapters h),
)
  where
    unfinished_of_done : (s : BookChapterRow) → IsDone book_id s → is_unfinished book_id s ≡ false
    unfinished_of_done s d = ground arith
