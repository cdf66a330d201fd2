-- ===== src/Database/ImageRepo/Paging.antt =====
-- The pages of `findByUserId` and `findByUserIdAndStatus` of Backend/src/database/ImageRepo.cpp.
mod Ranking
use text2image.Base.{
  ℕ, zero, suc, ◌+◌, ◌*◌, ◌≤◌, ltb, ℤ, eqb_ℤ, ◌≤ℤ◌, ◌≡◌, refl, Bool, true, ◌&&◌, List, [], ◌∷◌, All,
  All-map, length, take, drop, map, if◌then◌else◌, ok, arith, ap, ◌>>=◌, pure, Bool-cases, inl, inr,
}
use text2image.Utils.Chrono.{Time}
use text2image.Database.Table.{
  Row, Table, newer_id, select_where, order_by, insert_sorted, count_where,
}
use text2image.Errors.Repo.{repo_invoke}
use text2image.Database.Session.{execute, query}
use text2image.Database.ImageRepo.{
  ImagePageResult, find_by_user_id, normalize_page, normalize_size, row_to_image_generation,
  collect_paged_result_rows, is_empty_page,
}
use text2image.Database.ImageRepo.Ownership.{idle}
use Ranking.{
  IsDescending, order-All, select-All, order-IsDescending, length-take-le, length-order,
  count-order,
}

-- The page of a list of rows.
abbrev pub page_of : ℕ → ℕ → List Row → List Row
page_of size offset rows = take size (drop offset rows)

take-empty : (n : ℕ) (rs : List Row) → 1 ≤ n → [] ≡ take n rs → length rs ≡ 0
take-empty zero rs h e = omega (arith, h)
take-empty (suc n) [] h e = refl
take-empty (suc n) (r ∷ rs) h e = omega (arith, ap length e)

-- An empty page is past the end, or there is no row at all.
empty_total :
    (size offset count : ℕ) (rs : List Row)
    → 1 ≤ size
    → length rs ≡ count
    → [] ≡ page_of size offset rs
    → (if ltb 0 offset then count else 0) ≡ count
empty_total size zero count rs h l e = omega (arith, take-empty size rs h e, l)
empty_total size (suc offset) count rs h l e = ground arith

size-positive : (size : ℤ) → 1 ≤ normalize_size size
size-positive size = ground arith

-- A page of `findByUserId`: the user's tasks, all of them and each as often as the table has it, are
-- ranked newest first; the content is the stretch of them from `page * size` on, at most `size`
-- tasks, and the total is the number of the user's tasks, also on a page behind the end.
pub record IsPage (t : Table) (now : Time) (user : ℤ) (page size : ℕ) (result : ImagePageResult)
    : Type 0 where
  pub ranked : List Row
  pub users_tasks :
      (q : Row → Bool)
      → count_where q ranked ≡ count_where (λ r. eqb_ℤ r.user_id user && q r) t.rows
  pub users : All (λ r. eqb_ℤ r.user_id user ≡ true) ranked
  pub newest_first : IsDescending ranked
  pub shown :
      result.content ≡ map (row_to_image_generation now) (take size (drop (page * size) ranked))
  pub bounded : length result.content ≤ size
  pub total : result.total_elements ≡ count_where (λ r. eqb_ℤ r.user_id user) t.rows

-- What the two queries of a page come to.
abbrev page_result : Time → List Row → ℕ → ℕ → ℕ → ImagePageResult
page_result now [] offset matching total = record {
  content = [];
  total_elements = if ltb 0 offset then total else 0;
}
page_result now (r ∷ rs) offset matching total = record {
  content = map (row_to_image_generation now) (r ∷ rs);
  total_elements = matching;
}

module _ (t : Table) (now : Time) (user page size : ℤ) where
  abbrev is_mine : Row → Bool
  is_mine r = eqb_ℤ r.user_id user

  abbrev matching : List Row
  matching = order_by newer_id (select_where is_mine t.rows)

  abbrev offset : ℕ
  offset = normalize_page page * normalize_size size

  abbrev shown_rows : List Row
  shown_rows = page_of (normalize_size size) offset matching

  after_first_query :
      (rs : List Row)
      → repo_invoke
          (if is_empty_page (collect_paged_result_rows now rs (length matching)) && ltb 0 offset
            then (execute (query (count_where is_mine)) >>= λ total.
                pure (record (collect_paged_result_rows now rs (length matching)) {
                  total_elements = total;
                }))
            else pure (collect_paged_result_rows now rs (length matching)))
          (idle t now)
        ≡ (
          ok (page_result now rs offset (length matching) (count_where is_mine t.rows)),
          idle t now,
        )
  unfolding repo_invoke execute
  after_first_query [] = elim (Bool-cases (ltb 0 offset)) [ inl e ↦ rw e refl | inr e ↦ rw e refl ]
  after_first_query (r ∷ rs) = refl

  find_lem : find_by_user_id user page size (idle t now) ≡ (
    ok (page_result now shown_rows offset (length matching) (count_where is_mine t.rows)),
    idle t now,
  )
  unfolding find_by_user_id execute
  find_lem = after_first_query shown_rows

  page_total :
      (rs : List Row)
      → rs ≡ shown_rows
      → (page_result now rs offset (length matching) (count_where is_mine t.rows)).total_elements
        ≡ count_where is_mine t.rows
  page_total [] e =
      empty_total (normalize_size size) offset _ matching (size-positive size)
        (length-order newer_id is_mine t.rows) e
  page_total (r ∷ rs) e = length-order newer_id is_mine t.rows

  page_shown :
      (rs : List Row)
      → (page_result now rs offset (length matching) (count_where is_mine t.rows)).content
        ≡ map (row_to_image_generation now) rs
  page_shown [] = refl
  page_shown (r ∷ rs) = refl

  shown_length : (rs : List Row) → length (map (row_to_image_generation now) rs) ≡ length rs
  shown_length [] = refl
  shown_length (r ∷ rs) = ap suc (shown_length rs)

  shown_bounded :
      length
        (page_result now shown_rows offset (length matching) (count_where is_mine t.rows)).content
      ≤ normalize_size size
  shown_bounded =
      rw (page_shown shown_rows, shown_length shown_rows)
        (length-take-le (normalize_size size) (drop offset matching))

  -- The page that `findByUserId` returns, for any page number and size; a negative page is the first,
  -- and a size that is not positive is 10. Nothing fails and nobody else writes.
  pub find_by_user_id-IsPage :
      (result : ImagePageResult) × (find_by_user_id user page size (idle t now)
        ≡ (ok result, idle t now))
      × IsPage t now user (normalize_page page) (normalize_size size) result
  find_by_user_id-IsPage = (
    page_result now shown_rows offset (length matching) (count_where is_mine t.rows),
    find_lem,
    record {
      ranked = matching;
      users_tasks = λ q. count-order q newer_id is_mine t.rows;
      users = order-All _ newer_id _ (select-All is_mine t.rows);
      newest_first = order-IsDescending (select_where is_mine t.rows);
      shown = page_shown shown_rows;
      bounded = shown_bounded;
      total = page_total shown_rows refl;
    },
  )
