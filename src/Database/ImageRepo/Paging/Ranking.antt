-- ===== src/Database/ImageRepo/Paging/Ranking.antt =====
-- `SELECT ... WHERE ... ORDER BY id DESC`: the sorted selection is newest first and has the selected
-- rows, as often as the table.
use text2image.Base.{
  ℕ, zero, suc, ◌+◌, ◌≤◌, ◌≤ℤ◌, ◌≡◌, refl, Bool, true, ◌&&◌, List, [], ◌∷◌, All, All-map, length,
  take, if◌then◌else◌, arith, Bool-cases, inl, inr,
}
use text2image.Database.Table.{Row, newer_id, select_where, order_by, insert_sorted, count_where}

-- Newest first.
abbrev pub IsDescending : List Row → Type 0
IsDescending [] = Unit {0}
IsDescending (r ∷ rs) = All (λ s. s.id ≤ℤ r.id) rs × IsDescending rs

module _ (P : Row → Type 0) where
  insert-All :
      (before : Row → Row → Bool) (r : Row) (rs : List Row)
      → P r
      → All P rs
      → All P (insert_sorted before r rs)
  unfolding insert_sorted
  insert-All before r [] x a = (x, tt)
  insert-All before r (s ∷ rs) x a = elim (Bool-cases (before r s)) [
    | inl e ↦ rw (e, insert_sorted) (x, a)
    | inr e ↦ rw (e, insert_sorted) (a.0, insert-All before r rs x a.1)
  ]

  pub order-All :
      (before : Row → Row → Bool) (rs : List Row) → All P rs → All P (order_by before rs)
  unfolding order_by
  order-All before [] a = tt
  order-All before (r ∷ rs) a =
      insert-All before r (order_by before rs) a.0 (order-All before rs a.1)

pub select-All : (p : Row → Bool) (rs : List Row) → All (λ r. p r ≡ true) (select_where p rs)
unfolding select_where
select-All p [] = tt
select-All p (r ∷ rs) = elim (Bool-cases (p r)) [
  | inl e ↦ rw (e, select_where) (e, select-All p rs)
  | inr e ↦ rw (e, select_where) (select-All p rs)
]

insert-IsDescending :
    (r : Row) (rs : List Row) → IsDescending rs → IsDescending (insert_sorted newer_id r rs)
unfolding insert_sorted
insert-IsDescending r [] d = (tt, tt)
insert-IsDescending r (s ∷ rs) d = elim (Bool-cases (newer_id r s)) [
  | inl e ↦ rw (e, insert_sorted) ((below e, All-map _ _ (λ x h. under e x h) rs d.0), d)
  | inr e ↦
      rw (e, insert_sorted)
        (
          insert-All (λ x. x.id ≤ℤ s.id) newer_id r rs (ground arith) d.0,
          insert-IsDescending r rs d.1,
        )
]
  where
    below : newer_id r s ≡ true → s.id ≤ℤ r.id
    below e = ground arith

    under : newer_id r s ≡ true → (x : Row) → x.id ≤ℤ s.id → x.id ≤ℤ r.id
    under e x h = ground arith

pub order-IsDescending : (rs : List Row) → IsDescending (order_by newer_id rs)
unfolding order_by
order-IsDescending [] = tt
order-IsDescending (r ∷ rs) = insert-IsDescending r (order_by newer_id rs) (order-IsDescending rs)

pub length-take-le : (n : ℕ) (rs : List Row) → length (take n rs) ≤ n
length-take-le zero rs = omega arith
length-take-le (suc n) [] = omega arith
length-take-le (suc n) (r ∷ rs) = omega (arith, length-take-le n rs)

length-insert :
    (before : Row → Row → Bool) (r : Row) (rs : List Row)
    → length (insert_sorted before r rs) ≡ suc (length rs)
unfolding insert_sorted
length-insert before r [] = refl
length-insert before r (s ∷ rs) = ground (arith, length-insert before r rs)

pub length-order :
    (before : Row → Row → Bool) (p : Row → Bool) (rs : List Row)
    → length (order_by before (select_where p rs)) ≡ count_where p rs
unfolding order_by select_where count_where
length-order before p [] = refl
length-order before p (r ∷ rs) =
    ground (
      arith,
      length-order before p rs,
      length-insert before r (order_by before (select_where p rs)),
    )

count-insert :
    (q : Row → Bool) (before : Row → Row → Bool) (r : Row) (rs : List Row)
    → count_where q (insert_sorted before r rs) ≡ (if q r then 1 else 0) + count_where q rs
unfolding insert_sorted count_where
count-insert q before r [] = refl
count-insert q before r (s ∷ rs) = ground (arith, count-insert q before r rs)

-- The sorted selection has the selected rows, as often.
pub count-order :
    (q : Row → Bool) (before : Row → Row → Bool) (p : Row → Bool) (rs : List Row)
    → count_where q (order_by before (select_where p rs)) ≡ count_where (λ r. p r && q r) rs
unfolding order_by select_where count_where
count-order q before p [] = refl
count-order q before p (r ∷ rs) = elim (Bool-cases (p r)) [
  | inl e ↦
      rw
        (
          e,
          count-insert q before r (order_by before (select_where p rs)),
          count-order q before p rs,
        )
        refl
  | inr e ↦ rw (e, count-order q before p rs) (omega arith)
]
