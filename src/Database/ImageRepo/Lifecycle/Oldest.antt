-- ===== src/Database/ImageRepo/Lifecycle/Oldest.antt =====
-- The row that the subquery of `claimNextTask` names is one that may be claimed.
use text2image.Base.{
  ℕ, ℤ, eqb_ℤ, eqb_ℤ_iff, eqb_ℤ_refl, ◌≡◌, sym, ap, ◌∙◌, Bool, true, false, none, some, List, [],
  ◌∷◌, All, head?, arith, Bool-cases, inl, inr,
}
use mathlib.Core.Path.{subst}
use text2image.Database.Table.{Row, claimable, select_where, insert_sorted, order_by, older}
use text2image.Database.Table.Laws.{Distinct, find_row}
use text2image.Database.ImageRepo.Claims.{is_oldest_claimable}

abbrev IsFound : List Row → Row → Type 0
IsFound rows r = find_row r.id rows ≡ some r

IsFound-cons :
    (r : Row) (rows xs : List Row)
    → All (λ s. eqb_ℤ r.id s.id ≡ false) xs
    → All (IsFound rows) xs
    → All (IsFound (r ∷ rows)) xs
IsFound-cons r rows [] a f = tt
IsFound-cons r rows (x ∷ xs) a f = (rw (a.0) f.0, IsFound-cons r rows xs a.1 f.1)

All-IsFound : (rows : List Row) → Distinct rows → All (IsFound rows) rows
All-IsFound [] d = tt
All-IsFound (r ∷ rows) d =
    (rw (eqb_ℤ_refl r.id), IsFound-cons r rows rows d.0 (All-IsFound rows d.1))

module _ (P : Row → Type 0) where
  select-All :
      (p : Row → Bool) (rows : List Row)
      → All P rows
      → All (λ r. P r × (p r ≡ true)) (select_where p rows)
  unfolding select_where
  select-All p [] a = tt
  select-All p (r ∷ rows) a = elim (Bool-cases (p r)) [
    | inl e ↦ rw (e, select_where) ((a.0, e), select-All p rows a.1)
    | inr e ↦ rw (e, select_where) (select-All p rows a.1)
  ]

  insert-All :
      (before : Row → Row → Bool) (r : Row) (rows : List Row)
      → P r
      → All P rows
      → All P (insert_sorted before r rows)
  unfolding insert_sorted
  insert-All before r [] x a = (x, tt)
  insert-All before r (s ∷ rows) x a = elim (Bool-cases (before r s)) [
    | inl e ↦ rw (e, insert_sorted) (x, a)
    | inr e ↦ rw (e, insert_sorted) (a.0, insert-All before r rows x a.1)
  ]

  order-All :
      (before : Row → Row → Bool) (rows : List Row) → All P rows → All P (order_by before rows)
  unfolding order_by
  order-All before [] a = tt
  order-All before (r ∷ rows) a = insert-All before r _ a.0 (order-All before rows a.1)

oldest_of :
    (now : ℕ) (rows : List Row) (r : Row)
    → IsFound rows r
    → (xs : List Row) → All (λ x. IsFound rows x × (claimable now x ≡ true)) xs
    → elim (head? xs) [ none ↦ false | some oldest ↦ eqb_ℤ r.id oldest.id ] ≡ true
    → claimable now r ≡ true
oldest_of now rows r f [] a e = cc
oldest_of now rows r f (x ∷ xs) a e =
    let same : r.id ≡ x.id = (eqb_ℤ_iff r.id x.id).0 e in
    let both : some r ≡ some x = sym f ∙ (ap (λ id. find_row id rows) same ∙ a.0.0) in
    let is_x : r ≡ x = cc both in rw is_x a.0.1

pub oldest_claimable :
    (now : ℕ) (rows : List Row) (r : Row)
    → Distinct rows
    → find_row r.id rows ≡ some r
    → is_oldest_claimable now rows r ≡ true
    → claimable now r ≡ true
oldest_claimable now rows r d f e =
    oldest_of now rows r f (order_by older (select_where (claimable now) rows))
      (order-All _ older _ (select-All (IsFound rows) (claimable now) rows (All-IsFound rows d))) e

found_id : (id : ℤ) (rows : List Row) (r : Row) → find_row id rows ≡ some r → r.id ≡ id
found_id id [] r e = cc
found_id id (x ∷ xs) r e = ground (arith, found_id id xs r, eqb_ℤ_iff x.id id)

pub find_row-id :
    (id : ℤ) (rows : List Row) (r : Row) → find_row id rows ≡ some r → find_row r.id rows ≡ some r
find_row-id id rows r e = subst (λ i. find_row i rows ≡ some r) (sym (found_id id rows r e)) e
