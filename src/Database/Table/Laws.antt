-- ===== src/Database/Table/Laws.antt =====
-- What an UPDATE, a DELETE and an INSERT do to the rows, one by one.
use text2image.Base.{
  ◌≡◌, refl, ℤ, eqb_ℤ, Bool, false, Option, none, some, List, [], ◌∷◌, ◌++◌, All, arith,
  if◌then◌else◌, Bool-cases, inl, inr,
}
use text2image.Database.Table.{Row, update_where, delete_where, select_where, count_where}

-- No two rows have the same id.
abbrev pub Distinct : List Row → Type 0
Distinct [] = Unit {0}
Distinct (r ∷ rs) = All (λ s. eqb_ℤ r.id s.id ≡ false) rs × Distinct rs

abbrev pub find_row : ℤ → List Row → Option Row
find_row id [] = none
find_row id (r ∷ rs) = if eqb_ℤ r.id id then some r else find_row id rs

abbrev pub set_if : (Row → Bool) → (Row → Row) → Row → Row
set_if p f r = if p r then f r else r

abbrev pub map_row : (Row → Row) → Option Row → Option Row
map_row f none = none
map_row f (some r) = some (f r)

module _ (p : Row → Bool) (f : Row → Row) where
  set_if-All : (P : Row → Type 0) → ((r : Row) → P r → P (f r)) → (r : Row) → P r → P (set_if p f r)
  set_if-All P h r x = elim (Bool-cases (p r)) [ inl e ↦ rw e (h r x) | inr e ↦ rw e x ]

  pub update-All :
      (P : Row → Type 0)
      → ((r : Row) → P r → P (f r))
      → (rs : List Row) → All P rs
      → All P (update_where p f rs)
  unfolding update_where
  update-All P h [] a = tt
  update-All P h (r ∷ rs) a = (set_if-All P h r a.0, update-All P h rs a.1)

module _ (p : Row → Bool) (f : Row → Row) (keeps_id : (r : Row) → (f r).id ≡ r.id) where
  set_if-id : (r : Row) → (set_if p f r).id ≡ r.id
  set_if-id r = ground (arith, keeps_id r)

  apart-update :
      (id : ℤ) (rs : List Row)
      → All (λ s. eqb_ℤ id s.id ≡ false) rs
      → All (λ s. eqb_ℤ id s.id ≡ false) (update_where p f rs)
  apart-update id rs a = update-All p f (λ s. eqb_ℤ id s.id ≡ false) (λ r h. rw (keeps_id r) h) rs a

  pub update-Distinct : (rs : List Row) → Distinct rs → Distinct (update_where p f rs)
  unfolding update_where
  update-Distinct [] d = tt
  update-Distinct (r ∷ rs) d = (rw (set_if-id r) (apart-update r.id rs d.0), update-Distinct rs d.1)

  pub find_row-update :
      (id : ℤ) (rs : List Row)
      → find_row id (update_where p f rs) ≡ map_row (set_if p f) (find_row id rs)
  unfolding update_where
  find_row-update id [] = refl
  find_row-update id (r ∷ rs) = rw (set_if-id r) (ground (arith, find_row-update id rs))

pub delete-All :
    (p : Row → Bool) (P : Row → Type 0) (rs : List Row) → All P rs → All P (delete_where p rs)
unfolding delete_where
delete-All p P [] a = tt
delete-All p P (r ∷ rs) a = elim (Bool-cases (p r)) [
  | inl e ↦ rw (e, delete_where) (delete-All p P rs a.1)
  | inr e ↦ rw (e, delete_where) (a.0, delete-All p P rs a.1)
]

pub delete-Distinct : (p : Row → Bool) (rs : List Row) → Distinct rs → Distinct (delete_where p rs)
unfolding delete_where
delete-Distinct p [] d = tt
delete-Distinct p (r ∷ rs) d = elim (Bool-cases (p r)) [
  | inl e ↦ rw (e, delete_where) (delete-Distinct p rs d.1)
  | inr e ↦
      rw (e, delete_where)
        (delete-All p (λ s. eqb_ℤ r.id s.id ≡ false) rs d.0, delete-Distinct p rs d.1)
]

pub append-All :
    (P : Row → Type 0) (rs : List Row) (r : Row) → All P rs → P r → All P (rs ++ r ∷ [])
append-All P [] r a x = (x, tt)
append-All P (s ∷ rs) r a x = (a.0, append-All P rs r a.1 x)

pub append-Distinct :
    (rs : List Row) (r : Row)
    → Distinct rs
    → All (λ s. eqb_ℤ s.id r.id ≡ false) rs
    → Distinct (rs ++ r ∷ [])
append-Distinct [] r d a = (tt, tt)
append-Distinct (s ∷ rs) r d a =
    (append-All (λ x. eqb_ℤ s.id x.id ≡ false) rs r d.0 a.0, append-Distinct rs r d.1 a.1)

-- A statement whose WHERE clause no row passes.
module _ (p : Row → Bool) where
  pub update_none :
      (f : Row → Row) (rs : List Row) → All (λ r. p r ≡ false) rs → update_where p f rs ≡ rs
  unfolding update_where
  update_none f [] a = refl
  update_none f (r ∷ rs) a = rw (a.0, update_none f rs a.1)

  pub count_none : (rs : List Row) → All (λ r. p r ≡ false) rs → count_where p rs ≡ 0
  unfolding count_where
  count_none [] a = refl
  count_none (r ∷ rs) a = rw (a.0) (omega (arith, count_none rs a.1))

  pub select_none : (rs : List Row) → All (λ r. p r ≡ false) rs → select_where p rs ≡ []
  unfolding select_where
  select_none [] a = refl
  select_none (r ∷ rs) a = rw (a.0) (select_none rs a.1)

  pub delete_none : (rs : List Row) → All (λ r. p r ≡ false) rs → delete_where p rs ≡ rs
  unfolding delete_where
  delete_none [] a = refl
  delete_none (r ∷ rs) a = rw (a.0, delete_none rs a.1)

-- A condition that an UPDATE brings about on every row, from a condition on the rows before.
pub update_brings :
    (p : Row → Bool) (f : Row → Row) (P Q : Row → Type 0)
    → ((r : Row) → P r → Q (set_if p f r))
    → (rs : List Row) → All P rs
    → All Q (update_where p f rs)
unfolding update_where
update_brings p f P Q h [] a = tt
update_brings p f P Q h (r ∷ rs) a = (h r a.0, update_brings p f P Q h rs a.1)

pub All-any : (P : Row → Type 0) → ((r : Row) → P r) → (rs : List Row) → All P rs
All-any P h [] = tt
All-any P h (r ∷ rs) = (h r, All-any P h rs)
