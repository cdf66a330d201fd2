-- ===== src/Database/Invariant.antt =====
-- What holds of the table between two statements.
use text2image.Base.{
  ℕ, suc, ◌≡◌, pos, eqb_ℤ, ◌<ℤ◌, Bool, true, false, List, [], ◌∷◌, ◌++◌, All, arith,
}
use text2image.Database.Table.{Row, Table, is_generating, is_null, update_where, delete_where}
use text2image.Database.Table.Laws.{
  Distinct, update-All, update-Distinct, delete-All, delete-Distinct, append-All, append-Distinct,
}

-- A task that is being generated has a worker and a lease.
abbrev pub IsHeld : Row → Type 0
IsHeld r =
    is_generating r.status ≡ true
    → (is_null r.worker_id ≡ false) × (is_null r.lease_expires_at ≡ false)

abbrev pub IsBelow : ℕ → Row → Type 0
IsBelow n r = r.id <ℤ pos n

pub record IsValid (t : Table) : Type 0 where
  pub held : All IsHeld t.rows
  pub distinct : Distinct t.rows
  pub below : All (IsBelow t.next_id) t.rows

pub update-IsValid :
    (p : Row → Bool) (f : Row → Row)
    → ((r : Row) → (f r).id ≡ r.id)
    → ((r : Row) → IsHeld r → IsHeld (f r))
    → (t : Table) → IsValid t
    → IsValid (record t { rows = update_where p f t.rows })
update-IsValid p f keeps_id keeps_held t v = record {
  held = update-All p f IsHeld keeps_held t.rows v.held;
  distinct = update-Distinct p f keeps_id t.rows v.distinct;
  below = update-All p f (IsBelow t.next_id) (λ r h. rw (keeps_id r) h) t.rows v.below;
}

pub delete-IsValid :
    (p : Row → Bool) (t : Table) → IsValid t → IsValid (record t { rows = delete_where p t.rows })
delete-IsValid p t v = record {
  held = delete-All p IsHeld t.rows v.held;
  distinct = delete-Distinct p t.rows v.distinct;
  below = delete-All p (IsBelow t.next_id) t.rows v.below;
}

below-apart :
    (n : ℕ) (rs : List Row) → All (IsBelow n) rs → All (λ s. eqb_ℤ s.id (pos n) ≡ false) rs
below-apart n [] a = tt
below-apart n (r ∷ rs) a = (ground arith, below-apart n rs a.1)

IsBelow-suc : (n : ℕ) (rs : List Row) → All (IsBelow n) rs → All (IsBelow (suc n)) rs
IsBelow-suc n [] a = tt
IsBelow-suc n (r ∷ rs) a = (omega arith, IsBelow-suc n rs a.1)

-- A row under the counter's id joins the table.
pub append-IsValid :
    (t : Table) (r : Row)
    → r.id ≡ pos t.next_id
    → IsHeld r
    → IsValid t
    → IsValid (record { rows = t.rows ++ r ∷ []; next_id = suc t.next_id })
append-IsValid t r e h v = record {
  held = append-All IsHeld t.rows r v.held h;
  distinct = append-Distinct t.rows r v.distinct (rw e (below-apart t.next_id t.rows v.below));
  below =
      append-All (IsBelow (suc t.next_id)) t.rows r (IsBelow-suc t.next_id t.rows v.below)
        (rw e (omega arith));
}
