-- ===== src/Database/ImageRepo/Claiming.antt =====
-- A claim of a waiting task in an idle session of Backend/src/database/ImageRepo.cpp, and the row
-- that finishing it leaves.
use text2image.Base.{
  ◌≡◌, refl, ◌∙◌, ◌+◌, ◌==◌, ℤ, eqb_ℤ, eqb_ℤ_refl, eqb_refl, Bool, true, false, Bool-cases, inl,
  inr, some, List, [], ◌∷◌, head?, Text, ok, arith,
}
use text2image.Utils.Chrono.{Time, seconds, floor_seconds}
use text2image.Models.ImageGeneration.{ImageGeneration}
use text2image.Database.Table.{
  Row, Table, is_waiting, held_by, update_where, count_where, select_where,
}
use text2image.Database.Table.Laws.{find_row, find_row-update}
use text2image.Database.Session.{execute}
use text2image.Database.ImageRepo.{fetch_one, row_to_image_generation}
use text2image.Database.ImageRepo.Claims.{
  claim_task_by_id, claim_row, is_waiting_task, is_claimed_by, finish_claimed_task, finish_row,
  lease_or_default,
}
use text2image.Database.ImageRepo.Ownership.{idle, with_rows, finish_lem}

pub find_row-id :
    (id : ℤ) (rs : List Row) (r : Row) → find_row id rs ≡ some r → eqb_ℤ r.id id ≡ true
find_row-id id [] r e = ground arith
find_row-id id (s ∷ rs) r e = ground (arith, find_row-id id rs r)

-- The row that is found under an id passes a test that no row of another id passes.
module _ (id : ℤ) (p : Row → Bool) (same : (s : Row) → eqb_ℤ s.id id ≡ false → p s ≡ false) where
  head-select :
      (rs : List Row) (r : Row)
      → find_row id rs ≡ some r
      → p r ≡ true
      → head? (select_where p rs) ≡ some r
  unfolding select_where
  head-select [] r e h = ground arith
  head-select (s ∷ rs) r e h = elim (Bool-cases (eqb_ℤ s.id id)) [
    | inl hit ↦ ground arith
    | inr miss ↦ rw (same s miss) (head-select rs r (rw miss at e) h)
  ]

  count-found :
      (rs : List Row) (r : Row)
      → find_row id rs ≡ some r
      → p r ≡ true
      → (count_where p rs == 0) ≡ false
  unfolding count_where
  count-found [] r e h = ground arith
  count-found (s ∷ rs) r e h = elim (Bool-cases (eqb_ℤ s.id id)) [
    | inl hit ↦ ground arith
    | inr miss ↦ ground (arith, same s miss, count-found rs r (rw miss at e) h)
  ]

module _ (t : Table) (now : Time) (id : ℤ) (worker : Text) (lease : ℤ) (r : Row)
    (found : find_row id t.rows ≡ some r) (waits : is_waiting r.status ≡ true) where
  -- The row under the claim.
  abbrev pub claimed_row : Row
  claimed_row =
      claim_row worker (floor_seconds now) (floor_seconds (now + seconds (lease_or_default lease)))
        r

  abbrev pub claimed_table : Table
  claimed_table = with_rows t (
      update_where (is_waiting_task id)
        (claim_row worker (floor_seconds now)
          (floor_seconds (now + seconds (lease_or_default lease))))
        t.rows)

  is_waiting_task-found : is_waiting_task id r ≡ true
  is_waiting_task-found = ground (arith, find_row-id id t.rows r found)

  pub find_row-claimed : find_row id claimed_table.rows ≡ some claimed_row
  find_row-claimed =
      find_row-update (is_waiting_task id)
        (claim_row worker (floor_seconds now)
          (floor_seconds (now + seconds (lease_or_default lease))))
        (λ x. refl) id t.rows
      ∙ (rw (found, is_waiting_task-found) refl)

  -- The claim returns the task, as the row then stands.
  pub claim_task_by_id-found :
      claim_task_by_id id worker lease (idle t now)
      ≡ (ok (some (row_to_image_generation now claimed_row)), idle claimed_table now)
  unfolding claim_task_by_id execute fetch_one
  claim_task_by_id-found =
      let counted =
        count-found id (is_waiting_task id) (λ s miss. ground arith) t.rows r found
          is_waiting_task-found in
      let selected =
        head-select id (is_claimed_by id worker) (λ s miss. ground arith) claimed_table.rows
          claimed_row find_row-claimed (rw (find_row-id id t.rows r found, eqb_refl worker) refl) in
      rw (counted, selected) refl

  -- A result of the claimed task that is finished finishes its row.
  pub finish_claimed_task-found :
      (g : ImageGeneration)
      → g.id ≡ id
      → g.user_id ≡ r.user_id
      → g.worker_id ≡ worker
      → find_row id (finish_claimed_task g (idle claimed_table now)).1.table.rows
        ≡ some (finish_row g claimed_row)
  finish_claimed_task-found g same_id same_user same_worker = rw (finish_lem claimed_table now g) (
      find_row-update (held_by g.id g.user_id g.worker_id) (finish_row g) (λ x. refl) id
        claimed_table.rows
      ∙ rw
          (
            find_row-claimed,
            same_id,
            same_user,
            same_worker,
            find_row-id id t.rows r found,
            eqb_ℤ_refl r.user_id,
            eqb_refl worker,
          )
          refl)
