-- ===== src/Database/Tests.antt =====
-- The theorems about the repository at work on the samples.
use text2image.Base.{pos, ◌≡◌, refl, some, ok, arith, none, false}
use text2image.Database.Session.Keeps.{IsGood}
use text2image.Database.Invariant.{IsValid}
use text2image.Database.Samples.{
  first_worker, second_worker, sample_table, sample_time, sample_database, finished_generation,
  new_generation, vanished_message, sample_table-IsValid, sample_database-IsGood,
}
use text2image.Database.ImageRepo.{find_by_user_id, find_by_id_and_user_id, ImagePageResult}
use text2image.Database.ImageRepo.Claims.{claim_task_by_id, finish_claimed_task}
use text2image.Database.ImageRepo.Leases.{expire_leases}
use text2image.Database.ImageRepo.Owner.{
  insert, cancel_by_id_and_user_id, retry_by_id_and_user_id, delete_by_id_and_user_id,
}
use text2image.Database.ImageRepo.Calls.{run_call, claim_next_call, expire_call}
use text2image.Database.ImageRepo.Safety.{run_call-IsValid}
use text2image.Database.ImageRepo.Lifecycle.{run_call-Lives}
use text2image.Database.ImageRepo.Lifecycle.Rows.{Lives}
use text2image.Database.ImageRepo.Ownership.{
  idle, claim_twice, finish_after_expiry, finish_after_cancel, not_owned,
}
use text2image.Database.Table.{characters}
use text2image.Database.ImageRepo.Owner.{fits_columns}
use text2image.Database.ImageRepo.RoundTrip.{stored, insert-find}
use text2image.Database.ImageRepo.Paging.{IsPage, find_by_user_id-IsPage}

run_call-IsValid_example :
    IsGood IsValid
      (run_call vanished_message (claim_next_call second_worker (pos 60)) sample_database)
run_call-IsValid_example =
    run_call-IsValid vanished_message (claim_next_call second_worker (pos 60)) sample_database tt
      sample_database-IsGood

run_call-Lives_example :
    Lives sample_table (run_call vanished_message expire_call sample_database).table
run_call-Lives_example =
    run_call-Lives vanished_message expire_call sample_database tt sample_table-IsValid
      ((λ t. refl), ((λ t. refl), tt))

claim_twice_example :
    let db = (claim_task_by_id (pos 1) first_worker (pos 60) (idle sample_table sample_time)).1 in
    claim_task_by_id (pos 1) second_worker (pos 60) db ≡ (ok none, db)
claim_twice_example =
    claim_twice sample_table sample_time (pos 1) first_worker second_worker (pos 60) (pos 60)

finish_after_expiry_example :
    let db = (expire_leases (idle sample_table sample_time)).1 in
    finish_claimed_task finished_generation db ≡ (ok false, db)
finish_after_expiry_example =
    finish_after_expiry sample_table sample_time finished_generation
      ((λ e. ground arith), ((λ e. ground arith), tt))

finish_after_cancel_example :
    let db =
      (cancel_by_id_and_user_id vanished_message
        (pos 2)
        (pos 7)
        (idle sample_table sample_time)).1 in
    finish_claimed_task finished_generation db ≡ (ok false, db)
finish_after_cancel_example =
    finish_after_cancel sample_table sample_time vanished_message finished_generation

not_owned_example :
    (find_by_id_and_user_id (pos 1) (pos 8) (idle sample_table sample_time)
      ≡ (ok none, idle sample_table sample_time))
    × (cancel_by_id_and_user_id vanished_message (pos 1) (pos 8) (idle sample_table sample_time)
        ≡ (ok none, idle sample_table sample_time))
    × (retry_by_id_and_user_id vanished_message (pos 1) (pos 8) (idle sample_table sample_time)
        ≡ (ok none, idle sample_table sample_time))
    × (delete_by_id_and_user_id (pos 1) (pos 8) (idle sample_table sample_time)
        ≡ (ok false, idle sample_table sample_time))
not_owned_example =
    not_owned sample_table sample_time vanished_message (pos 1) (pos 8) (refl, (refl, tt))

insert-find_example :
    let (id, db) = insert new_generation (idle sample_table sample_time) in
    (id ≡ ok (pos 3))
    × ((find_by_id_and_user_id (pos 3) (pos 7) db).0
        ≡ ok (some (stored 3 sample_time new_generation)))
unfolding fits_columns characters
insert-find_example = insert-find sample_table sample_time new_generation sample_table-IsValid refl

find_by_user_id-IsPage_example :
    (result : ImagePageResult) × (find_by_user_id
        (pos 7)
        (pos 1)
        (pos 1)
        (idle sample_table sample_time)
      ≡ (ok result, idle sample_table sample_time))
    × IsPage sample_table sample_time (pos 7) 1 1 result
find_by_user_id-IsPage_example =
    find_by_user_id-IsPage sample_table sample_time (pos 7) (pos 1) (pos 1)
