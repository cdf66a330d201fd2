-- ===== src/Services/Wiring/Laws.antt =====
-- The image service over the repository, end to end.
use text2image.Base.{
  ◌≡◌, refl, ℤ, pos, ◌<ℤ◌, ◌≤ℤ◌, ltb_ℤ, eqb_ℤ, Bool, true, false, ◌&&◌, none, All, Text, ok, err,
  arith, ◌>>=◌, ◌>>◌, Action,
}
use text2image.Utils.Chrono.{Time}
use text2image.Models.ImageGeneration.{ImageGeneration, JsonObject, from_json}
use text2image.Errors.{ServiceError}
use text2image.Errors.Repo.{repo_invoke}
use text2image.Database.Table.{Row, Table, owned, is_active, count_where}
use text2image.Database.Session.{Database, execute}
use text2image.Database.ImageRepo.{count_active_tasks_by_user_id}
use text2image.Database.ImageRepo.Ownership.{idle, not_owned}
use text2image.Services.Effects.{Failure, returned, or_return, or_error, compute}
use text2image.Services.Ports.{Ports}
use text2image.Services.Validation.{validate_generation_params}
use text2image.Services.ImageService.{require_user, task_not_found, image_not_found}
use text2image.Services.ImageService.Reads.{get_binary_by_id}
use text2image.Services.ImageService.Writes.{
  create, cancel_by_id, retry_by_id, delete_by_id, check_active_tasks, max_active_tasks_per_user,
  too_many_active_tasks,
}
use text2image.Services.Wiring.{over_database}

module _ {V : Type 0} (p : Ports V) (vanished : ℤ → ℤ → Text) (t : Table) (now : Time) (v : V)
    (user_id : ℤ) where
  -- A look-up that finds nothing ends the operation.
  missing :
      {A : Type 0} (id : ℤ) (error : ServiceError)
      (k : ImageGeneration → Action (Database × V) Failure A)
      → pos 0 <ℤ user_id
      → All (λ r. owned id user_id r ≡ false) t.rows
      → (require_user user_id
            >> (or_return ((over_database vanished p).find_task id user_id) >>= λ current.
                or_error current error >>= k))
          (idle t now, v)
        ≡ (err (returned error), (idle t now, v))
  unfolding or_return or_error
  missing id error k positive apart =
      rw (positive_lem positive, (not_owned t now vanished id user_id apart).0) refl
    where
      positive_lem : pos 0 <ℤ user_id → ltb_ℤ (pos 0) user_id ≡ true
      positive_lem h = ground arith

  -- With the repository's own table behind the service, a user who owns no task of this id is
  -- answered 404 by each operation on one task, and nothing changes: not the table, not the cache,
  -- the storage, the queue or any other state.
  pub operations-missing :
      (id : ℤ)
      → pos 0 <ℤ user_id
      → All (λ r. owned id user_id r ≡ false) t.rows
      → let q = over_database vanished p in
        let w : Database × V = (idle t now, v) in
        (cancel_by_id q user_id id w ≡ (err (returned task_not_found), w))
        × (retry_by_id q user_id id w ≡ (err (returned task_not_found), w))
        × (delete_by_id q user_id id w ≡ (err (returned image_not_found), w))
        × (get_binary_by_id q user_id id w ≡ (err (returned image_not_found), w))
  unfolding cancel_by_id retry_by_id delete_by_id get_binary_by_id
  operations-missing id positive apart = (
    missing id task_not_found _ positive apart,
    missing id task_not_found _ positive apart,
    missing id image_not_found _ positive apart,
    missing id image_not_found _ positive apart,
  )

  abbrev is_active_task : Row → Bool
  is_active_task r = eqb_ℤ r.user_id user_id && is_active r.status

  count_lem :
      count_active_tasks_by_user_id user_id (idle t now)
      ≡ (ok (count_where is_active_task t.rows), idle t now)
  unfolding count_active_tasks_by_user_id repo_invoke execute
  count_lem = refl

  -- With the repository's own table behind the service, a user who is no administrator and has as
  -- many active tasks as the limit allows, or more, is answered 429 for a valid request, with both
  -- numbers, and nothing changes: no task is inserted. The limit is the loaded one, or the default
  -- where the loading throws a `std::exception`.
  pub create-limit :
      (payload : JsonObject) (limit : ℤ)
      → pos 0 <ℤ user_id
      → (validate_generation_params (from_json p.calendar payload)).0 ≡ none
      → let q = over_database vanished p in
        max_active_tasks_per_user q ≡ ok limit
        → pos 0 <ℤ limit
        → limit ≤ℤ pos (count_where is_active_task t.rows)
        → let w : Database × V = (idle t now, v) in
          create q user_id payload false w ≡ (
            err (returned (too_many_active_tasks limit (pos (count_where is_active_task t.rows)))),
            w,
          )
  unfolding create check_active_tasks or_return compute
  create-limit payload limit positive valid loaded limited full =
      rw
        (
          ltb_yes user_id positive,
          valid,
          loaded,
          ltb_yes limit limited,
          count_lem,
          ltb_no limit (pos (count_where is_active_task t.rows)) full,
        )
        refl
    where
      ltb_yes : (a : ℤ) → pos 0 <ℤ a → ltb_ℤ (pos 0) a ≡ true
      ltb_yes a h = ground arith

      ltb_no : (a b : ℤ) → a ≤ℤ b → ltb_ℤ b a ≡ false
      ltb_no a b h = ground arith
