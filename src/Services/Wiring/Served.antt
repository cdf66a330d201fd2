-- ===== src/Services/Wiring/Served.antt =====
-- The requests to `ImageService` over the repository of Backend/src/database/ImageRepo.cpp: what one
-- of them does to the database is a run of calls of the task life cycle.
use text2image.Base.{◌≡◌, refl, ℕ, ℤ, Bool, Text, Result, ok, err, Action}
use text2image.Models.ImageGeneration.{JsonObject}
use text2image.Errors.Repo.{RepoError}
use text2image.Database.Session.{Database}
use text2image.Database.ImageRepo.{
  ImagePageResult, find_by_user_id, find_by_user_id_and_status, count_active_tasks_by_user_id,
}
use text2image.Database.ImageRepo.Calls.{
  RepoCall, run_call, insert_call, find_user_call, find_user_status_call, find_id_call,
  find_request_call, count_active_call, delete_call, cancel_call, retry_call,
}
use text2image.Database.ImageRepo.Lifecycle.{IsLifecycleCall}
use text2image.Services.Yields.{Preserves}
use text2image.Services.Ports.{Ports}
use text2image.Services.ImageService.Reads.{get_by_id, list_my, list_my_by_status, get_binary_by_id}
use text2image.Services.ImageService.Writes.{create, cancel_by_id, retry_by_id, delete_by_id}
use text2image.Services.ImageService.Frame.Helpers.{Framed}
use text2image.Services.ImageService.Frame.Reads.{
  get_by_id-Preserves, list_my-Preserves, list_my_by_status-Preserves, get_binary_by_id-Preserves,
}
use text2image.Services.ImageService.Frame.Writes.{
  create-Preserves, cancel_by_id-Preserves, retry_by_id-Preserves, delete_by_id-Preserves,
}
use text2image.Services.TaskEngine.Runs.{Runs, no_call, one_call, Runs-append}
use text2image.Services.Wiring.{over_database, counted, listed, on_database, on_rest}

-- A request, with the user that sends it.
pub data Request : Type 0 where
  create_request : ℤ → JsonObject → Bool → Request
  cancel_request retry_request delete_request binary_request : ℤ → ℤ → Request
  get_request : ℤ → ℤ → Bool → Request
  list_request : ℤ → ℤ → ℤ → Request
  status_list_request : ℤ → Text → ℤ → ℤ → Request

-- The state after a request.
abbrev pub serve : {W : Type 0} → Ports W → Request → W → W
serve p (create_request user payload is_admin) w = (create p user payload is_admin w).1
serve p (cancel_request user id) w = (cancel_by_id p user id w).1
serve p (retry_request user id) w = (retry_by_id p user id w).1
serve p (delete_request user id) w = (delete_by_id p user id w).1
serve p (binary_request user id) w = (get_binary_by_id p user id w).1
serve p (get_request user id payload) w = (get_by_id p user id payload w).1
serve p (list_request user page size) w = (list_my p user page size w).1
serve p (status_list_request user status page size) w =
    (list_my_by_status p user status page size w).1

counted-state : (o : Result RepoError ℕ × Database) → (counted o).1 ≡ o.1
counted-state (ok n, db) = refl
counted-state (err e, db) = refl

listed-state : (o : Result RepoError ImagePageResult × Database) → (listed o).1 ≡ o.1
listed-state (ok page, db) = refl
listed-state (err e, db) = refl

module _ {V : Type 0} (vanished : ℤ → ℤ → Text) (start : Database) where
  -- The database is led here by calls of the life cycle.
  abbrev pub IsLed : Database × V → Type 0
  IsLed w = Runs vanished start w.0

  rest-IsLed : {E A : Type 0} (m : Action V E A) → Preserves IsLed (on_rest m)
  rest-IsLed m = record { preserves = λ w h. h }

  call-IsLed :
      {A : Type 0} (m : Action Database RepoError A) (c : RepoCall)
      → IsLifecycleCall c
      → ((db : Database) → run_call vanished c db ≡ (m db).1)
      → Preserves IsLed (on_database m)
  call-IsLed m c q same = record {
    preserves =
        λ w h. Runs-append vanished start w.0 _ h (one_call c w.0 _ q (rw (same w.0) (no_call _)));
  }

  over_database-Framed : (p : Ports V) → Framed (over_database vanished p) IsLed
  unfolding run_call
  over_database-Framed p = record {
    count_kept = λ user.
        call-IsLed _ (count_active_call user) tt
          (λ db. rw (counted-state (count_active_tasks_by_user_id user db)) refl);
    request_kept = λ request user. call-IsLed _ (find_request_call request user) tt (λ db. refl);
    insert_kept = λ g q. call-IsLed _ (insert_call g) q (λ db. refl);
    find_kept = λ id user. call-IsLed _ (find_id_call id user) tt (λ db. refl);
    page_kept = λ user page size.
        call-IsLed _ (find_user_call user page size) tt
          (λ db. rw (listed-state (find_by_user_id user page size db)) refl);
    status_page_kept = λ user status page size.
        call-IsLed _ (find_user_status_call user status page size) tt
          (λ db. rw (listed-state (find_by_user_id_and_status user status page size db)) refl);
    cancel_kept = λ id user. call-IsLed _ (cancel_call id user) tt (λ db. refl);
    retry_kept = λ id user. call-IsLed _ (retry_call id user) tt (λ db. refl);
    delete_kept = λ id user. call-IsLed _ (delete_call id user) tt (λ db. refl);
    get_kept = λ key. rest-IsLed _;
    setex_kept = λ key value ttl. rest-IsLed _;
    del_kept = λ key. rest-IsLed _;
    bump_kept = λ ns identifier. rest-IsLed _;
    version_kept = λ ns identifier. rest-IsLed _;
    bytes_kept = λ key. rest-IsLed _;
    presign_kept = λ key. rest-IsLed _;
    remove_kept = λ key. rest-IsLed _;
    content_type_kept = λ key. rest-IsLed _;
    publish_kept = λ g. rest-IsLed _;
    record_kept = λ status. rest-IsLed _;
    enqueue_kept = λ id. rest-IsLed _;
    redis_kept = rest-IsLed _;
    queue_kept = λ id. rest-IsLed _;
    lease_kept = λ id. rest-IsLed _;
    now_kept = rest-IsLed _;
    request_id_kept = rest-IsLed _;
    jitter_kept = rest-IsLed _;
  }

  serve-IsLed :
      (p : Ports V) (request : Request) (w : Database × V)
      → IsLed w
      → IsLed (serve (over_database vanished p) request w)
  serve-IsLed p (create_request user payload is_admin) w h =
      (create-Preserves _ IsLed (over_database-Framed p) user payload is_admin).preserves w h
  serve-IsLed p (cancel_request user id) w h =
      (cancel_by_id-Preserves _ IsLed (over_database-Framed p) user id).preserves w h
  serve-IsLed p (retry_request user id) w h =
      (retry_by_id-Preserves _ IsLed (over_database-Framed p) user id).preserves w h
  serve-IsLed p (delete_request user id) w h =
      (delete_by_id-Preserves _ IsLed (over_database-Framed p) user id).preserves w h
  serve-IsLed p (binary_request user id) w h =
      (get_binary_by_id-Preserves _ IsLed (over_database-Framed p) user id).preserves w h
  serve-IsLed p (get_request user id payload) w h =
      (get_by_id-Preserves _ IsLed (over_database-Framed p) user id payload).preserves w h
  serve-IsLed p (list_request user page size) w h =
      (list_my-Preserves _ IsLed (over_database-Framed p) user page size).preserves w h
  serve-IsLed p (status_list_request user status page size) w h =
      (list_my_by_status-Preserves _ IsLed (over_database-Framed p) user status page size).preserves
        w h

-- A request to the image service leads the database by calls of the life cycle.
pub serve-Runs :
    {V : Type 0} (vanished : ℤ → ℤ → Text) (p : Ports V) (request : Request) (w : Database × V)
    → Runs vanished w.0 (serve (over_database vanished p) request w).0
serve-Runs vanished p request w = serve-IsLed vanished w.0 p request w (no_call w.0)
