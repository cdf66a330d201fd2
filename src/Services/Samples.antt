-- ===== src/Services/Samples.antt =====
-- A small world to run the services in: tasks in memory, no cache, and a storage that answers with
-- the key. It stands for the repository, the cache and the rest where a theorem is tried.
use text2image.Base.{
  ℤ, pos, eqb_ℤ, Bool, true, false, ◌&&◌, Option, none, some, List, [], ◌∷◌, ok, Action, map,
  if◌then◌else◌,
}
use text2image.Utils.Chrono.{Calendar}
use text2image.Models.TaskStatus.{TaskStatus, queued, cancelled, failed}
use text2image.Models.ImageGeneration.{ImageGeneration, default_generation, JsonObject}
use text2image.Errors.Repo.{RepoError}
use text2image.Services.Ports.{Ports}

pub record World : Type 0 where
  pub tasks : List ImageGeneration
  pub enqueued : List ℤ

abbrev is_task : ℤ → ℤ → ImageGeneration → Bool
is_task id user_id g = eqb_ℤ g.id id && eqb_ℤ g.user_id user_id

abbrev first_where : (ImageGeneration → Bool) → List ImageGeneration → Option ImageGeneration
first_where p [] = none
first_where p (g ∷ gs) = let rest = first_where p gs in if p g then some g else rest

abbrev set_status : TaskStatus → ℤ → ℤ → ImageGeneration → ImageGeneration
set_status status id user_id g = if is_task id user_id g then record g { status = status } else g

abbrev set_task : TaskStatus → ℤ → ℤ → Action World RepoError (Option ImageGeneration)
set_task status id user_id w =
    let tasks = map (set_status status id user_id) w.tasks in
    (ok (first_where (is_task id user_id) tasks), record w { tasks = tasks })

abbrev pub sample_calendar : Calendar
sample_calendar = record { put_time = λ s. []; get_time = λ s. none }

-- The object without members.
abbrev pub empty_object : JsonObject
empty_object = record { string_at = λ k. none; integer_at = λ k. none; number_at = λ k. none }

abbrev pub sample_ports : Ports World
sample_ports = record {
  count_active_tasks = λ user_id w. (ok (pos 0), w);
  find_by_request_id = λ request_id user_id w. (ok none, w);
  insert_task = λ g w. (ok (pos 9), record w { tasks = g ∷ w.tasks });
  find_task = λ id user_id w. (ok (first_where (is_task id user_id) w.tasks), w);
  find_tasks =
      λ user_id page size w. (ok (record { content = w.tasks; total_elements = pos 0 }), w);
  find_tasks_by_status =
      λ user_id status page size w. (ok (record { content = w.tasks; total_elements = pos 0 }), w);
  cancel_task = set_task cancelled;
  retry_task = set_task queued;
  delete_task = λ id user_id w. (ok true, record w { tasks = [] });
  cache_get = λ key w. (ok none, w);
  cache_setex = λ key value ttl w. (ok false, w);
  cache_del = λ key w. (ok false, w);
  bump_version = λ ns identifier w. (ok none, w);
  get_version = λ ns identifier w. (ok (pos 0), w);
  get_bytes = λ key w. (ok (some key), w);
  presign_url = λ key w. (ok key, w);
  remove_object = λ key w. (ok true, w);
  content_type_for_key = λ key w. (ok [], w);
  publish_task_updated = λ g w. (ok tt, w);
  record_task_status = λ status w. (ok tt, w);
  enqueue = λ id w. (ok tt, record w { enqueued = id ∷ w.enqueued });
  redis_is_available = λ w. (ok false, w);
  remove_from_queue = λ id w. (ok false, w);
  force_release_lease = λ id w. (ok tt, w);
  system_now = λ w. (ok 1, w);
  build_request_id = λ w. (ok (105 ∷ []), w);
  list_ttl_jitter = λ w. (ok 0, w);
  presign_ttl = 0;
  load_max_active_tasks = ok (pos 3);
  calendar = sample_calendar;
  dump_image = λ g. ok [];
  dump_list = λ r. ok [];
  parse_image = λ t. ok empty_object;
  parse_list = λ t. ok (pos 0, []);
}

abbrev pub waiting_task : ImageGeneration
waiting_task = record default_generation { id = pos 1; user_id = pos 7; status = queued }

abbrev pub failed_task : ImageGeneration
failed_task = record default_generation { id = pos 2; user_id = pos 7; status = failed }

abbrev pub sample_world : World
sample_world = record { tasks = waiting_task ∷ failed_task ∷ []; enqueued = [] }
