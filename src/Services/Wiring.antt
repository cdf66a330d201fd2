-- ===== src/Services/Wiring.antt =====
-- `ImageService()` of Backend/src/services/image_service.cpp: the image service over the repository
-- of Backend/src/database/ImageRepo.cpp. The other calls act on a state of their own.
pub mod Laws
pub mod Served
mod Tests
use text2image.Base.{ℕ, ℤ, pos, Text, Result, ok, err, Action}
use text2image.Models.TaskStatus.{TaskStatus}
use text2image.Errors.Repo.{RepoError}
use text2image.Database.Session.{Database}
use text2image.Database.ImageRepo.{
  ImagePageResult, find_by_user_id, find_by_user_id_and_status, find_by_id_and_user_id,
  find_by_request_id_and_user_id, count_active_tasks_by_user_id,
}
use text2image.Database.ImageRepo.Owner.{
  insert, cancel_by_id_and_user_id, retry_by_id_and_user_id, delete_by_id_and_user_id,
}
use text2image.Services.Effects.{Exception}
use text2image.Services.Ports.{ImageListResult, Ports}

abbrev pub counted : Result RepoError ℕ × Database → Result RepoError ℤ × Database
counted (ok n, db) = (ok (pos n), db)
counted (err e, db) = (err e, db)

abbrev pub listed :
    Result RepoError ImagePageResult × Database → Result RepoError ImageListResult × Database
listed (ok page, db) =
    (ok (record { content = page.content; total_elements = pos page.total_elements }), db)
listed (err e, db) = (err e, db)

module _ {V : Type 0} where
  abbrev beside : {E A : Type 0} → V → Result E A × Database → Result E A × (Database × V)
  beside v (result, db) = (result, (db, v))

  abbrev pub on_database : {E A : Type 0} → Action Database E A → Action (Database × V) E A
  on_database m w = beside w.1 (m w.0)

  abbrev before : {E A : Type 0} → Database → Result E A × V → Result E A × (Database × V)
  before db (result, v) = (result, (db, v))

  abbrev pub on_rest : {E A : Type 0} → Action V E A → Action (Database × V) E A
  on_rest m w = before w.0 (m w.1)

  -- The calls of a service whose repository is the one of the database.
  abbrev pub over_database : (ℤ → ℤ → Text) → Ports V → Ports (Database × V)
  over_database vanished p = record {
    count_active_tasks =
        λ user_id. on_database (λ db. counted (count_active_tasks_by_user_id user_id db));
    find_by_request_id =
        λ request_id user_id. on_database (find_by_request_id_and_user_id request_id user_id);
    insert_task = λ g. on_database (insert g);
    find_task = λ id user_id. on_database (find_by_id_and_user_id id user_id);
    find_tasks =
        λ user_id page size. on_database (λ db. listed (find_by_user_id user_id page size db));
    find_tasks_by_status = λ user_id status page size.
        on_database (λ db. listed (find_by_user_id_and_status user_id status page size db));
    cancel_task = λ id user_id. on_database (cancel_by_id_and_user_id vanished id user_id);
    retry_task = λ id user_id. on_database (retry_by_id_and_user_id vanished id user_id);
    delete_task = λ id user_id. on_database (delete_by_id_and_user_id id user_id);
    cache_get = λ key. on_rest (p.cache_get key);
    cache_setex = λ key value ttl. on_rest (p.cache_setex key value ttl);
    cache_del = λ key. on_rest (p.cache_del key);
    bump_version = λ ns identifier. on_rest (p.bump_version ns identifier);
    get_version = λ ns identifier. on_rest (p.get_version ns identifier);
    get_bytes = λ key. on_rest (p.get_bytes key);
    presign_url = λ key. on_rest (p.presign_url key);
    remove_object = λ key. on_rest (p.remove_object key);
    content_type_for_key = λ key. on_rest (p.content_type_for_key key);
    publish_task_updated = λ g. on_rest (p.publish_task_updated g);
    record_task_status = λ status. on_rest (p.record_task_status status);
    enqueue = λ id. on_rest (p.enqueue id);
    redis_is_available = on_rest p.redis_is_available;
    remove_from_queue = λ id. on_rest (p.remove_from_queue id);
    force_release_lease = λ id. on_rest (p.force_release_lease id);
    system_now = on_rest p.system_now;
    build_request_id = on_rest p.build_request_id;
    list_ttl_jitter = on_rest p.list_ttl_jitter;
    presign_ttl = p.presign_ttl;
    load_max_active_tasks = p.load_max_active_tasks;
    calendar = p.calendar;
    dump_image = p.dump_image;
    dump_list = p.dump_list;
    parse_image = p.parse_image;
    parse_list = p.parse_list;
  }
