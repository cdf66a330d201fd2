-- ===== src/Services/Wiring/Tests.antt =====
-- The service over the repository, tried on the samples.
use text2image.Base.{pos, ◌≡◌, refl, false, none, some, err, arith, [], ◌∷◌, trim, drop_while}
use text2image.Models.ImageGeneration.{JsonObject, from_json}
use text2image.Database.Table.{Table, count_where}
use text2image.Database.Session.{Database}
use text2image.Database.Samples.{sample_table, sample_time, vanished_message, waiting_row}
use text2image.Database.ImageRepo.Ownership.{idle}
use text2image.Services.Effects.{returned}
use text2image.Services.Samples.{World, sample_ports, sample_world, sample_calendar}
use text2image.Services.Validation.{
  validate_generation_params, check_params, trimmed, trim_in_place, is_valid_request_id,
}
use text2image.Services.ImageService.{task_not_found, image_not_found}
use text2image.Services.ImageService.Reads.{get_binary_by_id}
use text2image.Services.ImageService.Writes.{
  create, cancel_by_id, retry_by_id, delete_by_id, too_many_active_tasks, max_active_tasks_per_user,
}
use text2image.Services.Wiring.{over_database}
use text2image.Services.Wiring.Laws.{operations-missing, create-limit}

operations-missing_example :
    let q = over_database vanished_message sample_ports in
    let w : Database × World = (idle sample_table sample_time, sample_world) in
    (cancel_by_id q (pos 8) (pos 1) w ≡ (err (returned task_not_found), w))
    × (retry_by_id q (pos 8) (pos 1) w ≡ (err (returned task_not_found), w))
    × (delete_by_id q (pos 8) (pos 1) w ≡ (err (returned image_not_found), w))
    × (get_binary_by_id q (pos 8) (pos 1) w ≡ (err (returned image_not_found), w))
operations-missing_example =
    operations-missing sample_ports vanished_message sample_table sample_time sample_world (pos 8)
      (pos 1) (omega arith) (refl, (refl, tt))

-- A request with the prompt "cat" under every key.
abbrev cat_object : JsonObject
cat_object = record {
  string_at = λ k. some (b'c' ∷ b'a' ∷ b't' ∷ []);
  integer_at = λ k. none;
  number_at = λ k. none;
}

-- Three waiting tasks of the user 7.
abbrev busy_table : Table
busy_table = record {
  rows = waiting_row ∷ record waiting_row { id = pos 2 } ∷ record waiting_row { id = pos 3 } ∷ [];
  next_id = 4;
}

cat_object-IsValid : (validate_generation_params (from_json sample_calendar cat_object)).0 ≡ none
unfolding validate_generation_params check_params trimmed trim_in_place is_valid_request_id
    from_json trim drop_while
cat_object-IsValid = refl

create-limit_example :
    let w : Database × World = (idle busy_table sample_time, sample_world) in
    create (over_database vanished_message sample_ports) (pos 7) cat_object false w
    ≡ (err (returned (too_many_active_tasks (pos 3) (pos 3))), w)
unfolding max_active_tasks_per_user count_where
create-limit_example =
    create-limit sample_ports vanished_message busy_table sample_time sample_world (pos 7)
      cat_object (pos 3) (omega arith) cat_object-IsValid refl (omega arith) (omega arith)
