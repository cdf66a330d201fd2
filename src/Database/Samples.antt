-- ===== src/Database/Samples.antt =====
-- A table and a generation to try the repository on.
use text2image.Base.{refl, arith, ℤ, pos, true, none, some, [], ◌∷◌, Text}
use text2image.Utils.Chrono.{Time, seconds}
use text2image.Models.TaskStatus.{queued, generating, success}
use text2image.Models.ImageGeneration.{ImageGeneration, default_generation}
use text2image.Database.Table.{Row, Table}
use text2image.Database.Session.{Event, Database}
use text2image.Errors.Repo.{mysqlx_error}
use text2image.Database.Invariant.{IsValid}
use text2image.Database.Session.Keeps.{IsGood}

abbrev pub first_worker : Text
first_worker = 119 ∷ 49 ∷ []

abbrev pub second_worker : Text
second_worker = 119 ∷ 50 ∷ []

abbrev pub waiting_row : Row
waiting_row = record {
  id = pos 1;
  user_id = pos 7;
  request_id = some (114 ∷ 49 ∷ []);
  prompt = some (99 ∷ 97 ∷ 116 ∷ []);
  negative_prompt = none;
  num_steps = some (pos 8);
  height = some (pos 768);
  width = some (pos 768);
  seed = none;
  status = queued;
  retry_count = pos 0;
  max_retries = pos 3;
  failure_code = none;
  worker_id = none;
  image_url = none;
  thumbnail_url = none;
  storage_key = none;
  error_message = none;
  generation_time = none;
  created_at = some 10;
  started_at = none;
  completed_at = none;
  cancelled_at = none;
  lease_expires_at = none;
}

-- A task that the first worker holds until second 20.
abbrev pub held_row : Row
held_row = record waiting_row {
  id = pos 2;
  request_id = some (114 ∷ 50 ∷ []);
  status = generating;
  worker_id = some first_worker;
  started_at = some 11;
  lease_expires_at = some 20;
}

abbrev pub sample_table : Table
sample_table = record { rows = waiting_row ∷ held_row ∷ []; next_id = 3 }

-- The time of the samples: second 30.
abbrev pub sample_time : Time
sample_time = seconds 30

-- The result that the first worker brings for the task it held.
abbrev pub finished_generation : ImageGeneration
finished_generation = record default_generation {
  id = pos 2;
  user_id = pos 7;
  worker_id = first_worker;
  status = success;
}

abbrev pub new_generation : ImageGeneration
new_generation = record default_generation {
  user_id = pos 7;
  request_id = 114 ∷ 51 ∷ [];
  prompt = 100 ∷ 111 ∷ 103 ∷ [];
  status = queued;
}

-- A statement that fails, after a second.
abbrev pub failing_event : Event
failing_event = record { clock = λ now. seconds 31; write = λ t. t; fault = some (mysqlx_error []) }

-- A session in which the second statement fails.
abbrev pub sample_database : Database
sample_database = record {
  table = sample_table;
  now = sample_time;
  last_insert_id = none;
  table_ready = true;
  events = record { clock = λ now. now; write = λ t. t; fault = none } ∷ failing_event ∷ [];
}

abbrev pub vanished_message : ℤ → ℤ → Text
vanished_message id user_id = []

pub sample_table-IsValid : IsValid sample_table
sample_table-IsValid = record {
  held = ((λ e. ground arith), ((λ e. (refl, refl)), tt));
  distinct = ((refl, tt), (tt, tt));
  below = (ground arith, (ground arith, tt));
}

pub sample_database-IsGood : IsGood IsValid sample_database
sample_database-IsGood = record {
  table_good = sample_table-IsValid;
  events_tame = ((λ t v. v), ((λ t v. v), tt));
}
