-- ===== src/Services/Generation/Samples.antt =====
-- A model service that is healthy and answers with an image, to try the client on. The world counts
-- the objects that were stored.
use text2image.Base.{ℕ, suc, pos, true, none, some, [], ◌∷◌, bytes, ok}
use text2image.Models.ImageGeneration.{JsonObject}
use text2image.Errors.Http.{HttpResult}
use text2image.Services.Yields.{Never}
use text2image.Services.Generation.{ModelPorts, HealthJson}
use text2image.Services.Generation.Laws.{any_key, Fails}

abbrev pub answer_ok : HttpResult
answer_ok = record { status_code = pos 200; body = 1 ∷ []; failure = none }

abbrev pub healthy_json : HealthJson
healthy_json = record {
  status = ok (bytes "healthy");
  model_loaded = ok true;
  active_kind = ok [];
  active_generations = ok (pos 0);
  max_concurrent_generations = ok (pos 1);
}

abbrev pub remote_object : JsonObject
remote_object = record {
  string_at = λ k. some (bytes "/temp/1.png");
  integer_at = λ k. none;
  number_at = λ k. none;
}

abbrev pub sample_model : ModelPorts ℕ
sample_model = record {
  http_get = λ url seconds w. (ok answer_ok, w);
  post_json = λ url seconds body headers w. (ok answer_ok, w);
  observe_model_service_call = λ path status w. (ok tt, w);
  store_image = λ user request_id image w. (ok request_id, suc w);
  remove_image = λ key w. (ok true, w);
  clock_now = λ w. (ok 5, w);
  service_url = ok (bytes "http://model");
  timeout_seconds = ok (pos 60);
  health_timeout_seconds = ok (pos 5);
  model_calendar = record { put_time = λ s. []; get_time = λ s. none };
  dump_payload = λ g. ok [];
  parse_remote = λ t. some (record { members = remote_object; data_members = none });
  parse_health = λ t. some healthy_json;
}

pub sample_model-Fails : Fails sample_model any_key Never
sample_model-Fails = record {
  get_fails = λ url seconds. record { yields = λ w. tt };
  observe_fails = λ path status. record { yields = λ w. tt };
  clock_fails = record { yields = λ w. tt };
  store_fails = λ user request_id image. record { yields = λ w. tt };
}
