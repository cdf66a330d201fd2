-- ===== src/Services/TaskEngine/Config/Tests.antt =====
-- The configuration at work on a file with a lease that is too short and a prefix of another kind.
use text2image.Base.{pos, some, ok, err, []}
use text2image.Services.Effects.{std_error}
use text2image.Services.TaskEngine.Config.{EngineSettings, load_task_engine_config}
use text2image.Services.TaskEngine.Config.Laws.{IsSane, load_task_engine_config-IsSane}

abbrev short_lease : EngineSettings
short_lease = record {
  integer_setting = λ key default. ok (pos 7);
  text_setting = λ key default. err (std_error []);
}

load_task_engine_config-IsSane_example : IsSane (load_task_engine_config (ok (some short_lease)))
load_task_engine_config-IsSane_example = load_task_engine_config-IsSane (ok (some short_lease))
