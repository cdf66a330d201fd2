-- ===== src/Services/Generation/Tests.antt =====
-- The client of the model service at work on the samples.
use text2image.Base.{ℕ, ◌≡◌, refl, ok}
use text2image.Models.ImageGeneration.{ImageGeneration}
use text2image.Services.HealthGate.{ImageHealthResult}
use text2image.Services.Samples.{waiting_task}
use text2image.Services.Yields.{Never}
use text2image.Services.Generation.Client.{generate}
use text2image.Services.Generation.Health.{check_health}
use text2image.Services.Generation.Laws.{KeyLaw, Fails, IsResultOf, generate-IsResultOf}
use text2image.Services.Generation.HealthLaws.{IsReport, check_health-IsReport}
use text2image.Services.Generation.Samples.{sample_model}

-- The sample storage names a picture by the request.
abbrev by_request : KeyLaw
by_request user_id request_id image key = key ≡ request_id

sample_model-by_request : Fails sample_model by_request Never
sample_model-by_request = record {
  get_fails = λ url seconds. record { yields = λ w. tt };
  observe_fails = λ path status. record { yields = λ w. tt };
  clock_fails = record { yields = λ w. tt };
  store_fails = λ user request_id image. record { yields = λ w. refl };
}

generate-IsResultOf_example :
    (g : ImageGeneration) × (v : ℕ) × (generate sample_model waiting_task 0 ≡ (ok g, v))
    × IsResultOf by_request waiting_task g
generate-IsResultOf_example =
    generate-IsResultOf sample_model by_request sample_model-by_request waiting_task 0

check_health-IsReport_example :
    (r : ImageHealthResult) × (v : ℕ) × (check_health sample_model 0 ≡ (ok r, v)) × IsReport r
check_health-IsReport_example =
    check_health-IsReport sample_model (record { yields = λ w. tt }) (record { yields = λ w. tt })
      (λ url seconds. record { yields = λ w. tt }) (λ path status. record { yields = λ w. tt }) 0
