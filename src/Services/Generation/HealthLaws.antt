-- ===== src/Services/Generation/HealthLaws.antt =====
-- What `GenerationClient::checkHealth` promises the health gate.
use text2image.Base.{
  ◌≡◌, ◌≢◌, refl, if◌then◌else◌, ◌⊎◌, inr, ℤ, pos, ◌≤ℤ◌, Bool, false, Option, none, some, [], ◌∷◌,
  Text, bytes, is_empty, eqb_iff, lower, Result, ok, err, arith,
}
use text2image.Errors.Http.{HttpError}
use text2image.Services.Effects.{Exception, std_error, other_error}
use text2image.Services.HealthGate.{ImageHealthResult, default_health}
use text2image.Services.Yields.{
  Yields, Any, pure-Yields, then-Yields, rescue-Yields, Never, returns,
}
use text2image.Services.Generation.{ModelPorts, HealthJson, done}
use text2image.Services.Generation.Health.{
  health_status, read_health, read_result, at_least_zero, unhealthy_or_rethrow, health_of_body,
  check_health,
}

-- The statuses that the health gate tells apart.
abbrev IsKnown : Text → Type 0
IsKnown s =
    (s ≡ bytes "healthy") ⊎ (s ≡ bytes "busy") ⊎ (s ≡ bytes "loading") ⊎ (s ≡ bytes "unhealthy")

pub record IsReport (r : ImageHealthResult) : Type 0 where
  pub known : IsKnown r.status
  pub active_natural : pos 0 ≤ℤ r.active_generations
  pub maximum_natural : pos 0 ≤ℤ r.max_concurrent_generations
  pub kind_named : is_empty r.active_kind ≡ false

health_status-IsKnown :
    (remote : Text) (model_loaded : Bool) → IsKnown (health_status remote model_loaded)
unfolding health_status
health_status-IsKnown remote model_loaded = ground (
  arith,
  eqb_iff remote (bytes "busy"),
  eqb_iff remote (bytes "loading"),
  eqb_iff remote (bytes "unhealthy"),
)

none_named : is_empty (bytes "none") ≡ false
unfolding bytes
none_named = refl

kind_named : (kind : Text) → is_empty (if is_empty kind then bytes "none" else lower kind) ≡ false
kind_named [] = none_named
kind_named (c ∷ kind) = refl

at_least_zero-natural : (n : ℤ) → pos 0 ≤ℤ at_least_zero n
at_least_zero-natural n = ground arith

-- An unhealthy report of what was read.
unhealthy-IsReport :
    (what : Text) (loaded : Bool) (kind : Text) (active maximum : ℤ)
    → is_empty kind ≡ false
    → pos 0 ≤ℤ active
    → pos 0 ≤ℤ maximum
    → IsReport (record {
      status = bytes "unhealthy";
      model_loaded = loaded;
      active_kind = kind;
      active_generations = active;
      max_concurrent_generations = maximum;
      detail = what;
    })
unhealthy-IsReport what loaded kind active maximum k a m = record {
  known = inr (inr (inr refl));
  active_natural = a;
  maximum_natural = m;
  kind_named = k;
}

read_members-IsReport :
    (status : Result Text Text) (loaded : Result Text Bool) (kind : Result Text Text)
    (active maximum : Result Text ℤ)
    → let report : HealthJson = record {
      status = status;
      model_loaded = loaded;
      active_kind = kind;
      active_generations = active;
      max_concurrent_generations = maximum;
    } in
      IsReport (read_result (read_health report default_health))
unfolding read_health
read_members-IsReport (err what) loaded kind active maximum =
    unhealthy-IsReport what false _ _ _ none_named (omega arith) (omega arith)
read_members-IsReport (ok status) (err what) kind active maximum =
    unhealthy-IsReport what false _ _ _ none_named (omega arith) (omega arith)
read_members-IsReport (ok status) (ok loaded) (err what) active maximum =
    unhealthy-IsReport what loaded _ _ _ none_named (omega arith) (omega arith)
read_members-IsReport (ok status) (ok loaded) (ok kind) (err what) maximum =
    unhealthy-IsReport what loaded _ _ _ (kind_named kind) (omega arith) (omega arith)
read_members-IsReport (ok status) (ok loaded) (ok kind) (ok active) (err what) =
    unhealthy-IsReport what loaded _ _ _ (kind_named kind) (at_least_zero-natural active)
      (omega arith)
read_members-IsReport (ok status) (ok loaded) (ok kind) (ok active) (ok maximum) = record {
  known = health_status-IsKnown (lower status) loaded;
  active_natural = at_least_zero-natural active;
  maximum_natural = at_least_zero-natural maximum;
  kind_named = kind_named kind;
}

silent-IsReport :
    (what : Text) → IsReport (record default_health { status = bytes "unhealthy"; detail = what })
silent-IsReport what = unhealthy-IsReport what false _ _ _ none_named (omega arith) (omega arith)

module _ {W : Type 0} (p : ModelPorts W) where
  health_of_text-IsReport :
      (j : Option HealthJson) (body : Text)
      → p.parse_health body ≡ j
      → IsReport (health_of_body p (ok body))
  unfolding health_of_body
  health_of_text-IsReport none [] e = silent-IsReport _
  health_of_text-IsReport (some j) [] e = silent-IsReport _
  health_of_text-IsReport none (c ∷ body) e = rw e (silent-IsReport _)
  health_of_text-IsReport (some j) (c ∷ body) e = rw e (
      read_members-IsReport j.status j.model_loaded j.active_kind j.active_generations
        j.max_concurrent_generations)

  health_of_body-IsReport : (answer : Result HttpError Text) → IsReport (health_of_body p answer)
  health_of_body-IsReport (ok body) = health_of_text-IsReport (p.parse_health body) body refl
  health_of_body-IsReport (err e) = unfold health_of_body in silent-IsReport _

-- What a call throws, if anything, is a `std::exception`.
abbrev pub IsStandard : Exception → Type 0
IsStandard e = e ≢ other_error

unhealthy_or_rethrow-IsReport :
    {W : Type 0} (e : Exception)
    → IsStandard e
    → Yields (unhealthy_or_rethrow {W = W} e) IsReport Never
unhealthy_or_rethrow-IsReport (std_error what) s =
    pure-Yields Never IsReport _ (silent-IsReport what)
unhealthy_or_rethrow-IsReport other_error s = absurd (s refl)

-- Whatever the model service answers, also a report whose members have the wrong kinds, the check of
-- its health returns a report that the gate understands: its status is healthy, busy, loading or
-- unhealthy, the counts are not negative and the kind is not empty. The configuration, the HTTP
-- client and the observation throw nothing but a `std::exception`.
pub check_health-IsReport :
    {W : Type 0} (p : ModelPorts W)
    → Yields {S = W} (done p.service_url) Any IsStandard
    → Yields {S = W} (done p.health_timeout_seconds) Any IsStandard
    → ((url : Text) (seconds : ℤ) → Yields (p.http_get url seconds) Any IsStandard)
    → ((path status : Text) → Yields (p.observe_model_service_call path status) Any IsStandard)
    → (w : W) → (r : ImageHealthResult) × (v : W) × (check_health p w ≡ (ok r, v)) × IsReport r
unfolding check_health
check_health-IsReport p url_fails seconds_fails get_fails observe_fails w =
    returns IsReport _ (yielded.yields w)
  where
    yielded : Yields (check_health p) IsReport Never
    yielded =
        rescue-Yields Never IsReport IsStandard _ _
          (then-Yields IsStandard _ (done p.service_url) _ url_fails λ url.
            then-Yields IsStandard _ (done p.health_timeout_seconds) _ seconds_fails λ seconds.
              then-Yields IsStandard _ (p.http_get _ _) _ (get_fails _ _) λ raw.
                then-Yields IsStandard _ (p.observe_model_service_call _ _) _ (observe_fails _ _)
                  λ u. pure-Yields IsStandard IsReport _ (health_of_body-IsReport p _))
          unhealthy_or_rethrow-IsReport
