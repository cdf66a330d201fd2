-- ===== src/Services/Generation/Laws.antt =====
-- What `GenerationClient::generate` and `checkHealth` promise the task engine.
use text2image.Base.{
  ◌≡◌, refl, ℤ, true, false, not, Option, none, some, [], ◌∷◌, ◌++◌, Text, bytes, is_empty, Result,
  ok, err, Action, arith, Bool, sym,
}
use text2image.Models.TaskStatus.{is_success, is_terminal}
use text2image.Models.ImageGeneration.{ImageGeneration}
use text2image.Database.Table.{is_finished}
use text2image.Errors.Http.{HttpError}
use text2image.Services.Effects.{Exception, std_error, other_error}
use text2image.Services.CacheKeys.{decimal}
use text2image.Services.Yields.{
  IsOutcome, Yields, Any, Any-Yields, pure-Yields, bind-Yields, then-Yields, if-Yields,
  rescue-Yields, throw-Yields, Never, returns,
}
use text2image.Services.Generation.{
  ModelPorts, RemoteJson, done, mark_exception, merge_payload, merge_remote_result, with_answer,
  with_image_status,
}
use text2image.Services.Generation.Client.{
  download_image_bytes, attempt, call_model, with_download, settled, with_completion,
  missing_binary, store_failed, store_image_bytes, persist_generated_image, generate,
}

-- The result is of the same task.
abbrev pub IsSameTask : ImageGeneration → ImageGeneration → Type 0
IsSameTask g r = (r.id ≡ g.id) × (r.user_id ≡ g.user_id) × (r.worker_id ≡ g.worker_id)

-- What is known of the key under which the storage keeps an image: of a user, a request id, the image
-- and the key.
abbrev pub KeyLaw : Type 1
KeyLaw = ℤ → Text → Text → Text → Type 0

abbrev pub any_key : KeyLaw
any_key user_id request_id image key = Unit {0}

-- The result of a call of the model, as a worker hands it to the repository: it is of the same task
-- and finished, and a success has the key that the storage gave for an image that is not empty.
pub record IsResultOf (IsKey : KeyLaw) (g r : ImageGeneration) : Type 0 where
  pub same_task : IsSameTask g r
  pub finished : is_finished r.status ≡ true
  pub stored_key :
      is_success r.status ≡ true
      → (image : Text) × (is_empty image ≡ false) × IsKey g.user_id r.request_id image r.storage_key
  pub stored_bytes : is_success r.status ≡ true → r.image_bytes ≡ []
  pub stored_url :
      is_success r.status ≡ true
      → r.image_url ≡ bytes "/api/images/" ++ (decimal g.id ++ bytes "/binary")

mark_exception-IsSameTask :
    (e : Exception) (g : ImageGeneration) → IsSameTask g (mark_exception e g)
unfolding mark_exception
mark_exception-IsSameTask (std_error what) g = (refl, refl, refl)
mark_exception-IsSameTask other_error g = (refl, refl, refl)

module _ {W : Type 0} (p : ModelPorts W) where
  with_body-IsSameTask :
      (j : Option RemoteJson) (body : Text) (g : ImageGeneration)
      → p.parse_remote body ≡ j
      → IsSameTask g (with_answer p (ok body) g)
  unfolding with_answer merge_remote_result merge_payload
  with_body-IsSameTask none [] g e = (refl, refl, refl)
  with_body-IsSameTask none (c ∷ body) g e = rw e (refl, refl, refl)
  with_body-IsSameTask (some j) [] g e = (refl, refl, refl)
  with_body-IsSameTask (some j) (c ∷ body) g e = rw e (refl, refl, refl)

  with_answer-IsSameTask :
      (answer : Result HttpError Text) (g : ImageGeneration) → IsSameTask g (with_answer p answer g)
  with_answer-IsSameTask (ok body) g = with_body-IsSameTask (p.parse_remote body) body g refl
  with_answer-IsSameTask (err e) g = unfold with_answer in (refl, refl, refl)

  call_model-Yields :
      (X : Exception → Type 0) (g : ImageGeneration) → Yields (call_model p g) (IsSameTask g) X
  unfolding call_model attempt
  call_model-Yields X g =
      rescue-Yields X (IsSameTask g) Any _ _
        (then-Yields Any _ (done p.service_url) _ (Any-Yields _) λ service_url.
          then-Yields Any _ (done p.timeout_seconds) _ (Any-Yields _) λ seconds.
            then-Yields Any _ (done (p.dump_payload g)) _ (Any-Yields _) λ payload.
              then-Yields Any _ (p.post_json _ _ _ _) _ (Any-Yields _) λ raw.
                then-Yields Any _ (p.observe_model_service_call _ _) _ (Any-Yields _)
                  λ observed. pure-Yields Any (IsSameTask g) _ (with_answer-IsSameTask _ g))
        (λ e x. pure-Yields X (IsSameTask g) _ (mark_exception-IsSameTask e g))

-- How the calls that `generate` makes outside its try blocks may fail. What the storage throws is
-- caught if it is a `std::exception`; the keys that it returns are as `IsKey` says.
pub record Fails {W : Type 0} (p : ModelPorts W) (IsKey : KeyLaw) (X : Exception → Type 0)
    : Type 0 where
  pub get_fails : (url : Text) (seconds : ℤ) → Yields (p.http_get url seconds) Any X
  pub observe_fails : (path status : Text) → Yields (p.observe_model_service_call path status) Any X
  pub clock_fails : Yields p.clock_now Any X
  pub store_fails :
      (user : ℤ) (request_id image : Text)
      → Yields
          (p.store_image user request_id image)
          (IsKey user request_id image)
          (λ e. e ≡ other_error → X e)

Any-IsOutcome_std :
    {S A : Type 0} (o : Result Exception A × S) → IsOutcome Any (λ e. e ≡ other_error → Any e) o
Any-IsOutcome_std (ok a, s) = tt
Any-IsOutcome_std (err e, s) = λ same. tt

Any-Yields_std :
    {S A : Type 0} (m : Action S Exception A) → Yields m Any (λ e. e ≡ other_error → Any e)
Any-Yields_std m = record { yields = λ s. Any-IsOutcome_std (m s) }

-- Anything may be thrown.
pub may_fail : {W : Type 0} (p : ModelPorts W) → Fails p any_key Any
may_fail p = record {
  get_fails = λ url seconds. Any-Yields _;
  observe_fails = λ path status. Any-Yields _;
  clock_fails = Any-Yields _;
  store_fails = λ user request_id image. Any-Yields_std (p.store_image user request_id image);
}

-- A task that is settled: it is the same, and finished.
abbrev IsSettled : ImageGeneration → ImageGeneration → Type 0
IsSettled g r = IsSameTask g r × (is_finished r.status ≡ true)

settled-IsSettled :
    (g h : ImageGeneration) → IsSameTask g h → IsSettled g (settled (with_image_status h))
settled-IsSettled g h same = ground arith

differ : {b : Bool} → b ≡ false → b ≡ true → ⊥
differ e s = ground arith

not_success :
    (IsKey : KeyLaw) (g h : ImageGeneration)
    → IsSettled g h
    → is_success h.status ≡ false
    → IsResultOf IsKey g h
not_success IsKey g h settles e = record {
  same_task = settles.0;
  finished = settles.1;
  stored_key = λ s. absurd (differ e s);
  stored_bytes = λ s. ground arith;
  stored_url = λ s. ground arith;
}

module _ {W : Type 0} (p : ModelPorts W) (IsKey : KeyLaw) (X : Exception → Type 0)
    (fails : Fails p IsKey X) where
  with_download-Yields :
      (g h : ImageGeneration) → IsSameTask g h → Yields (with_download p h) (IsSameTask g) X
  unfolding with_download download_image_bytes
  with_download-Yields g h same =
      if-Yields X (IsSameTask g) (is_empty h.image_url) _ _
        (λ e. pure-Yields X (IsSameTask g) _ same)
        λ e.
          then-Yields X _ (download_image_bytes p _ _) _
            (then-Yields X Any (p.http_get _ _) _ (fails.get_fails _ _) λ raw.
              then-Yields X Any (p.observe_model_service_call _ _) _ (fails.observe_fails _ _)
                λ u. pure-Yields X Any _ tt)
            λ image. pure-Yields X (IsSameTask g) _ same

  with_completion-Yields :
      (g h : ImageGeneration) → IsSettled g h → Yields (with_completion p h) (IsSettled g) X
  unfolding with_completion
  with_completion-Yields g h settles =
      if-Yields X (IsSettled g) (is_terminal h.status) _ _
        (λ e.
          then-Yields X _ p.clock_now _ fails.clock_fails
            λ now. pure-Yields X (IsSettled g) _ settles)
        (λ e. pure-Yields X (IsSettled g) _ settles)

  store_failed-Yields :
      (g h : ImageGeneration)
      → IsSettled g h
      → (e : Exception) → (e ≡ other_error → X e)
      → Yields (store_failed p h e) (IsResultOf IsKey g) X
  unfolding store_failed
  store_failed-Yields g h settles (std_error what) x =
      then-Yields X _ p.clock_now _ fails.clock_fails
        λ now. pure-Yields X (IsResultOf IsKey g) _ (not_success IsKey g _ (settles.0, refl) refl)
  store_failed-Yields g h settles other_error x =
      throw-Yields X (IsResultOf IsKey g) other_error (x refl)

  store_image_bytes-Yields :
      (g h : ImageGeneration)
      → IsSettled g h
      → is_empty h.image_bytes ≡ false
      → Yields (store_image_bytes p h) (IsResultOf IsKey g) X
  unfolding store_image_bytes
  store_image_bytes-Yields g h settles full =
      rescue-Yields X (IsResultOf IsKey g) (λ e. e ≡ other_error → X e) _ _
        (bind-Yields _ _ _ (p.store_image _ _ _) _ (fails.store_fails _ _ _) λ key is_key.
          pure-Yields _ (IsResultOf IsKey g) _ (record {
            same_task = settles.0;
            finished = settles.1;
            stored_key = λ s. (h.image_bytes, full, rw (sym settles.0.1) is_key);
            stored_bytes = λ s. refl;
            stored_url = λ s. rw (settles.0.0) refl;
          }))
        (store_failed-Yields g h settles)

  missing_binary-Yields :
      (g h : ImageGeneration) → IsSettled g h → Yields (missing_binary p h) (IsResultOf IsKey g) X
  unfolding missing_binary
  missing_binary-Yields g h settles =
      then-Yields X _ p.clock_now _ fails.clock_fails
        λ now. pure-Yields X (IsResultOf IsKey g) _ (not_success IsKey g _ (settles.0, refl) refl)

  persist_generated_image-Yields :
      (g h : ImageGeneration)
      → IsSettled g h
      → Yields (persist_generated_image p h) (IsResultOf IsKey g) X
  unfolding persist_generated_image
  persist_generated_image-Yields g h settles =
      if-Yields X (IsResultOf IsKey g) (not (is_success h.status)) _ _
        (λ e. pure-Yields X (IsResultOf IsKey g) _ (not_success IsKey g h settles (ground arith)))
        λ e.
          if-Yields X (IsResultOf IsKey g) (is_empty h.image_bytes) _ _
            (λ i. missing_binary-Yields g h settles) (λ i. store_image_bytes-Yields g h settles i)

  pub generate-Yields : (g : ImageGeneration) → Yields (generate p g) (IsResultOf IsKey g) X
  unfolding generate
  generate-Yields g =
      bind-Yields X (IsSameTask g) _ (call_model p g) _ (call_model-Yields p X g) λ answered same.
        bind-Yields X (IsSameTask g) _ (with_download p answered) _
          (with_download-Yields g answered same)
          λ fetched same'.
            bind-Yields X (IsSettled g) _ (with_completion p _) _
              (with_completion-Yields g _ (settled-IsSettled g fetched same'))
              λ completed settles. persist_generated_image-Yields g completed settles

-- Whatever the model service answers and whatever goes wrong in the calls that are guarded by a try
-- block, the call of the model returns a finished result of the same task, owner and worker, and a
-- success has the key that the storage gave for an image that is not empty, of this user and the
-- result's request id, no bytes of its own and the address of the task's binary. The download, its
-- observation and the clock do not throw, and the storage throws nothing but a `std::exception`.
-- `IsKey` is whatever the storage promises of its keys.
pub generate-IsResultOf :
    {W : Type 0} (p : ModelPorts W) (IsKey : KeyLaw)
    → Fails p IsKey Never
    → (g : ImageGeneration) (w : W)
    → (r : ImageGeneration) × (v : W) × (generate p g w ≡ (ok r, v)) × IsResultOf IsKey g r
generate-IsResultOf p IsKey fails g w =
    returns (IsResultOf IsKey g) _ ((generate-Yields p IsKey Never fails g).yields w)
