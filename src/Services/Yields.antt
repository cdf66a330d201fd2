-- ===== src/Services/Yields.antt =====
-- What holds of the value that an action returns and of the failure that it ends in, in whatever
-- state it runs. Steps of an action are taken through `bind-Yields`.
use text2image.Base.{
  ◌≡◌, refl, Bool, true, false, Result, ok, err, Action, ◌>>=◌, next, pure, if◌then◌else◌,
}
use text2image.Services.Effects.{Exception}
use text2image.Services.Generation.{rescue, caught, done}

abbrev pub IsOutcome : {S E A : Type 0} → (A → Type 0) → (E → Type 0) → Result E A × S → Type 0
IsOutcome Q X (ok a, s) = Q a
IsOutcome Q X (err e, s) = X e

-- `Q` of a value, `X` of a failure.
pub record Yields {S E A : Type 0} (m : Action S E A) (Q : A → Type 0) (X : E → Type 0)
    : Type 0 where
  pub yields : (s : S) → IsOutcome Q X (m s)

-- Nothing is known of the value, or of the failure.
abbrev pub Any : {A : Type 0} → A → Type 0
Any a = Unit {0}

module _ {S E : Type 0} where
  pub Any-IsOutcome : {A : Type 0} (o : Result E A × S) → IsOutcome Any Any o
  Any-IsOutcome (ok a, s) = tt
  Any-IsOutcome (err e, s) = tt

  pub Any-Yields : {A : Type 0} (m : Action S E A) → Yields m Any Any
  Any-Yields m = record { yields = λ s. Any-IsOutcome (m s) }

module _ {S E : Type 0} (X : E → Type 0) where
  pub pure-Yields :
      {A : Type 0} (Q : A → Type 0) (a : A) → Q a → Yields (pure {S = S} {E = E} a) Q X
  pure-Yields Q a q = record { yields = λ s. q }

  next-IsOutcome :
      {A B : Type 0} (Q : A → Type 0) (R : B → Type 0) (f : A → Action S E B)
      → ((a : A) → Q a → Yields (f a) R X)
      → (o : Result E A × S) → IsOutcome Q X o
      → IsOutcome R X (next f o)
  next-IsOutcome Q R f k (ok a, s) q = (k a q).yields s
  next-IsOutcome Q R f k (err e, s) q = q

  pub bind-Yields :
      {A B : Type 0} (Q : A → Type 0) (R : B → Type 0) (m : Action S E A) (f : A → Action S E B)
      → Yields m Q X
      → ((a : A) → Q a → Yields (f a) R X)
      → Yields (m >>= f) R X
  bind-Yields Q R m f h k = record { yields = λ s. next-IsOutcome Q R f k (m s) (h.yields s) }

  -- A step of whose value nothing need be known.
  pub then-Yields :
      {A B : Type 0} (R : B → Type 0) (m : Action S E A) (f : A → Action S E B)
      → Yields m Any X
      → ((a : A) → Yields (f a) R X)
      → Yields (m >>= f) R X
  then-Yields R m f h k = bind-Yields Any R m f h (λ a q. k a)

  pub if-Yields :
      {A : Type 0} (Q : A → Type 0) (b : Bool) (m k : Action S E A)
      → (b ≡ true → Yields m Q X)
      → (b ≡ false → Yields k Q X)
      → Yields (if b then m else k) Q X
  if-Yields Q true m k h h' = h refl
  if-Yields Q false m k h h' = h' refl

module _ {S : Type 0} (X : Exception → Type 0) where
  caught-IsOutcome :
      {A : Type 0} (Q : A → Type 0) (Y : Exception → Type 0) (h : Exception → Action S Exception A)
      → ((e : Exception) → Y e → Yields (h e) Q X)
      → (o : Result Exception A × S) → IsOutcome Q Y o
      → IsOutcome Q X (caught h o)
  caught-IsOutcome Q Y h k (ok a, s) q = q
  caught-IsOutcome Q Y h k (err e, s) y = (k e y).yields s

  -- A body whose failures satisfy `Y`, under a handler.
  pub rescue-Yields :
      {A : Type 0} (Q : A → Type 0) (Y : Exception → Type 0) (m : Action S Exception A)
      (h : Exception → Action S Exception A)
      → Yields m Q Y
      → ((e : Exception) → Y e → Yields (h e) Q X)
      → Yields (rescue m h) Q X
  unfolding rescue
  rescue-Yields Q Y m h y k = record { yields = λ s. caught-IsOutcome Q Y h k (m s) (y.yields s) }

  pub throw-Yields :
      {A : Type 0} (Q : A → Type 0) (e : Exception)
      → X e
      → Yields (done {W = S} {A = A} (err e)) Q X
  throw-Yields Q e x = record { yields = λ s. x }

-- Nothing is thrown.
abbrev pub Never : Exception → Type 0
Never e = ⊥

pub returns :
    {S A : Type 0} (Q : A → Type 0) (o : Result Exception A × S)
    → IsOutcome Q Never o
    → (a : A) × (s : S) × (o ≡ (ok a, s)) × Q a
returns Q (ok a, s) q = (a, s, refl, q)
returns Q (err e, s) q = absurd q

-- An action that keeps a property of the state, also when it fails.
pub record Preserves {S E A : Type 0} (P : S → Type 0) (m : Action S E A) : Type 0 where
  pub preserves : (s : S) → P s → P (m s).1

module _ {S E : Type 0} (P : S → Type 0) where
  next-state :
      {A B : Type 0} (f : A → Action S E B)
      → ((a : A) → Preserves P (f a))
      → (o : Result E A × S) → P o.1
      → P (next f o).1
  next-state f k (ok a, s) h = (k a).preserves s h
  next-state f k (err e, s) h = h

  pub bind-Preserves :
      {A B : Type 0} (m : Action S E A) (f : A → Action S E B)
      → Preserves P m
      → ((a : A) → Preserves P (f a))
      → Preserves P (m >>= f)
  bind-Preserves m f h k = record { preserves = λ s q. next-state f k (m s) (h.preserves s q) }

  pub pure-Preserves : {A : Type 0} (a : A) → Preserves P (pure {S = S} {E = E} a)
  pure-Preserves a = record { preserves = λ s h. h }

  next-both :
      {A B : Type 0} (Q : A → Type 0) (f : A → Action S E B)
      → ((a : A) → Q a → Preserves P (f a))
      → (o : Result E A × S) → P o.1
      → IsOutcome Q Any o
      → P (next f o).1
  next-both Q f k (ok a, s) h q = (k a q).preserves s h
  next-both Q f k (err e, s) h q = h

  -- A step of whose value `Q` is known.
  pub bind-both :
      {A B : Type 0} (Q : A → Type 0) (m : Action S E A) (f : A → Action S E B)
      → Yields m Q Any
      → Preserves P m
      → ((a : A) → Q a → Preserves P (f a))
      → Preserves P (m >>= f)
  bind-both Q m f y h k = record {
    preserves = λ s q. next-both Q f k (m s) (h.preserves s q) (y.yields s);
  }
