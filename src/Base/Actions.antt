-- ===== src/Base/Actions.antt =====
-- Fallible actions on a state: the state is kept when an action fails, as it is when a C++ function
-- returns early or throws after a side effect.
use mathlib.Core.Bool.{Bool, true, false}

pub data Result (E A : Type 0) : Type 0 where
  ok : A → Result E A
  err : E → Result E A

abbrev pub Action : Type 0 → Type 0 → Type 0 → Type 0
Action S E A = S → Result E A × S

-- What follows a step: the next step runs on the new state, or the failure is passed on.
abbrev pub next : {S E A B : Type 0} → (A → Action S E B) → Result E A × S → Result E B × S
next f (ok a, s) = f a s
next f (err e, s) = (err e, s)

infixl 5 ◌>>=◌ ◌>>◌
abbrev pub ◌>>=◌ : {S E A B : Type 0} → Action S E A → (A → Action S E B) → Action S E B
◌>>=◌ m f s = next f (m s)

abbrev pub ◌>>◌ : {S E B : Type 0} → Action S E (Unit {0}) → Action S E B → Action S E B
m >> k = m >>= λ _. k

abbrev pub pure : {S E A : Type 0} → A → Action S E A
pure a s = (ok a, s)

abbrev pub fail : {S E A : Type 0} → E → Action S E A
fail e s = (err e, s)

abbrev pub get : {S E : Type 0} → Action S E S
get s = (ok s, s)

abbrev pub guard : {S E : Type 0} → Bool → E → Action S E (Unit {0})
guard true e = pure tt
guard false e = fail e

-- Runs a step only under a condition.
abbrev pub when : {S E : Type 0} → Bool → Action S E (Unit {0}) → Action S E (Unit {0})
when true m = m
when false m = pure tt
