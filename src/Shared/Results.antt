-- ===== src/Shared/Results.antt =====
-- Calls that may fail. `err` is a returned error (`anyhow::Error` or `tonic::Status`), `panic` an
-- unwinding panic. What a call wrote before it failed stays written, so the state comes back too.
use mathlib.Core.List.{List, [], ◌∷◌}

pub data Outcome (E A : Type 0) : Type 0 where
  ok : A → Outcome E A
  err : E → Outcome E A
  panic : Outcome E A

abbrev pub Exec : Type 0 → Type 0 → Type 0 → Type 0
Exec S E A = S → Outcome E A × S

module _ {S E A : Type 0} where
  abbrev pub pure : A → Exec S E A
  pure a s = (ok a, s)

  abbrev pub fail : E → Exec S E A
  fail e s = (err e, s)

  abbrev pub abort : Exec S E A
  abort s = (panic, s)

module _ {S E A B : Type 0} where
  abbrev pub and_then : Outcome E A × S → (A → Exec S E B) → Outcome E B × S
  and_then (ok a, s) k = k a s
  and_then (err e, s) k = (err e, s)
  and_then (panic, s) k = (panic, s)

  infixl 5 ◌>>=◌ ◌>>◌
  abbrev pub ◌>>=◌ : Exec S E A → (A → Exec S E B) → Exec S E B
  ◌>>=◌ m k s = and_then (m s) k

  abbrev pub ◌>>◌ : Exec S E A → Exec S E B → Exec S E B
  m >> n = m >>= λ _. n

-- `map_err` of a `Result`
abbrev pub map_err : {S E F A : Type 0} → (E → F) → Outcome E A × S → Outcome F A × S
map_err f (ok a, s) = (ok a, s)
map_err f (err e, s) = (err (f e), s)
map_err f (panic, s) = (panic, s)

-- `for x in xs { body(x)?; }`
abbrev pub for_each : {S E X : Type 0} → (X → Exec S E (Unit {0})) → List X → Exec S E (Unit {0})
for_each body [] = pure tt
for_each body (x ∷ xs) = body x >> for_each body xs

-- `?` on a result without a state
abbrev pub then_with : {E A B : Type 0} → Outcome E A → (A → Outcome E B) → Outcome E B
then_with (ok a) k = k a
then_with (err e) k = err e
then_with panic k = panic
