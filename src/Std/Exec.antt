-- ===== src/Std/Exec.antt =====
-- Fallible code over a mutable state: a result, an error that `?` passes on, or a panic.
use tache_rs.Prelude.{ℕ, zero, suc, List, [], ◌∷◌, Option, none, some, Bool, true, false}

pub data Outcome {ℓ} (E A : Type ℓ) : Type ℓ where
  ok : A → Outcome E A
  err : E → Outcome E A
  panicked : Outcome E A

-- The error type of code that has no error.
pub data Never {ℓ} : Type ℓ where

-- The state comes back beside an error too: what was read or written before it stays so.
abbrev pub Exec {ℓ} : Type ℓ → Type ℓ → Type ℓ → Type ℓ
Exec S E A = S → Outcome E A × S

module _ {ℓ} {S E A : Type ℓ} where
  abbrev pub pure : A → Exec S E A
  pure a s = (ok a, s)

  abbrev pub fail : E → Exec S E A
  fail e s = (err e, s)

  abbrev pub panic : Exec S E A
  panic s = (panicked, s)

module _ {ℓ} {S E A : Type ℓ} where
  -- `match o { Some(a) => a, None => return Err(e) }`
  abbrev pub or_fail : Option A → E → Exec S E A
  or_fail none e s = (err e, s)
  or_fail (some a) e s = (ok a, s)

module _ {S E : Type 0} where
  -- `if !test { return Err(e) }`
  abbrev pub ensure : Bool → E → Exec S E Unit
  ensure true e s = (ok tt, s)
  ensure false e s = (err e, s)

module _ {ℓ} {S E A B : Type ℓ} where
  abbrev pub continue : Outcome E A × S → (A → Exec S E B) → Outcome E B × S
  continue (ok a, s) f = f a s
  continue (err e, s) f = (err e, s)
  continue (panicked, s) f = (panicked, s)

  infixl 5 ◌>>=◌ ◌>>◌
  abbrev pub ◌>>=◌ : Exec S E A → (A → Exec S E B) → Exec S E B
  ◌>>=◌ m f s = continue (m s) f

  abbrev pub ◌>>◌ : Exec S E A → Exec S E B → Exec S E B
  ◌>>◌ m n s = continue (m s) (λ _. n)

-- The `From` conversion of `?`, or `map_err`.
module _ {ℓ} {S E F A : Type ℓ} where
  abbrev pub convert : (E → F) → Outcome E A × S → Outcome F A × S
  convert f (ok a, s) = (ok a, s)
  convert f (err e, s) = (err (f e), s)
  convert f (panicked, s) = (panicked, s)

  abbrev pub map_err : (E → F) → Exec S E A → Exec S F A
  map_err f m s = convert f (m s)

-- Run an action on a state of its own, which is dropped.
module _ {ℓ} {S T E A : Type ℓ} where
  abbrev pub run_on : T → Exec T E A → Exec S E A
  run_on t m s = ((m t).0, s)

-- `xs[i]`
module _ {E : Type 0} {S : Type 0} where
  abbrev pub index : List ℕ → ℕ → Exec S E ℕ
  index [] i = panic
  index (x ∷ xs) zero = pure x
  index (x ∷ xs) (suc i) = index xs i

-- An action that cannot fail, among actions that can.
module _ {ℓ} {S E A : Type ℓ} where
  abbrev pub total : Exec S (Never {ℓ}) A → Exec S E A
  total m s = convert (λ e. elim e [ ]) (m s)

-- `unwrap`: an error is a panic.
module _ {ℓ} {S E F A : Type ℓ} where
  abbrev pub panicking : Outcome E A × S → Outcome F A × S
  panicking (ok a, s) = (ok a, s)
  panicking (err e, s) = (panicked, s)
  panicking (panicked, s) = (panicked, s)

  abbrev pub unwrap : Exec S E A → Exec S F A
  unwrap m s = panicking (m s)
