-- ===== src/Runtime/Monad.antt =====
-- Coroutines of the runtime: they change its state, and they return or raise. An exception is its
-- class and its text, `str(exc)`; what was written before a raise stays written.
use agenyx.Base.{Bool, String, Error, Result, ok, raise, if◌then◌else◌}

pub record Exception : Type 0 where
  pub kind : Error
  pub text : String

pub data Attempt (A : Type 0) : Type 0 where
  returns : A → Attempt A
  throws : Exception → Attempt A

abbrev pub Run : Type 0 → Type 0 → Type 0
Run S A = S → Attempt A × S

-- an error of a called method, with a text that stands for the method's own
abbrev pub described : {A : Type 0} → Result A → Attempt A
described (ok a) = returns a
described (raise e) = throws (record { kind = e; text = "error" })

module _ {S A : Type 0} where
  unfoldable pub pure : A → Run S A
  pure a s = (returns a, s)

  unfoldable pub throw : Error → String → Run S A
  throw kind text s = (throws (record { kind = kind; text = text }), s)

  -- an outcome that the environment decides
  unfoldable pub settle : Attempt A → Run S A
  settle r s = (r, s)

  unfoldable pub gets : (S → A) → Run S A
  gets f s = (returns (f s), s)

  unfoldable pub lift : Result A → Run S A
  lift r s = (described r, s)

  -- `except`, which gets every exception and raises again those that it does not handle
  abbrev handle_in : (Exception → Run S A) → Attempt A → S → Attempt A × S
  handle_in handler (returns a) s = (returns a, s)
  handle_in handler (throws e) s = handler e s

  unfoldable pub try : Run S A → (Exception → Run S A) → Run S A
  try body handler s = let (r, s') = body s in handle_in handler r s'

  -- `finally`, for a block that does not raise
  unfoldable pub finally : Run S A → (S → S) → Run S A
  finally body clean_up s = let (r, s') = body s in (r, clean_up s')

module _ {S A B : Type 0} where
  abbrev rest_of : (A → Run S B) → Attempt A → S → Attempt B × S
  rest_of f (returns a) s = f a s
  rest_of f (throws e) s = (throws e, s)

  infixl 5 ◌>>=◌
  unfoldable pub ◌>>=◌ : Run S A → (A → Run S B) → Run S B
  ◌>>=◌ m f s = let (r, s') = m s in rest_of f r s'

module _ {S : Type 0} where
  unfoldable pub modify : (S → S) → Run S (Unit {0})
  modify f s = (returns tt, f s)

  infixl 5 ◌>>◌
  abbrev pub ◌>>◌ : {B : Type 0} → Run S (Unit {0}) → Run S B → Run S B
  m >> n = m >>= λ _. n

module _ {S : Type 0} where
  -- `if c: raise …`
  unfoldable pub throw_if : Bool → Error → String → Run S (Unit {0})
  unfolding throw pure
  throw_if c kind text = if c then throw kind text else pure tt
