-- ===== src/Exec.antt =====
-- Statements that change a state and may raise. The state outlives an exception: what was written
-- before a `raise` stays written, so it comes back beside the exception too.
pub mod Laws
pub mod Triple
use omniswitch_ci_cd.Prelude.{String}
use omniswitch_ci_cd.Errors.{ErrorKind, Exception}

pub data Result (A : Type 0) : Type 0 where
  ok : A → Result A
  raised : Exception → Result A

abbrev pub Exec : Type 0 → Type 0 → Type 0
Exec S A = S → Result A × S

abbrev pub after_finally : {A : Type 0} → Result A → Result (Unit {0}) → Result A
after_finally r (ok _) = r
after_finally r (raised e) = raised e

module _ {S A : Type 0} where
  unfoldable pub gets : (S → A) → Exec S A
  gets f s = (ok (f s), s)

  unfoldable pub pure : A → Exec S A
  pure a s = (ok a, s)

  unfoldable pub throw : Exception → Exec S A
  throw e s = (raised e, s)

  unfoldable pub raise : ErrorKind → String → Exec S A
  raise k m s = (raised (record { kind = k; message = m }), s)

  abbrev pub after_try : Result A → (Exception → Exec S A) → Exec S A
  after_try (ok a) handler s = (ok a, s)
  after_try (raised e) handler s = handler e s

  -- `try: body` / `except Exception as exc: handler(exc)`.
  unfoldable pub try_except : Exec S A → (Exception → Exec S A) → Exec S A
  try_except body handler s = let (r, s') = body s in after_try r handler s'

  -- `try: body` / `finally: last`. An exception of the last part replaces the first outcome.
  unfoldable pub try_finally : Exec S A → Exec S Unit → Exec S A
  try_finally body last s =
      let (r, s') = body s in let (q, s'') = last s' in (after_finally r q, s'')

unfoldable pub modify : {S : Type 0} → (S → S) → Exec S Unit
modify f s = (ok tt, f s)

module _ {S A B : Type 0} where
  abbrev pub continue : Result A → (A → Exec S B) → Exec S B
  continue (raised e) next s = (raised e, s)
  continue (ok a) next s = next a s

  infixl 5 ◌>>=◌ ◌>>◌
  -- Opening this opens the other statements too.
  unfoldable pub ◌>>=◌ : Exec S A → (A → Exec S B) → Exec S B
  unfolding pure throw raise gets modify try_except try_finally
  ◌>>=◌ first next s = let (outcome, s') = first s in continue outcome next s'

  abbrev pub ◌>>◌ : Exec S A → Exec S B → Exec S B
  first >> second = first >>= λ _. second
