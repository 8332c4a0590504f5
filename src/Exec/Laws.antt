-- ===== src/Exec/Laws.antt =====
-- What holds of an action whatever it does inside: rules for invariants of the state, one for each
-- way to build an action, and the inversion of a statement sequence that returned.
use omniswitch_ci_cd.Prelude.{String, ◌≡◌, refl, Bool, true, false, arith, if◌then◌else◌}
use omniswitch_ci_cd.Errors.{ErrorKind, Exception}
use omniswitch_ci_cd.Exec.{
  Result, ok, raised, Exec, pure, raise, throw, gets, try_except, try_finally, continue, ◌>>=◌,
}

-- `m` keeps `P`, whether it returns or raises.
pub record Keeps {S A : Type 0} (P : S → Type 0) (m : Exec S A) : Type 0 where
  pub at : (s : S) → P s → P (m s).1

module _ {S A : Type 0} {P : S → Type 0} where
  pub Keeps-gets : (f : S → A) → Keeps P (gets f)
  unfolding gets
  Keeps-gets f = record { at = λ s p. p }

  pub Keeps-pure : (a : A) → Keeps P (pure a)
  unfolding pure
  Keeps-pure a = record { at = λ s p. p }

  pub Keeps-raise : (k : ErrorKind) (m : String) → Keeps P (raise {A = A} k m)
  unfolding raise
  Keeps-raise k m = record { at = λ s p. p }

  pub Keeps-throw : (e : Exception) → Keeps P (throw {A = A} e)
  unfolding throw
  Keeps-throw e = record { at = λ s p. p }

  pub Keeps-try_except :
      (m : Exec S A) (h : Exception → Exec S A)
      → Keeps P m
      → ((e : Exception) → Keeps P (h e))
      → Keeps P (try_except m h)
  unfolding try_except
  Keeps-try_except m h km kh = record { at = λ s p. split (m s).0 (m s).1 (km.at s p) }
    where
      split : (r : Result A) (s' : S) → P s' → P (try_except {S = S} (λ _. (r, s')) h s').1
      split (ok a) s' p = p
      split (raised e) s' p = (kh e).at s' p

  pub Keeps-try_finally :
      (m : Exec S A) (last : Exec S Unit) → Keeps P m → Keeps P last → Keeps P (try_finally m last)
  unfolding try_finally
  Keeps-try_finally m last km kl = record { at = λ s p. kl.at (m s).1 (km.at s p) }

  pub Keeps-if : (b : Bool) (m n : Exec S A) → Keeps P m → Keeps P n → Keeps P (if b then m else n)
  Keeps-if true m n km kn = km
  Keeps-if false m n km kn = kn

module _ {S A B : Type 0} {P : S → Type 0} where
  pub Keeps-continue :
      (outcome : Result A) (next : A → Exec S B)
      → ((a : A) → Keeps P (next a))
      → Keeps P (continue outcome next)
  Keeps-continue (ok a) next kept = kept a
  Keeps-continue (raised e) next kept = record { at = λ s p. p }

  pub Keeps-bind :
      (first : Exec S A) (next : A → Exec S B)
      → Keeps P first
      → ((a : A) → Keeps P (next a))
      → Keeps P (first >>= next)
  unfolding ◌>>=◌
  Keeps-bind first next begun kept = record {
    at = λ s p. (Keeps-continue (first s).0 next kept).at (first s).1 (begun.at s p);
  }

module _ {S A B : Type 0} where
  -- A sequence that returned has returned from each part.
  pub continue-eq-ok :
      (r : Result A) (f : A → Exec S B) (s : S) {b : B}
      → (continue r f s).0 ≡ ok b
      → (a : A) × (r ≡ ok a) × ((f a s).0 ≡ ok b)
  continue-eq-ok (ok a) f s h = (a, refl, h)
  continue-eq-ok (raised e) f s h = ground arith

-- `P` holds behind `m`, whatever held before and whether it returns or raises.
pub record Reaches {S A : Type 0} (P : S → Type 0) (m : Exec S A) : Type 0 where
  pub at : (s : S) → P (m s).1

module _ {S : Type 0} {P : S → Type 0} where
  pub Reaches-bind :
      {A B : Type 0} (first : Exec S A) (next : A → Exec S B)
      → Reaches P first
      → ((a : A) → Keeps P (next a))
      → Reaches P (first >>= next)
  unfolding ◌>>=◌
  Reaches-bind first next reached kept = record {
    at = λ s. (Keeps-continue (first s).0 next kept).at (first s).1 (reached.at s);
  }

  pub Reaches-try_finally :
      {A : Type 0} (m : Exec S A) (last : Exec S Unit)
      → Reaches P last
      → Reaches P (try_finally m last)
  unfolding try_finally
  Reaches-try_finally m last reached = record { at = λ s. reached.at (m s).1 }

pub ruleset keeps_rules = (
  Keeps-pure, Keeps-raise, Keeps-throw, Keeps-gets, Keeps-try_except, Keeps-try_finally, Keeps-if,
  Keeps-bind,
)
