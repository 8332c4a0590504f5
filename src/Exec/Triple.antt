-- ===== src/Exec/Triple.antt =====
-- Partial correctness of actions: if `P` holds before and the action returns `a`, then `Q a` holds
-- after. One rule for each way to build an action. (What raises is covered by `Keeps` in `Laws`.)
use mathlib.Core.Path.{subst}
use omniswitch_ci_cd.Prelude.{String, ◌≡◌, ◌≢◌, refl, sym, Bool, true, false, if◌then◌else◌}
use omniswitch_ci_cd.Errors.{ErrorKind, Exception}
use omniswitch_ci_cd.Exec.Laws.{Keeps}
use omniswitch_ci_cd.Exec.{
  Result, ok, raised, Exec, pure, raise, gets, try_except, after_try, try_finally, after_finally,
  continue, ◌>>=◌,
}

pub record Triple {S A : Type 0} (P : S → Type 0) (m : Exec S A) (Q : A → S → Type 0) : Type 0 where
  pub at : (s : S) → P s → (a : A) → (m s).0 ≡ ok a → Q a (m s).1

pub ok_inj : {A : Type 0} {a b : A} → ok a ≡ ok b → a ≡ b
ok_inj h = cc

not_ok : {A : Type 0} {e : Exception} {a : A} → raised e ≡ ok a → ⊥
not_ok h = cc

module _ {S A : Type 0} {P : S → Type 0} {Q : A → S → Type 0} where
  pub Triple-pure : (a : A) → ((s : S) → P s → Q a s) → Triple P (pure a) Q
  unfolding pure
  Triple-pure a h = record { at = λ s p b e. subst (λ c. Q c s) (ok_inj e) (h s p) }

  pub Triple-raise : (k : ErrorKind) (m : String) → Triple P (raise k m) Q
  unfolding raise
  Triple-raise k m = record { at = λ s p b e. absurd (not_ok e) }

  pub Triple-if :
      (b : Bool) (m n : Exec S A)
      → (b ≡ true → Triple P m Q)
      → (b ≡ false → Triple P n Q)
      → Triple P (if b then m else n) Q
  Triple-if true m n hm hn = hm refl
  Triple-if false m n hm hn = hn refl

  pub Triple-weaken :
      {P' : S → Type 0} (m : Exec S A) → ((s : S) → P' s → P s) → Triple P m Q → Triple P' m Q
  Triple-weaken m h t = record { at = λ s p. t.at s (h s p) }

  -- The last part runs from wherever the body returned; if either raises, nothing is claimed.
  pub Triple-try_finally :
      {R : A → S → Type 0} (m : Exec S A) (last : Exec S Unit)
      → Triple P m R
      → ((a : A) → Triple (R a) last (λ _. Q a))
      → Triple P (try_finally m last) Q
  unfolding try_finally
  Triple-try_finally {R} m last hm hl = record {
    at = λ s p a e. split (m s).0 (m s).1 (hm.at s p) (last (m s).1).0 a e refl;
  }
    where
      split :
          (r : Result A) (s' : S)
          → ((a : A) → r ≡ ok a → R a s')
          → (q : Result (Unit {0})) (a : A) → after_finally r q ≡ ok a
          → (last s').0 ≡ q
          → Q a (last s').1
      split (ok b) s' h (ok u) a e f =
          subst (λ c. Q c (last s').1) (ok_inj e) ((hl b).at s' (h b refl) u f)
      split (ok b) s' h (raised x) a e f = absurd (not_ok e)
      split (raised x) s' h (ok u) a e f = absurd (not_ok e)
      split (raised x) s' h (raised y) a e f = absurd (not_ok e)

  -- The handler never returns.
  pub Triple-try_raise :
      (m : Exec S A) (handler : Exception → Exec S A)
      → Triple P m Q
      → ((e : Exception) (s : S) (a : A) → (handler e s).0 ≢ ok a)
      → Triple P (try_except m handler) Q
  unfolding try_except
  Triple-try_raise m handler hm never = record {
    at = λ s p a e. split (m s).0 (m s).1 (hm.at s p) a e;
  }
    where
      split :
          (r : Result A) (s' : S)
          → ((a : A) → r ≡ ok a → Q a s')
          → (a : A) → (after_try r handler s').0 ≡ ok a
          → Q a (after_try r handler s').1
      split (ok b) s' h a e = h a e
      split (raised x) s' h a e = absurd (never x s' a e)

  -- What an action keeps still holds where it returned.
  pub Triple-Keeps : (m : Exec S A) → Keeps P m → ((a : A) (s : S) → P s → Q a s) → Triple P m Q
  Triple-Keeps m k h = record { at = λ s p a e. h a (m s).1 (k.at s p) }

  -- A condition that does not speak of the state is moved out.
  pub Triple-given : {C : Type 0} (m : Exec S A) → (C → Triple P m Q) → Triple (λ s. C × P s) m Q
  Triple-given m h = record { at = λ s p. (h p.0).at s p.1 }

module _ {S A : Type 0} {P F : S → Type 0} {Q : A → S → Type 0} where
  -- What the action keeps is carried over what is known of it.
  pub Triple-frame :
      (m : Exec S A) → Keeps F m → Triple P m Q → Triple (λ s. F s × P s) m (λ a s. F s × Q a s)
  Triple-frame m k t = record { at = λ s (f, p) a e. (k.at s f, t.at s p a e) }

module _ {S A : Type 0} {C : Type 0} {Q : A → S → Type 0} where
  -- All that is known before does not speak of the state.
  pub Triple-fact : (m : Exec S A) → (C → Triple (λ s. Unit {0}) m Q) → Triple (λ s. C) m Q
  Triple-fact m h = record { at = λ s c. (h c).at s tt }

-- Nothing is claimed.
abbrev pub Anything : {A : Type 0} → A → Type 0
Anything a = Unit

module _ {S A : Type 0} {P : S → Type 0} where
  pub Triple-gets : (f : S → A) → Triple P (gets f) (λ a s. (a ≡ f s) × P s)
  unfolding gets
  Triple-gets f = record { at = λ s p a e. (sym (ok_inj e), p) }

module _ {S A : Type 0} where
  pub anywhere : (P : S → Type 0) (m : Exec S A) → Triple P m (λ _. Anything)
  anywhere P m = record { at = λ s p a e. tt }

module _ {S A B : Type 0} {P : S → Type 0} {R : A → S → Type 0} {Q : B → S → Type 0} where
  pub Triple-bind :
      (m : Exec S A) (f : A → Exec S B)
      → Triple P m R
      → ((a : A) → Triple (R a) (f a) Q)
      → Triple P (m >>= f) Q
  unfolding ◌>>=◌
  Triple-bind m f hm hf = record { at = λ s p b e. split (m s).0 (m s).1 (hm.at s p) b e }
    where
      split :
          (r : Result A) (s' : S)
          → ((a : A) → r ≡ ok a → R a s')
          → (b : B) → (continue r f s').0 ≡ ok b
          → Q b (continue r f s').1
      split (ok a) s' h b e = (hf a).at s' (h a refl) b e
      split (raised x) s' h b e = absurd (not_ok e)

module _ {S A : Type 0} {Q : A → S → Type 0} where
  -- The handler runs from wherever the body raised.
  pub Triple-try_except :
      (m : Exec S A) (handler : Exception → Exec S A)
      → Triple Anything m Q
      → ((e : Exception) → Triple Anything (handler e) Q)
      → Triple Anything (try_except m handler) Q
  unfolding try_except
  Triple-try_except m handler hm hh = record {
    at = λ s p a e. split (m s).0 (m s).1 (hm.at s tt) a e;
  }
    where
      split :
          (r : Result A) (s' : S)
          → ((a : A) → r ≡ ok a → Q a s')
          → (a : A) → (after_try r handler s').0 ≡ ok a
          → Q a (after_try r handler s').1
      split (ok b) s' h a e = h a e
      split (raised x) s' h a e = (hh x).at s' tt a e

module _ {S A B : Type 0} {Q : B → S → Type 0} where
  -- The first part does not matter.
  pub Triple-after :
      (m : Exec S A) (f : A → Exec S B)
      → ((a : A) → Triple Anything (f a) Q)
      → Triple Anything (m >>= f) Q
  Triple-after m f h = Triple-bind m f (anywhere _ m) h
