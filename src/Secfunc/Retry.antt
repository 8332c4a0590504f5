-- ===== src/Secfunc/Retry.antt =====
-- `connect_with_retry` of scripts/run_secfunc.py connects if one of its attempts can.
use mathlib.Core.Path.{subst}
use omniswitch_ci_cd.Prelude.{ℕ, zero, suc, ◌≡◌, refl, ap, ◌≤◌, ◌<◌, arith}
use omniswitch_ci_cd.Exec.{Result, ok, raised, try_except, ◌>>=◌, ◌>>◌}
use omniswitch_ci_cd.Driver.{BaseSwitchDriver}
use omniswitch_ci_cd.Secfunc.Accounts.{Runner, retry_connect, connect_with_retry}

module _ {W : Type 0} (runner : Runner W) (driver : BaseSwitchDriver W) (delay : ℕ) where
  -- The world in front of attempt `n`, counted from 0, if the attempts before it failed.
  abbrev pub before_attempt : W → ℕ → W
  before_attempt w zero = w
  before_attempt w (suc n) = (runner.sleep delay (driver.connect (before_attempt w n)).1).1

  before-first :
      (w : W) (n : ℕ)
      → before_attempt w (suc n) ≡ before_attempt (runner.sleep delay (driver.connect w).1).1 n
  before-first w zero = refl
  before-first w (suc n) = ap (λ v. (runner.sleep delay (driver.connect v).1).1) (before-first w n)

  first_ok :
      (slept : (w : W) → (runner.sleep delay w).0 ≡ ok tt) (remaining : ℕ) (w : W)
      → (driver.connect w).0 ≡ ok tt
      → (try_except driver.connect
          (λ exc. runner.sleep delay >> retry_connect runner driver delay remaining)
          w).0
        ≡ ok tt
  unfolding try_except
  first_ok slept remaining w h = rw h

  -- One attempt that may be followed by others.
  attempt_ok :
      (slept : (w : W) → (runner.sleep delay w).0 ≡ ok tt) (remaining : ℕ) (w : W)
      (outcome : Result Unit)
      → (driver.connect w).0 ≡ outcome
      → (retry_connect runner driver delay remaining (runner.sleep delay (driver.connect w).1).1).0
        ≡ ok tt
      → (try_except driver.connect
          (λ exc. runner.sleep delay >> retry_connect runner driver delay remaining)
          w).0
        ≡ ok tt
  unfolding try_except ◌>>=◌
  attempt_ok slept remaining w (ok tt) h next = first_ok slept remaining w h
  attempt_ok slept remaining w (raised e) h next = rw (h, slept (driver.connect w).1, next)

  retry_lem :
      (slept : (w : W) → (runner.sleep delay w).0 ≡ ok tt) (remaining n : ℕ) (w : W)
      → n ≤ remaining
      → (driver.connect (before_attempt w n)).0 ≡ ok tt
      → (retry_connect runner driver delay remaining w).0 ≡ ok tt
  unfolding retry_connect
  retry_lem slept zero zero w le h = h
  retry_lem slept zero (suc n) w le h = absurd (omega arith)
  retry_lem slept (suc remaining) zero w le h = first_ok slept remaining w h
  retry_lem slept (suc remaining) (suc n) w le h = attempt_ok slept remaining w _ refl (
      retry_lem slept remaining n _ (omega arith)
        (subst (λ v. (driver.connect v).0 ≡ ok tt) (before-first w n) h))

  -- If sleeping returns, `connect_with_retry` returns, and so is connected, as soon as one of its attempts, made behind
  -- failed ones and the sleeps between them, is one that connects.
  pub connect_with_retry-connects :
      (slept : (w : W) → (runner.sleep delay w).0 ≡ ok tt) (attempts n : ℕ) (w : W)
      → n < attempts
      → (driver.connect (before_attempt w n)).0 ≡ ok tt
      → (connect_with_retry runner driver attempts delay w).0 ≡ ok tt
  unfolding connect_with_retry
  connect_with_retry-connects slept zero n w lt h = absurd (omega arith)
  connect_with_retry-connects slept (suc attempts) n w lt h =
      retry_lem slept attempts n w (omega arith) h
