-- ===== src/Secfunc/Bounds.antt =====
-- The progress bar of scripts/run_secfunc.py stays within its width.
use native.Mathlib.Nat
use omniswitch_ci_cd.Prelude.{ℕ, ◌*◌, ◌≤◌, ◌<◌, ◌≡◌, arith}
use omniswitch_ci_cd.Secfunc.Plan.{round_quotient, bar_filled}

-- A quotient of at most `width` that is not `width` may be rounded up; `width` itself has no remainder.
rounded : (a b width : ℕ) → a ≤ b * width → round_quotient a b ≤ width
rounded a b width h = ground (arith, Nat.div-add-mod a b, Nat.div-le_of_le-mul b h)

scaled : (done total width : ℕ) → done ≤ total → width * done ≤ total * width
scaled done total width le = omega (arith, Nat.mul-le-mul_left width le, Nat.mul_comm width total)

finished : (total width : ℕ) → 0 < total → round_quotient (width * total) total ≡ width
finished total width h = ground (arith, Nat.mul-div_cancel width h, Nat.mul-mod_left width total)

-- The bar never draws more than its width as long as no more steps are done than there are, and it is full once
-- all of them are done.
pub bar_filled-le :
    (done total width : ℕ)
    → done ≤ total
    → 0 < total
    → (bar_filled done total width ≤ width) × (bar_filled total total width ≡ width)
unfolding bar_filled
bar_filled-le done total width le pos = (
  ground (arith, rounded (width * done) total width (scaled done total width le)),
  ground (arith, finished total width pos),
)
