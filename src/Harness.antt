-- ===== src/Harness.antt =====
-- internal/harness/policy.go, Stall.Delay: how long the watcher waits before it reports a stall again.
pub mod CommandLine
use hand.Base.{Bool, ap, arith, refl, suc, sym, zero, ℕ, ◌*◌, ◌^◌, ◌∙◌, ◌≡◌}
use Prim.Native.Nat.{min}
use native.Mathlib.Omega.{pow_step}

-- Stall, in nanoseconds.
pub record Stall : Type 0 where
  pub off : Bool
  pub after : ℕ
  pub every : ℕ

-- The loop `for range n { d = min(2*d, s.Every) }`.
unfoldable pub delay_from : ℕ → ℕ → ℕ → ℕ
delay_from every zero d = d
delay_from every (suc n) d = delay_from every n (min (2 * d) every)

-- Stall.Delay.
unfoldable pub delay : Stall → ℕ → ℕ
unfolding delay_from
delay s n = delay_from s.every n s.after

delay_from-min : (every n d : ℕ) → delay_from every n (min d every) ≡ min (2 ^ n * d) every
unfolding delay_from
delay_from-min every zero d = omega arith
delay_from-min every (suc n) d =
    let step : min (2 * min d every) every ≡ min (2 * d) every = omega arith in
    let double : 2 ^ n * (2 * d) ≡ 2 ^ suc n * d =
      omega arith ∙ sym (ap (λ k. k * d) (pow_step 2 n)) in
    rw step (delay_from-min every n (2 * d) ∙ ap (λ k. min k every) double)

-- The first wait is `After`; the next ones double, as far as `Every`: the n-th after it is 2 ^ n times
-- `After`, or `Every` where that is less.
pub delay-min :
    (s : Stall)
    → (delay s 0 ≡ s.after) × ((n : ℕ) → delay s (suc n) ≡ min (2 ^ suc n * s.after) s.every)
unfolding delay
delay-min s = (
  refl,
  λ n.
      delay_from-min s.every n (2 * s.after)
      ∙ ap (λ k. min k s.every) (omega arith ∙ sym (ap (λ k. k * s.after) (pow_step 2 n))),
)
