-- ===== src/Kit/Ticker/Pace.antt =====
-- src/zzlab/testkit.h: the timer never passes the clock, and the next tick is at most a period away.
use qcap_demos.Prelude.{ℕ, ◌+◌, ◌-◌, ◌*◌, ◌/◌, ◌≤◌, ◌<◌, arith}
use qcap_demos.Kit.Ticker.{forward, TickCtrl, advance}
use native.Mathlib.Nat.{
  div-mul-le_self, le-div_iff_mul-le, le_of_mul-le-mul_right, div-lt_iff_lt-mul, lt-div-mul-add,
}

-- Whole ticks do not last longer than the time that they were counted from.
ticks_within : (d num den : ℕ) → 0 < num → d * num / den * den / num ≤ d
ticks_within d num den hn =
    let a = div-mul-le_self (d * num / den * den) num in
    let b = div-mul-le_self (d * num) den in
    le_of_mul-le-mul_right {k = num} (omega (arith, a, b)) hn

-- One tick more lasts at least as long.
tick_after : (d num den : ℕ) → 0 < num → 0 < den → d ≤ (d * num / den + 1) * den / num
tick_after d num den hn hd =
    let a = lt-div-mul-add {a = d * num} {b = den} hd in
    (le-div_iff_mul-le {k = num} {x = d} {y = (d * num / den + 1) * den} hn).1 (grind arith)

-- A tick more is at most a period and a microsecond more.
tick_period : (n num den : ℕ) → 0 < num → (n + 1) * den / num < n * den / num + den / num + 2
tick_period n num den hn =
    let a = lt-div-mul-add {a = n * den} {b = num} hn in
    let b = lt-div-mul-add {a = den} {b = num} hn in
    (div-lt_iff_lt-mul {k = num} {x = (n + 1) * den} {y = n * den / num + den / num + 2} hn).1
      (grind arith)

abbrev pub IsPaced : TickCtrl → ℕ → ℕ × TickCtrl → Type 0
IsPaced ctrl t (wait, ctrl') =
    (ctrl.timer ≤ ctrl'.timer)
    × (ctrl'.timer ≤ t)
    × (t + wait ≤ ctrl'.timer + ctrl.den_secs / ctrl.num + 1)
    × (t ≤ ctrl'.timer + ctrl.den_secs / ctrl.num + 1)

forward-IsPaced :
    (num den_secs timer t : ℕ)
    → 0 < num
    → 0 < den_secs
    → timer ≤ t
    → (timer ≤ (forward num den_secs timer t).timer)
      × ((forward num den_secs timer t).timer ≤ t)
      × (t + (forward num den_secs timer t).wait
          ≤ (forward num den_secs timer t).timer + den_secs / num + 1)
      × (t ≤ (forward num den_secs timer t).timer + den_secs / num + 1)
unfolding forward
forward-IsPaced num den_secs timer t hn hd h =
    let a = ticks_within (t - timer) num den_secs hn in
    let b = tick_after (t - timer) num den_secs hn hd in
    let c = tick_period ((t - timer) * num / den_secs) num den_secs hn in
    (omega arith, omega arith, omega arith, omega arith)

-- With positive rates and while the clock is not behind the timer, an advance moves the timer forward and
-- not past the clock, leaves it at most a period and a microsecond behind, and the wait that it gives ends at
-- most a period and a microsecond after the new timer.
pub advance-IsPaced :
    (ctrl : TickCtrl) (t : ℕ)
    → 0 < ctrl.num
    → 0 < ctrl.den_secs
    → ctrl.timer ≤ t
    → IsPaced ctrl t (advance t ctrl)
unfolding advance
advance-IsPaced ctrl t hn hd h =
    let p = forward-IsPaced ctrl.num ctrl.den_secs ctrl.timer t hn hd h in ground arith
