-- ===== src/Kit/Ticker.antt =====
-- src/zzlab/testkit.h and src/zzlab/ZzUtils.h: the pace of a periodic task (`tick_ctrl_t`,
-- `FPSControl2`). Times are microseconds; the products are below 2^63 and `num` and `den` are positive.
pub mod Pace
use qcap_demos.Prelude.{ℕ, ◌+◌, ◌-◌, ◌*◌, ◌/◌, Bool, true, false, ltb, ◌==◌, if◌then◌else◌}

-- The time that the ticks are counted from, and how long it is until the next tick.
pub record Step : Type 0 where
  pub timer : ℕ
  pub wait : ℕ

-- When the clock is not behind the timer; C's division rounds towards 0.
unfoldable pub forward : ℕ → ℕ → ℕ → ℕ → Step
forward num den_secs timer t =
    let ticks = (t - timer) * num / den_secs in
    let next_timer = timer + (ticks + 1) * den_secs / num in
    record { timer = timer + ticks * den_secs / num; wait = next_timer - t }

-- When it is: the differences and the count of ticks are negative in the source, and are written here
-- with their signs changed.
unfoldable pub backward : ℕ → ℕ → ℕ → ℕ → Step
backward num den_secs timer t =
    let ticks = (timer - t) * num / den_secs in
    let next_timer =
      if ticks == 0 then timer + den_secs / num else timer - (ticks - 1) * den_secs / num in
    record { timer = timer - ticks * den_secs / num; wait = next_timer - t }

pub record TickCtrl : Type 0 where
  pub num : ℕ
  pub den : ℕ
  pub den_secs : ℕ
  pub timer : ℕ

unfoldable pub start : ℕ → TickCtrl → TickCtrl
start t ctrl = record ctrl { den_secs = ctrl.den * 1000000; timer = t }

unfoldable pub advance : ℕ → TickCtrl → ℕ × TickCtrl
advance t ctrl =
    let step =
      if ltb t ctrl.timer
      then backward ctrl.num ctrl.den_secs ctrl.timer t
      else forward ctrl.num ctrl.den_secs ctrl.timer t in
    (step.wait, record ctrl { timer = step.timer })

-- `FPSControl2`, which keeps its own copy of `num` from the start on.
pub record FpsControl : Type 0 where
  pub num : ℕ
  pub den : ℕ
  pub kept_num : ℕ
  pub den_secs : ℕ
  pub timer : ℕ

unfoldable pub fps_start : ℕ → FpsControl → FpsControl
fps_start t ctrl = record ctrl { kept_num = ctrl.num; den_secs = ctrl.den * 1000000; timer = t }

unfoldable pub fps_advance : ℕ → FpsControl → ℕ × FpsControl
fps_advance t ctrl =
    let step =
      if ltb t ctrl.timer
      then backward ctrl.kept_num ctrl.den_secs ctrl.timer t
      else forward ctrl.kept_num ctrl.den_secs ctrl.timer t in
    (step.wait, record ctrl { timer = step.timer })
