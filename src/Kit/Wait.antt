-- ===== src/Kit/Wait.antt =====
-- src/zzlab/testkit.h: `wait_for_test_finish`, the loop that runs while a test runs. What `select`,
-- `getchar` and the clock give is a list of rounds.
pub mod Ends
use qcap_demos.Prelude.{
  ℕ, ◌+◌, ◌-◌, ◌*◌, ◌/◌, Bool, true, false, List, [], ◌∷◌, ltb, ◌==◌, if◌then◌else◌,
}

-- How a `select` ended: it failed, the time was up, or the input was ready and had ended or gave a key.
pub data Wake : Type 0 where
  failed timed_out ended : Wake
  typed : ℕ → Wake

-- `bStdinOpen`, `nTick` and `now`.
pub record Waiting : Type 0 where
  pub is_open : Bool
  pub tick : ℕ
  pub now : ℕ

-- The microseconds that a round waits; a negative interval is shorter than 4000, as 0 is.
unfoldable pub interval : ℕ → ℕ → Waiting → ℕ
interval num den w =
    let left = (w.tick + 1) * num / den - w.now in if ltb left 4000 then 4000 else left

abbrev pub woken : ℕ → Waiting → Waiting
woken now w = record w { tick = w.tick + 1; now = now }

-- Whether the loop has ended, and the keys that `idle` was called with, 0 for none; `idle` answers by
-- the calls before, newest first.
pub record Run : Type 0 where
  pub is_ended : Bool
  pub waiting : Waiting
  pub calls : List ℕ

-- A call of `idle`: the loop goes on if it answers true.
abbrev pub call : (List ℕ → ℕ → Bool) → ℕ → Run → Run
call idle key r = record r {
  is_ended = if idle r.calls key then false else true;
  calls = key ∷ r.calls;
}

-- One round; a key when the input is no longer watched is not looked at.
unfoldable pub round : (List ℕ → ℕ → Bool) → ℕ → Wake → Run → Run
round idle now failed r = record r { is_ended = true }
round idle now timed_out r = call idle 0 (record r { waiting = woken now r.waiting })
round idle now ended r = record r {
  waiting =
      if r.waiting.is_open
      then record (woken now r.waiting) { is_open = false }
      else woken now r.waiting;
}
round idle now (typed key) r =
    let r' = record r { waiting = woken now r.waiting } in
    if r.waiting.is_open
    then (if key == 113 then record r' { is_ended = true } else call idle key r')
    else r'

unfoldable pub rounds : (List ℕ → ℕ → Bool) → List (ℕ × Wake) → Run → Run
unfolding round
rounds idle [] r = r
rounds idle ((now, wake) ∷ rest) r =
    let r' = round idle now wake r in elim r'.is_ended [ true ↦ r' | false ↦ rounds idle rest r' ]

-- `wait_for_test_finish`: the tick that the loop starts with comes from the clock.
unfoldable pub wait_for_test_finish : (List ℕ → ℕ → Bool) → ℕ → ℕ → ℕ → List (ℕ × Wake) → Run
unfolding rounds
wait_for_test_finish idle num den now rs =
    let waiting : Waiting = record { is_open = true; tick = now * den / num; now = now } in
    rounds idle rs (record { is_ended = false; waiting = waiting; calls = [] })
