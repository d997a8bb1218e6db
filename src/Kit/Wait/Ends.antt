-- ===== src/Kit/Wait/Ends.antt =====
-- src/zzlab/testkit.h: how the loop of a test ends.
use qcap_demos.Prelude.{ℕ, ◌≤◌, ◌≡◌, refl, Bool, true, List, [], ◌∷◌, ◌++◌, arith}
use qcap_demos.Kit.Wait.{
  Wake, failed, timed_out, ended, typed, Waiting, interval, Run, round, rounds,
}

pub interval_pos : (num den : ℕ) (w : Waiting) → 4000 ≤ interval num den w
unfolding interval
interval_pos num den w = ground arith

-- The input does not end in these rounds.
abbrev pub AreOpen : List (ℕ × Wake) → Type 0
AreOpen [] = Unit {0}
AreOpen ((now, ended) ∷ rs) = ⊥
AreOpen ((now, wake) ∷ rs) = AreOpen rs

-- A `q` that is typed while the input has not ended ends the loop, whatever `idle` answers and whatever came
-- before it: what would come after it changes nothing.
pub quit_ends :
    (idle : List ℕ → ℕ → Bool) (before after : List (ℕ × Wake)) (now : ℕ) (r : Run)
    → AreOpen before
    → r.waiting.is_open ≡ true
    → (rounds idle (before ++ ((now, typed 113) ∷ after)) r
        ≡ rounds idle (before ++ ((now, typed 113) ∷ [])) r)
      × ((rounds idle (before ++ ((now, typed 113) ∷ after)) r).is_ended ≡ true)
unfolding rounds round
quit_ends idle [] after now r h ho = ground arith
quit_ends idle ((t, failed) ∷ before) after now r h ho = (refl, refl)
quit_ends idle ((t, timed_out) ∷ before) after now r h ho =
    let next = quit_ends idle before after now (round idle t timed_out r) h ho in ground arith
quit_ends idle ((t, ended) ∷ before) after now r h ho = absurd h
quit_ends idle ((t, typed key) ∷ before) after now r h ho =
    let next = quit_ends idle before after now (round idle t (typed key) r) h (ground arith) in
    ground arith
