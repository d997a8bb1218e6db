-- ===== src/Ticks/Loop.antt =====
-- src/utils/zdev-ticks-stat.cpp: the sleep and the main loop. A round has what the signal, the sleep and
-- the files of the counters gave.
use qcap_demos.Prelude.{
  ℕ, ◌+◌, ◌-◌, ◌%◌, ◌^◌, Bool, false, ◌||◌, ◌&&◌, not, List, [], ◌∷◌, Option, none, some, leb, ◌==◌,
  if◌then◌else◌, add64, sub64,
}
use qcap_demos.Ticks.{Sample}
use qcap_demos.Ticks.Stats.{Arithmetic, CounterStats, new_stats, add}

-- `sleep_until`: the results of `clock_nanosleep`, each with whether a signal has come, up to the
-- one that ends it; 4 is EINTR.
unfoldable pub sleep_until : List (ℕ × Bool) → Bool
sleep_until [] = false
sleep_until ((error, stopped) ∷ rest) =
    let later = sleep_until rest in
    if error == 0 || stopped then error == 0 else (if error == 4 then later else false)

pub record State (F : Type 0) : Type 0 where
  pub previous : Sample
  pub stats : List (CounterStats F)
  pub total_elapsed_ns : ℕ
  pub deadline_ns : ℕ
  pub sample_number : ℕ

pub record Round : Type 0 where
  pub is_stopped : Bool
  pub is_slept : Bool
  pub sample : Option Sample

-- The loop goes on, or the program prints its statistics, or returns 1.
pub data End : Type 0 where
  running finished failed : End

-- `current.ticks[i] - previous.ticks[i]`, 32 bits wide.
unfoldable pub difference : ℕ → ℕ → ℕ
difference current previous = (current + 2 ^ 32 - previous) % 2 ^ 32

unfoldable pub next_deadline : ℕ → ℕ → ℕ → ℕ
next_deadline deadline interval now =
    let d = add64 deadline interval in if leb d now then add64 now interval else d

module _ {F : Type 0} (real : Arithmetic F) (seconds_of : ℕ → F) where
  unfoldable pub add_all : F → List ℕ → List ℕ → List (CounterStats F) → List (CounterStats F)
  unfolding difference
  add_all seconds (c ∷ cs) (p ∷ ps) (s ∷ ss) =
      add real (difference c p) seconds s ∷ add_all seconds cs ps ss
  add_all seconds cs ps ss = ss

  -- A sample that was read.
  unfoldable pub take_sample : ℕ → Sample → State F → State F
  take_sample interval current st =
      let elapsed = sub64 current.timestamp_ns st.previous.timestamp_ns in
      if elapsed == 0
      then record st { previous = current; deadline_ns = add64 current.timestamp_ns interval }
      else record {
        previous = current;
        stats = add_all (seconds_of elapsed) current.ticks st.previous.ticks st.stats;
        total_elapsed_ns = add64 st.total_elapsed_ns elapsed;
        deadline_ns = next_deadline st.deadline_ns interval current.timestamp_ns;
        sample_number = add64 st.sample_number 1;
      }

  unfoldable pub loop : ℕ → ℕ → List Round → State F → End × State F
  loop requested interval [] st = (running, st)
  loop requested interval (round ∷ rest) st =
      let stopped : End × State F = (finished, st) in
      let unread : End × State F = (failed, st) in
      if round.is_stopped || (not (requested == 0) && leb requested st.sample_number)
      then stopped
      else (if round.is_slept
          then elim round.sample [
            | none ↦ unread
            | some current ↦ loop requested interval rest (take_sample interval current st)
          ]
          else stopped)

  -- The state before the loop, from the first sample.
  unfoldable pub start : ℕ → Sample → State F
  start interval first =
      let none_yet = new_stats real in
      record {
        previous = first;
        stats = none_yet ∷ none_yet ∷ none_yet ∷ none_yet ∷ [];
        total_elapsed_ns = 0;
        deadline_ns = add64 first.timestamp_ns interval;
        sample_number = 0;
      }
