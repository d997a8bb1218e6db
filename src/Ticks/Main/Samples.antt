-- ===== src/Ticks/Main/Samples.antt =====
-- src/utils/zdev-ticks-stat.cpp: when the loop ends, and how many samples it has then.
use qcap_demos.Prelude.{
  ℕ, suc, ◌+◌, ◌^◌, ◌≤◌, ◌<◌, ◌≡◌, refl, sym, subst, true, false, List, [], ◌∷◌, ◌++◌, Option, some,
  ◌==◌, if◌then◌else◌, sub64, arith,
}
use qcap_demos.Ticks.{Parsed, Sample}
use qcap_demos.Ticks.Stats.{Arithmetic}
use qcap_demos.Ticks.Loop.{State, Round, End, running, finished, failed, take_sample, loop, start}
use qcap_demos.Ticks.Main.{
  ParsedReal, Casts, Options, Outcome, done, exit_code, command, interval_ns, report, conclude,
  main,
}

-- Rounds that a signal does not stop, with their samples.
abbrev pub reads : List Sample → List Round
reads [] = []
reads (s ∷ ss) = record { is_stopped = false; is_slept = true; sample = some s } ∷ reads ss

-- How many of the samples have another time than the one before.
abbrev pub moved : ℕ → List Sample → ℕ
moved t [] = 0
moved t (s ∷ ss) =
    let later = moved s.timestamp_ns ss in if sub64 s.timestamp_ns t == 0 then later else suc later

module _ {F : Type 0} (real : Arithmetic F) (seconds_of : ℕ → F) (requested interval : ℕ) where
  take_sample-count :
      (s : Sample) (st : State F)
      → st.sample_number + 1 < 2 ^ 64
      → ((take_sample real seconds_of interval s st).previous.timestamp_ns ≡ s.timestamp_ns)
        × ((take_sample real seconds_of interval s st).sample_number ≡ (
            if sub64 s.timestamp_ns st.previous.timestamp_ns == 0
            then st.sample_number
            else suc st.sample_number))
  unfolding take_sample
  take_sample-count s st h = ground arith

  loop-finishes :
      (ss : List Sample) (r : Round) (rest : List Round) (st : State F)
      → 0 < requested
      → requested < 2 ^ 64
      → st.sample_number ≤ requested
      → requested ≤ st.sample_number + moved st.previous.timestamp_ns ss
      → ((loop real seconds_of requested interval (reads ss ++ (r ∷ rest)) st).0 ≡ finished)
        × ((loop real seconds_of requested interval (reads ss ++ (r ∷ rest)) st).1.sample_number
            ≡ requested)
  unfolding loop
  loop-finishes [] r rest st hp hw hs hm = ground arith
  loop-finishes (s ∷ ss) r rest st hp hw hs hm =
      let next = take_sample real seconds_of interval s st in
      let count = take_sample-count s st in
      let later = loop-finishes ss r rest next hp hw in ground arith

module _ {F : Type 0} where
  -- The number of samples of the statistics, and what `main` returns.
  abbrev pub Ends : ℕ → Outcome F → Type 0
  Ends n (done (some r)) = (r.samples ≡ n) × (exit_code (done (some r)) ≡ some 0)
  Ends n outcome = ⊥

module _ {F : Type 0} (real : Arithmetic F) (casts : Casts F) (seconds_of : ℕ → F) where
  conclude-Ends :
      (n : ℕ) (end : End × State F)
      → 0 < n
      → end.0 ≡ finished
      → end.1.sample_number ≡ n
      → Ends n (conclude real casts seconds_of end)
  unfolding conclude report exit_code
  conclude-Ends n (finished, st) hp he hn =
      let some_samples : (st.sample_number == 0) ≡ false = ground arith in
      rw some_samples (hn, refl)
  conclude-Ends n (running, st) hp he hn = absurd (ground arith)
  conclude-Ends n (failed, st) hp he hn = absurd (ground arith)

  -- When the command line asks for some samples, at least one, with an interval in the range, the counters are found and
  -- the first sample is read: if the samples after it that no signal interrupts have at least that many new times
  -- among them, then whatever happens after them `main` ends, prints the statistics of exactly that many samples,
  -- and returns 0.
  pub main-Ends :
      (strtod : List ℕ → ParsedReal F) (strtoull : List ℕ → Parsed)
      (find : List ℕ → Option (List ℕ)) (read : List ℕ → Option Sample) (args : List (List ℕ))
      (options : Options F) (interval : ℕ) (directory : List ℕ) (first : Sample) (ss : List Sample)
      (r : Round) (rest : List Round)
      → command real casts seconds_of strtod strtoull args ≡ some options
      → interval_ns real casts seconds_of options.interval_seconds ≡ some interval
      → find options.requested_directory ≡ some directory
      → read directory ≡ some first
      → 0 < options.requested_samples
      → options.requested_samples < 2 ^ 64
      → options.requested_samples ≤ moved first.timestamp_ns ss
      → Ends options.requested_samples (
          main real casts seconds_of strtod strtoull find read (λ dir. reads ss ++ (r ∷ rest)) args)
  unfolding main start
  main-Ends strtod strtoull find read args options interval directory first ss r rest hc hi hf hr hp
        hw hm =
      let n = options.requested_samples in
      let (over, count) =
        loop-finishes real seconds_of n interval ss r rest (start real seconds_of interval first) hp
          hw (omega arith) (omega (arith, hm)) in
      let steps : main real casts seconds_of strtod strtoull find read
            (λ dir. reads ss ++ (r ∷ rest)) args
          ≡ conclude real casts seconds_of (
              loop real seconds_of n interval (reads ss ++ (r ∷ rest))
                (start real seconds_of interval first)) =
        rw (main, hc, hi, hf, hr) refl in
      subst (Ends n) (sym steps) (
        conclude-Ends n
          (loop real seconds_of n interval (reads ss ++ (r ∷ rest))
            (start real seconds_of interval first))
          hp over count)
