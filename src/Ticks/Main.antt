-- ===== src/Ticks/Main.antt =====
-- src/utils/zdev-ticks-stat.cpp: the command line, the whole of `main`, and the statistics that it prints.
-- `strtod`, the cast to uint64_t and what the system gives are arguments.
pub mod Samples
use qcap_demos.Prelude.{
  ℕ, ◌-◌, ◌^◌, Bool, true, false, ◌||◌, not, List, [], ◌∷◌, map, Option, none, some, ◌==◌,
  if◌then◌else◌, ◌>>=◌,
}
use qcap_demos.Ticks.{Parsed, Sample, is_end, parse_count}
use qcap_demos.Ticks.Stats.{Arithmetic, CounterStats, standard_deviation}
use qcap_demos.Ticks.Loop.{State, Round, End, running, finished, failed, loop, start}

-- `strtod`: the value, what follows it, whether anything was read, and ERANGE.
pub record ParsedReal (F : Type 0) : Type 0 where
  pub value : F
  pub rest : List ℕ
  pub is_read : Bool
  pub is_out_of_range : Bool

-- What the program does with floating-point numbers besides the statistics: `isfinite`, 0.5, and the cast.
pub record Casts (F : Type 0) : Type 0 where
  pub is_finite : F → Bool
  pub half : F
  pub to_u64 : F → ℕ

pub record Options (F : Type 0) : Type 0 where
  pub interval_seconds : F
  pub requested_samples : ℕ
  pub requested_directory : List ℕ

-- One line of the statistics.
pub record CounterLine (F : Type 0) : Type 0 where
  pub overall : F
  pub minimum : F
  pub maximum : F
  pub deviation : F

pub record Report (F : Type 0) : Type 0 where
  pub samples : ℕ
  pub total_seconds : F
  pub counters : List (CounterLine F)

-- How the program ends: the usage, an interval that is outside the range, no directory, a sample that cannot be
-- read, or the statistics, if there are any. `goes_on` is a loop that has not ended.
pub data Outcome (F : Type 0) : Type 0 where
  usage bad_interval no_directory unread goes_on : Outcome F
  done : Option (Report F) → Outcome F

-- What `main` returns, when it does.
unfoldable pub exit_code : {F : Type 0} → Outcome F → Option ℕ
exit_code usage = some 2
exit_code bad_interval = some 2
exit_code no_directory = some 1
exit_code unread = some 1
exit_code goes_on = none
exit_code (done report) = some 0

module _ {F : Type 0} (real : Arithmetic F) (casts : Casts F) (seconds_of : ℕ → F) where
  unfoldable pub parse_double : (List ℕ → ParsedReal F) → List ℕ → Option F
  parse_double strtod text =
      let p = strtod text in
      if p.is_out_of_range
        || (not p.is_read
            || (not (is_end p.rest)
                || (not (casts.is_finite p.value) || not (real.is_less (real.of_nat 0) p.value))))
      then none
      else some p.value

  -- The arguments after the name of the program; `none` is the usage.
  unfoldable pub command :
      (List ℕ → ParsedReal F) → (List ℕ → Parsed) → List (List ℕ) → Option (Options F)
  command strtod strtoull [] =
      some (record {
        interval_seconds = real.of_nat 1;
        requested_samples = 0;
        requested_directory = [];
      })
  command strtod strtoull (interval ∷ []) = do
    seconds ← parse_double strtod interval
    some (record { interval_seconds = seconds; requested_samples = 0; requested_directory = [] })
  command strtod strtoull (interval ∷ count ∷ []) = do
    seconds ← parse_double strtod interval
    samples ← parse_count strtoull count
    some (record {
      interval_seconds = seconds;
      requested_samples = samples;
      requested_directory = [];
    })
  command strtod strtoull (interval ∷ count ∷ directory ∷ []) = do
    seconds ← parse_double strtod interval
    samples ← parse_count strtoull count
    some (record {
      interval_seconds = seconds;
      requested_samples = samples;
      requested_directory = directory;
    })
  command strtod strtoull (interval ∷ count ∷ directory ∷ more ∷ rest) = none

  -- The interval in nanoseconds, unless it is outside the range.
  unfoldable pub interval_ns : F → Option ℕ
  interval_ns seconds =
      let scaled = real.times seconds (real.of_nat 1000000000) in
      if real.is_less scaled (real.of_nat 1) || real.is_less (real.of_nat (2 ^ 64 - 1)) scaled
      then none
      else some (casts.to_u64 (real.plus scaled casts.half))

  unfoldable pub counter_line : F → CounterStats F → CounterLine F
  counter_line total s = record {
    overall = real.over (real.of_nat s.total_ticks) total;
    minimum = s.minimum;
    maximum = s.maximum;
    deviation = standard_deviation real s;
  }

  unfoldable pub report : State F → Option (Report F)
  report st =
      let total = seconds_of st.total_elapsed_ns in
      if st.sample_number == 0
      then none
      else some (record {
        samples = st.sample_number;
        total_seconds = total;
        counters = map (counter_line total) st.stats;
      })

  -- After the loop.
  unfoldable pub conclude : End × State F → Outcome F
  conclude (running, st) = goes_on
  conclude (failed, st) = unread
  conclude (finished, st) = done (report st)

  -- `find` is `find_sysfs_directory`; `read` reads the first sample, and `rounds` is what the loop meets, both from a
  -- directory.
  unfoldable pub main :
      (List ℕ → ParsedReal F)
      → (List ℕ → Parsed)
      → (List ℕ → Option (List ℕ))
      → (List ℕ → Option Sample)
      → (List ℕ → List Round)
      → List (List ℕ)
      → Outcome F
  main strtod strtoull find read rounds args = elim (command strtod strtoull args) [
    | none ↦ usage
    | some options ↦ elim (interval_ns options.interval_seconds) [
      | none ↦ bad_interval
      | some interval ↦ elim (find options.requested_directory) [
        | none ↦ no_directory
        | some directory ↦ elim (read directory) [
          | none ↦ unread
          | some previous ↦ conclude (
              loop real seconds_of options.requested_samples interval (rounds directory)
                (start real seconds_of interval previous))
        ]
      ]
    ]
  ]
