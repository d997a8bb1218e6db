-- ===== src/Ticks/Tests.antt =====
-- Runs of the ticks program, and the theorems at them.
use qcap_demos.Prelude.{
  ℕ, ltb, ◌+◌, ◌≤◌, ◌<◌, ◌≡◌, refl, true, false, List, [], ◌∷◌, ◌++◌, none, some, leb,
  if◌then◌else◌, arith,
}
use qcap_demos.Ticks.{Parsed, Sample, parse_counter, parse_count, skip_blanks}
use qcap_demos.Ticks.Loop.{Round}
use qcap_demos.Ticks.Main.{ParsedReal, Casts, Options, command, parse_double, interval_ns, main}
use qcap_demos.Ticks.Main.Samples.{reads, Ends, main-Ends}
use qcap_demos.Ticks.Search.{
  Node, regular, other, directory, nothing, entry, first_counter, counter_files_exist, find_in_tree,
  find_in_entries,
}
use qcap_demos.Ticks.Search.First.{candidates, first, find_in_tree_first}
use qcap_demos.Ticks.Stats.{Arithmetic}
use qcap_demos.Ticks.Loop.{State, sleep_until, loop, start, take_sample}
use qcap_demos.Ticks.Totals.{Truth, read_rounds, last, Tally, totals_true, take_sample_deadline}

-- Whole numbers in place of floating point.
abbrev whole : Arithmetic ℕ
whole = record {
  of_nat = λ n. n;
  plus = λ a b. a;
  minus = λ a b. a;
  times = λ a b. a;
  over = λ a b. a;
  root = λ a. a;
  is_less = λ a b. false;
  infinity = 0;
  minus_infinity = 0;
}

-- The second counter passes 2^32.
abbrev later : List Truth
later = record { counts = 5 ∷ 4294967300 ∷ 0 ∷ 0 ∷ []; now = 20 } ∷ []

totals_true_example :
    let from : Truth = record { counts = 1 ∷ 4294967290 ∷ 0 ∷ 0 ∷ []; now = 10 } in
    let end =
      (loop whole
        (λ ns. ns)
        0
        10
        (read_rounds later)
        (start whole
          (λ ns. ns)
          10
          (record { ticks = 1 ∷ 4294967290 ∷ 0 ∷ 0 ∷ []; timestamp_ns = 10 }))).1 in
    Tally from.counts (last from later).counts end.stats
    × (end.total_elapsed_ns + 10 ≡ (last from later).now)
totals_true_example =
    totals_true whole (λ ns. ns) 10 1 4294967290 0 0 10 later
      (
        omega arith,
        omega arith,
        (
          omega arith,
          omega arith,
          omega arith,
          (
            omega arith,
            omega arith,
            omega arith,
            (omega arith, omega arith, omega arith, (omega arith, omega arith, omega arith, tt)),
          ),
        ),
        tt,
      )

abbrev at_10 : State ℕ
at_10 = record {
  previous = record { ticks = []; timestamp_ns = 10 };
  stats = [];
  total_elapsed_ns = 0;
  deadline_ns = 20;
  sample_number = 0;
}

abbrev at_95 : Sample
at_95 = record { ticks = []; timestamp_ns = 95 }

take_sample_deadline_example :
    (95 < (take_sample whole (λ ns. ns) 10 at_95 at_10).deadline_ns)
    × ((take_sample whole (λ ns. ns) 10 at_95 at_10).deadline_ns
        ≤ (if leb 95 20 then 20 else 95) + 10)
take_sample_deadline_example =
    take_sample_deadline whole (λ ns. ns) 10 at_95 at_10 (omega arith) (omega arith) (omega arith)

-- A link that is not followed, and a directory with the counter.
abbrev tree : Node
tree = directory (
    entry (46 ∷ []) (directory nothing) (
      entry (97 ∷ []) other
        (entry (98 ∷ []) (directory (entry first_counter regular nothing)) nothing)))

find_in_tree_first_example :
    find_in_tree (λ dir i. true) [] tree
    ≡ first (counter_files_exist (λ dir i. true)) (candidates [] tree)
find_in_tree_first_example = find_in_tree_first (λ dir i. true) [] tree

found : find_in_tree (λ dir i. true) [] tree ≡ some (47 ∷ 98 ∷ [])
unfolding find_in_tree find_in_entries counter_files_exist
found = refl

sleeps :
    (sleep_until ((4, false) ∷ (0, false) ∷ []) ≡ true) × (sleep_until ((4, true) ∷ []) ≡ false)
unfolding sleep_until
sleeps = (refl, refl)

minus_refused :
    parse_counter
      (λ text. record { value = 7; rest = []; is_read = true; is_out_of_range = false })
      (32 ∷ 45 ∷ 55 ∷ [])
    ≡ none
unfolding parse_counter skip_blanks
minus_refused = refl

abbrev ordered : Arithmetic ℕ
ordered = record whole { is_less = ltb }

abbrev exact : Casts ℕ
exact = record { is_finite = λ n. true; half = 0; to_u64 = λ n. n }

abbrev five : List ℕ → ParsedReal ℕ
five text = record { value = 5; rest = []; is_read = true; is_out_of_range = false }

abbrev two : List ℕ → Parsed
two text = record { value = 2; rest = []; is_read = true; is_out_of_range = false }

abbrev at_time : ℕ → Sample
at_time t = record { ticks = 1 ∷ 1 ∷ 1 ∷ 1 ∷ []; timestamp_ns = t }

abbrev two_wanted : Options ℕ
two_wanted = record { interval_seconds = 5; requested_samples = 2; requested_directory = [] }

-- The second of the samples is at the time of the first.
abbrev three_reads : List Sample
three_reads = at_time 20 ∷ at_time 20 ∷ at_time 30 ∷ []

abbrev stop_here : Round
stop_here = record { is_stopped = true; is_slept = false; sample = none }

main-Ends_example : Ends 2 (
    main ordered exact
      (λ ns. ns)
      five
      two
      (λ dir. some dir)
      (λ dir. some (at_time 10))
      (λ dir. reads three_reads ++ (stop_here ∷ []))
      ((53 ∷ []) ∷ (50 ∷ []) ∷ []))
unfolding command parse_double parse_count interval_ns
main-Ends_example =
    main-Ends ordered exact (λ ns. ns) five two (λ dir. some dir) (λ dir. some (at_time 10))
      ((53 ∷ []) ∷ (50 ∷ []) ∷ []) two_wanted 5 [] (at_time 10) three_reads stop_here [] refl refl
      refl refl (omega arith) (omega arith) (omega arith)
