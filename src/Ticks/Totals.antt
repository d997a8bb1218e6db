-- ===== src/Ticks/Totals.antt =====
-- src/utils/zdev-ticks-stat.cpp: deadlines, the count of samples, and what the totals stand for.
use qcap_demos.Prelude.{
  ℕ, ◌+◌, ◌%◌, ◌^◌, ◌≤◌, ◌<◌, ◌≡◌, refl, sym, subst, true, false, List, [], ◌∷◌, some, leb, ◌==◌,
  if◌then◌else◌, sub64, arith,
}
use qcap_demos.Ticks.{Sample, midpoint}
use qcap_demos.Ticks.Stats.{Arithmetic, CounterStats, new_stats, add}
use qcap_demos.Ticks.Loop.{
  State, Round, difference, next_deadline, add_all, take_sample, loop, start,
}

-- A sample's time lies between the clock readings before and after it.
midpoint_between :
    (before after : ℕ)
    → before ≤ after
    → after < 2 ^ 64
    → (before ≤ midpoint before after) × (midpoint before after ≤ after)
unfolding midpoint
midpoint_between before after h hw = (omega arith, omega arith)

module _ {F : Type 0} (real : Arithmetic F) (seconds_of : ℕ → F) where
  -- After any sample, also a late one or one without elapsed time, the next deadline lies after the
  -- sample, and at most one interval after it or after the old deadline: there is no burst of immediate
  -- reads. The interval is positive and the times do not reach 2^64.
  pub take_sample_deadline :
      (interval : ℕ) (current : Sample) (st : State F)
      → 0 < interval
      → current.timestamp_ns + interval < 2 ^ 64
      → st.deadline_ns + interval < 2 ^ 64
      → (current.timestamp_ns < (take_sample real seconds_of interval current st).deadline_ns)
        × ((take_sample real seconds_of interval current st).deadline_ns
            ≤ (if leb current.timestamp_ns st.deadline_ns
                then st.deadline_ns
                else current.timestamp_ns)
              + interval)
  unfolding take_sample next_deadline
  take_sample_deadline interval current st h hc hd = ground arith

-- The counters as they really stand, without the wrap, and the time.
pub record Truth : Type 0 where
  pub counts : List ℕ
  pub now : ℕ

abbrev pub words : List ℕ → List ℕ
words [] = []
words (c ∷ cs) = c % 2 ^ 32 ∷ words cs

-- What is read of it.
abbrev pub seen : Truth → Sample
seen t = record { ticks = words t.counts; timestamp_ns = t.now }

-- Each counter advances by less than 2^32.
abbrev pub Advance : List ℕ → List ℕ → Type 0
Advance [] [] = Unit {0}
Advance [] (d ∷ ds) = ⊥
Advance (c ∷ cs) [] = ⊥
Advance (c ∷ cs) (d ∷ ds) = (c ≤ d) × (d < c + 2 ^ 32) × (d < 2 ^ 64) × Advance cs ds

-- Samples with later and later times, each of which is read, and during which no signal comes.
abbrev pub Follow : Truth → List Truth → Type 0
Follow t [] = Unit {0}
Follow t (u ∷ us) = (t.now < u.now) × (u.now < 2 ^ 64) × Advance t.counts u.counts × Follow u us

abbrev pub read_rounds : List Truth → List Round
read_rounds [] = []
read_rounds (t ∷ ts) =
    record { is_stopped = false; is_slept = true; sample = some (seen t) } ∷ read_rounds ts

abbrev pub last : Truth → List Truth → Truth
last t [] = t
last t (u ∷ us) = last u us

module _ {F : Type 0} where
  -- Each total is the difference of the counter from where it started.
  abbrev pub Tally : List ℕ → List ℕ → List (CounterStats F) → Type 0
  Tally (a ∷ bs) (c ∷ cs) (s ∷ ss) = (s.total_ticks + a ≡ c) × Tally bs cs ss
  Tally [] [] [] = Unit {0}
  Tally bs cs ss = ⊥

module _ {F : Type 0} (real : Arithmetic F) (seconds_of : ℕ → F) where
  add_all-Tally :
      (seconds : F) (from cs ds : List ℕ) (ss : List (CounterStats F))
      → Tally from cs ss
      → Advance cs ds
      → Tally from ds (add_all real seconds_of seconds (words ds) (words cs) ss)
  unfolding add_all difference add
  add_all-Tally seconds (a ∷ bs) (c ∷ cs) (d ∷ ds) (s ∷ ss) (h, hs) (lo, hi, hw, rest) =
      (omega arith, add_all-Tally seconds bs cs ds ss hs rest)
  add_all-Tally seconds [] [] [] [] h ha = h
  add_all-Tally seconds [] [] [] (s ∷ ss) h ha = absurd h
  add_all-Tally seconds [] [] (d ∷ ds) ss h ha = absurd ha
  add_all-Tally seconds [] (c ∷ cs) ds ss h ha = absurd h
  add_all-Tally seconds (a ∷ bs) [] ds ss h ha = absurd h
  add_all-Tally seconds (a ∷ bs) (c ∷ cs) [] ss h ha = absurd ha
  add_all-Tally seconds (a ∷ bs) (c ∷ cs) (d ∷ ds) [] h ha = absurd h

  abbrev IsTallied : Truth → Truth → State F → Type 0
  IsTallied t u st =
      Tally t.counts u.counts st.stats
      × (st.previous.ticks ≡ words u.counts)
      × (st.previous.timestamp_ns ≡ u.now)
      × (st.total_elapsed_ns + t.now ≡ u.now)

  take_sample-IsTallied :
      (interval : ℕ) (t u v : Truth) (st : State F)
      → IsTallied t u st
      → u.now < v.now
      → v.now < 2 ^ 64
      → Advance u.counts v.counts
      → IsTallied t v (take_sample real seconds_of interval (seen v) st)
  unfolding take_sample
  take_sample-IsTallied interval t u v st (h, hticks, hts, hsum) hlt hw ha =
      let moved : (sub64 v.now st.previous.timestamp_ns == 0) ≡ false = ground arith in
      let tally =
        subst
          (λ ps. Tally t.counts v.counts (
            add_all real seconds_of (seconds_of (sub64 v.now st.previous.timestamp_ns))
              (words v.counts) ps st.stats))
          (sym hticks)
          (add_all-Tally (seconds_of (sub64 v.now st.previous.timestamp_ns)) t.counts u.counts
            v.counts st.stats h ha) in
      rw moved (tally, refl, refl, omega arith)

  loop-IsTallied :
      (interval : ℕ) (t u : Truth) (us : List Truth) (st : State F)
      → IsTallied t u st
      → Follow u us
      → IsTallied t (last u us) (loop real seconds_of 0 interval (read_rounds us) st).1
  unfolding loop
  loop-IsTallied interval t u [] st h hf = h
  loop-IsTallied interval t u (v ∷ vs) st h (lt, hw, ha, rest) =
      loop-IsTallied interval t v vs (take_sample real seconds_of interval (seen v) st)
        (take_sample-IsTallied interval t u v st h lt hw ha) rest

  -- While no signal comes, no number of samples is asked for, and all four counters, which stay below 2^64,
  -- are read at later and later times and advance by less than 2^32 between two samples: the totals are what
  -- each counter really advanced since the first sample, through any number of wraps of the 32-bit words,
  -- and the total time is the time since then.
  pub totals_true :
      (interval a b c d : ℕ) (now : ℕ) (us : List Truth)
      → Follow (record { counts = a ∷ b ∷ c ∷ d ∷ []; now = now }) us
      → let first : Truth = record { counts = a ∷ b ∷ c ∷ d ∷ []; now = now } in
        let end =
          (loop real seconds_of 0 interval
            (read_rounds us)
            (start real seconds_of interval (seen first))).1 in
        Tally first.counts (last first us).counts end.stats
        × (end.total_elapsed_ns + now ≡ (last first us).now)
  unfolding start new_stats
  totals_true interval a b c d now us h =
      let first : Truth = record { counts = a ∷ b ∷ c ∷ d ∷ []; now = now } in
      let (tally, ticks, ts, sum) =
        loop-IsTallied interval first first us (start real seconds_of interval (seen first))
          ((omega arith, (omega arith, (omega arith, (omega arith, tt)))), refl, refl, omega arith)
          h in
      (tally, sum)
