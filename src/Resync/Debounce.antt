-- ===== src/Resync/Debounce.antt =====
-- One bad reading never resets the output: an attempt needs a streak of suspect samples.
use qcap_demos.Prelude.{
  ℕ, zero, suc, ◌+◌, ◌≤◌, ◌<◌, ◌≡◌, refl, sym, ◌∙◌, Bool, true, false, List, [], ◌∷◌, arith, ltb,
  if◌then◌else◌, add64, add32, inl, inr, ◌&&◌, ◌||◌, not, ◌⊎◌,
}
use qcap_demos.Resync.{Policy, initial, observe, sampled, has_suspect_alignment_history}
use qcap_demos.Resync.Watchdog.{Watchdog, Round, poll}
use qcap_demos.Resync.RateLimit.{max_uptime, InOrder}

-- The time of a sample and whether it was eligible and suspect; latest first in a log.
abbrev pub Sample : Type 0
Sample = ℕ × Bool

-- The step from the sample before: at least the sampling period, and no gap in the polling.
abbrev pub Follows : ℕ → List Sample → Type 0
Follows t [] = ⊥
Follows t ((u, _) ∷ _) = (u + 500 ≤ t) × (t ≤ u + 1500)

-- The latest `n` samples are all suspect, and follow one another.
abbrev pub HasStreak : ℕ → List Sample → Type 0
HasStreak zero log = Unit {0}
HasStreak (suc zero) [] = ⊥
HasStreak (suc zero) ((t, s) ∷ log) = s ≡ true
HasStreak (suc (suc n)) [] = ⊥
HasStreak (suc (suc n)) ((t, s) ∷ log) = (s ≡ true) × Follows t log × HasStreak (suc n) log

is_polled : Watchdog → Round → Bool
is_polled w r = not (not w.mapped || (w.policy.failed || ltb r.now w.policy.next_sample_ms))

is_suspect : Round → Bool
is_suspect r =
    (r.modeset_active && (r.overlay_active && not r.avh_active))
    && has_suspect_alignment_history r.status

unfoldable pub logged : Watchdog → Round → List Sample → List Sample
unfolding is_polled is_suspect
logged w r log = if is_polled w r then (r.now, is_suspect r) ∷ log else log

-- The main loop with the log of its samples.
unfoldable pub watch : Watchdog → List Sample → List Round → Watchdog × List Sample
watch w log [] = (w, log)
watch w log (r ∷ rs) = watch (poll w r).0 (logged w r log) rs

-- The policy's count is a streak of the log, and its timer runs from the latest sample.
abbrev Timed : ℕ → List Sample → Type 0
Timed next [] = next ≡ 0
Timed next ((t, _) ∷ _) = (next ≡ t + 500) × (t < max_uptime)

record Counts (p : Policy) (log : List Sample) : Type 0 where
  timed : Timed p.next_sample_ms log
  streak : HasStreak p.samples log

streak-suc :
    (n t : ℕ) (log : List Sample)
    → HasStreak n log
    → (0 < n → Follows t log)
    → HasStreak (suc n) ((t, true) ∷ log)
streak-suc zero t log s f = refl
streak-suc (suc n) t log s f = (refl, f (omega arith), s)

streak-weaken : (n m : ℕ) (log : List Sample) → n ≤ m → HasStreak m log → HasStreak n log
streak-weaken zero m log h s = tt
streak-weaken (suc zero) zero log h s = absurd (omega arith)
streak-weaken (suc zero) (suc zero) log h s = s
streak-weaken (suc zero) (suc (suc m)) [] h s = s
streak-weaken (suc zero) (suc (suc m)) ((t, b) ∷ log) h s = s.0
streak-weaken (suc (suc n)) zero log h s = absurd (omega arith)
streak-weaken (suc (suc n)) (suc zero) log h s = absurd (omega arith)
streak-weaken (suc (suc n)) (suc (suc m)) [] h s = s
streak-weaken (suc (suc n)) (suc (suc m)) ((t, b) ∷ log) h s =
    (s.0, s.1, streak-weaken (suc n) (suc m) log (omega arith) s.2)

streak-add32 :
    (n t : ℕ) (log : List Sample)
    → HasStreak n log
    → (0 < n → Follows t log)
    → HasStreak (add32 n 1) ((t, true) ∷ log)
streak-add32 n t log s f =
    streak-weaken (add32 n 1) (suc n) _ (omega arith) (streak-suc n t log s f)

streak-nil : (n : ℕ) → HasStreak n [] → n ≡ 0
streak-nil zero s = refl
streak-nil (suc zero) s = absurd s
streak-nil (suc (suc n)) s = absurd s

samples-sampled :
    (p : Policy) (now : ℕ)
    → ((sampled now p).samples ≡ 0)
      ⊎ (((sampled now p).samples ≡ p.samples)
          × ((p.next_sample_ms ≡ 0) ⊎ (now ≤ add64 p.next_sample_ms 1000)))
unfolding sampled
samples-sampled p now = ground arith

-- The sample that is taken: its streak before it is counted, which a gap in the polling has cut.
sampled-Follows :
    (p : Policy) (now : ℕ) (log : List Sample)
    → Counts p log
    → p.next_sample_ms ≤ now
    → now < max_uptime
    → (0 < (sampled now p).samples → Follows now log) × HasStreak (sampled now p).samples log
sampled-Follows p now [] c h u = elim (samples-sampled p now) [
  | inl e ↦ rw e (λ k. absurd (omega arith), tt)
  | inr e ↦ rw (e.0, streak-nil p.samples c.streak) (λ k. absurd (omega arith), tt)
]
sampled-Follows p now ((t, b) ∷ log) c h u = elim (samples-sampled p now) [
  | inl e ↦ rw e (λ k. absurd (omega arith), tt)
  | inr e ↦ rw (e.0) (λ k. omega (arith, c.timed, e.1), c.streak)
]

-- What an observation leaves of the count.
samples-observe :
    (p : Policy) (now status : ℕ) (eligible : Bool)
    → p.next_sample_ms ≤ now
    → let q = (observe p now status eligible).0 in
      (q.next_sample_ms ≡ add64 now 500)
      × ((q.samples ≡ 0)
          ⊎ ((q.samples ≡ add32 (sampled now p).samples 1)
              × ((eligible && has_suspect_alignment_history status) ≡ true)))
unfolding observe
samples-observe p now status eligible h = ground arith

-- What a firing observation has counted.
observe-counted :
    (p : Policy) (now status : ℕ) (eligible : Bool)
    → (observe p now status eligible).1 ≡ true
    → (5 ≤ add32 (sampled now p).samples 1)
      × ((eligible && has_suspect_alignment_history status) ≡ true)
unfolding observe
observe-counted p now status eligible h = ground arith

abbrev is_eligible : Round → Bool
is_eligible r = r.modeset_active && (r.overlay_active && not r.avh_active)

poll-polled :
    (w : Watchdog) (r : Round)
    → let seen = observe w.policy r.now r.status (is_eligible r) in
      ((is_polled w r ≡ false) × ((poll w r).1 ≡ false) × ((poll w r).0.policy ≡ w.policy))
      ⊎ ((is_polled w r ≡ true)
          × (w.policy.next_sample_ms ≤ r.now)
          × ((poll w r).1 ≡ seen.1)
          × ((poll w r).0.policy.samples ≡ seen.0.samples)
          × ((poll w r).0.policy.next_sample_ms ≡ seen.0.next_sample_ms))
unfolding poll is_polled
poll-polled w r = ground arith

observe-streak :
    (p : Policy) (now status : ℕ) (eligible : Bool) (log : List Sample)
    → Counts p log
    → p.next_sample_ms ≤ now
    → now < max_uptime
    → (eligible && has_suspect_alignment_history status) ≡ true
    → HasStreak
        (add32 (sampled now p).samples 1)
        ((now, eligible && has_suspect_alignment_history status) ∷ log)
observe-streak p now status eligible log c h u e =
    let f = sampled-Follows p now log c h u in
    rw e (streak-add32 (sampled now p).samples now log f.1 f.0)

poll-Counts :
    (w : Watchdog) (r : Round) (log : List Sample)
    → Counts w.policy log
    → r.now < max_uptime
    → Counts (poll w r).0.policy (logged w r log)
unfolding logged is_suspect
poll-Counts w r log c u = elim (poll-polled w r) [
  | inl e ↦ rw (e.0, e.2) c
  | inr e ↦ rw (e.0) (record {
    timed = omega (arith, (samples-observe w.policy r.now r.status (is_eligible r) e.1).0, e.4);
    streak = elim ((samples-observe w.policy r.now r.status (is_eligible r) e.1).1) [
      | inl z ↦ rw (e.3, z) tt
      | inr z ↦
          rw (e.3, z.0) (observe-streak w.policy r.now r.status (is_eligible r) log c e.1 u z.1)
    ];
  })
]

watch-Counts :
    (w : Watchdog) (log : List Sample) (last : ℕ) (rs : List Round)
    → Counts w.policy log
    → InOrder last rs
    → Counts (watch w log rs).0.policy (watch w log rs).1
unfolding watch
watch-Counts w log last [] c o = c
watch-Counts w log last (r ∷ rs) c o =
    watch-Counts (poll w r).0 (logged w r log) r.now rs (poll-Counts w r log c o.1) o.2

abbrev pub started : Bool → ℕ → Watchdog
started mapped status = record { mapped = mapped; last_status = status; policy = initial }

-- After any run of the main loop from start: a round that reinitialises the output ends a streak of
-- at least five samples, its own among them, that were all eligible and suspect, each 500 to 1500 ms
-- after the one before. So the fault was seen for 2 s without a gap. Rounds are in order of time, at
-- uptimes below 34 years.
pub attempt_needs_streak :
    (mapped : Bool) (status : ℕ) (rs : List Round) (r : Round)
    → InOrder 0 rs
    → r.now < max_uptime
    → (poll (watch (started mapped status) [] rs).0 r).1 ≡ true
    → let (w, log) = watch (started mapped status) [] rs in HasStreak 5 (logged w r log)
unfolding logged is_suspect
attempt_needs_streak mapped status rs r o u f =
    let (w, log) = watch (started mapped status) [] rs in
    let c = watch-Counts (started mapped status) [] 0 rs (record { timed = refl; streak = tt }) o in
    elim (poll-polled w r) [
      | inl e ↦ absurd (cc)
      | inr e ↦
          let fired : (observe w.policy r.now r.status (is_eligible r)).1 ≡ true = sym (e.2) ∙ f in
          let n = observe-counted w.policy r.now r.status (is_eligible r) fired in
          rw (e.0) (
            streak-weaken 5 _ _ n.0
              (observe-streak w.policy r.now r.status (is_eligible r) log c e.1 u n.1))
    ]
