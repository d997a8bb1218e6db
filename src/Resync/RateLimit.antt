-- ===== src/Resync/RateLimit.antt =====
-- Attempts are bounded in rate, over any run of the main loop.
mod Attempts
pub use Attempts.{max_uptime, AreApart}
use Attempts.{
  Cooled, Windowed, Apart, observe-fires, observe-waits, Latest, Tracks, take-take, few, fire-Apart,
  fire-Latest, wait-Latest,
}
use qcap_demos.Prelude.{
  ℕ, ◌+◌, ◌*◌, ◌%◌, ◌^◌, ◌≤◌, ◌<◌, ◌≡◌, refl, ap, ◌∙◌, Bool, true, false, List, [], ◌∷◌, ◌++◌,
  length, set, take, arith, if◌then◌else◌, add64, add32, inl, inr, subst, ◌&&◌, not, ◌⊎◌,
}
use qcap_demos.Resync.{
  Policy, initial, recent, recent_from, observe, max_attempts, attempt_window_ms, cooldown_ms,
}
use qcap_demos.Resync.Ring.{newest_first, newest_first-set, recent-oldest}
use qcap_demos.Resync.Watchdog.{Watchdog, Round, poll, run}

observe-Tracks_fires :
    (p : Policy) (now status : ℕ) (eligible : Bool) (hist : List ℕ) (last : ℕ)
    → Tracks p hist last
    → last ≤ now
    → now < max_uptime
    → (observe p now status eligible).1 ≡ true
    → Tracks (observe p now status eligible).0 (now ∷ hist) now
observe-Tracks_fires p now status eligible hist last t h u f =
    let fires = observe-fires p now status eligible f in
    let small = few p hist last t (omega arith) in
    let (x, y, z, slots, shape) =
      newest_first-set (p.attempts % 3) ((p.attempts + 1) % 3) t.a t.b t.c now (omega arith)
        (omega arith) in
    let after : (observe p now status eligible).0.attempts ≡ p.attempts + 1 =
      omega (arith, fires) in
    record {
      a = x;
      b = y;
      c = z;
      slots = fires.2 ∙ (ap (λ s. set s (p.attempts % 3) now) t.slots ∙ slots);
      shape = rw (after) (shape ∙ ap (λ s. now ∷ s) (ap (take 2) t.shape ∙ take-take hist));
      count = omega (arith, t.count);
      latest = fire-Latest p hist last now _ t h u fires.0 fires.4;
      apart = (fire-Apart p hist last now t h u fires.0 fires.1, t.apart);
    }

observe-Tracks_waits :
    (p : Policy) (now status : ℕ) (eligible : Bool) (hist : List ℕ) (last : ℕ)
    → Tracks p hist last
    → last ≤ now
    → (observe p now status eligible).1 ≡ false
    → Tracks (observe p now status eligible).0 hist now
observe-Tracks_waits p now status eligible hist last t h f =
    let waits = observe-waits p now status eligible f in
    record {
      a = t.a;
      b = t.b;
      c = t.c;
      slots = waits.0 ∙ t.slots;
      shape = rw (waits.1) t.shape;
      count = waits.1 ∙ t.count;
      latest = rw (waits.2) (wait-Latest hist _ last now h t.latest);
      apart = t.apart;
    }

-- Whether the policy may fire does not depend on the flag that stops it.
failed-Tracks :
    (p : Policy) (b : Bool) (hist : List ℕ) (last : ℕ)
    → Tracks p hist last
    → Tracks (record p { failed = b }) hist last
failed-Tracks p b hist last t = record {
  a = t.a;
  b = t.b;
  c = t.c;
  slots = t.slots;
  shape = t.shape;
  count = t.count;
  latest = t.latest;
  apart = t.apart;
}

-- A round is passed over, or behaves as the policy's observation.
poll_cases :
    (w : Watchdog) (r : Round)
    → let seen =
        observe w.policy r.now r.status
          (r.modeset_active && (r.overlay_active && not r.avh_active)) in
      (((poll w r).1 ≡ false) × ((poll w r).0.policy ≡ w.policy))
      ⊎ (((poll w r).1 ≡ false) × (seen.1 ≡ false) × ((poll w r).0.policy ≡ seen.0))
      ⊎ (((poll w r).1 ≡ true)
          × (seen.1 ≡ true)
          × ((poll w r).0.policy ≡ record (seen.0) { failed = not r.reinitialized }))
unfolding poll
poll_cases w r = ground arith

later-Tracks :
    (p : Policy) (hist : List ℕ) (last now : ℕ)
    → Tracks p hist last
    → last ≤ now
    → Tracks p hist now
later-Tracks p hist last now t h = record {
  a = t.a;
  b = t.b;
  c = t.c;
  slots = t.slots;
  shape = t.shape;
  count = t.count;
  latest = wait-Latest hist _ last now h t.latest;
  apart = t.apart;
}

poll-Tracks :
    (w : Watchdog) (r : Round) (hist : List ℕ) (last : ℕ)
    → Tracks w.policy hist last
    → last ≤ r.now
    → r.now < max_uptime
    → Tracks (poll w r).0.policy (if (poll w r).1 then r.now ∷ hist else hist) r.now
poll-Tracks w r hist last t h u =
    let eligible = r.modeset_active && (r.overlay_active && not r.avh_active) in
    elim (poll_cases w r) [
      | inl passed ↦ rw (passed.0, passed.1) (later-Tracks w.policy hist last r.now t h)
      | inr (inl e) ↦
          rw (e.0, e.2) (observe-Tracks_waits w.policy r.now r.status eligible hist last t h e.1)
      | inr (inr e) ↦
          rw (e.0, e.2)
            (failed-Tracks _ _ _ _
              (observe-Tracks_fires w.policy r.now r.status eligible hist last t h u e.1))
    ]

-- Rounds come in order of time, and within the uptime considered.
abbrev pub InOrder : ℕ → List Round → Type 0
InOrder last [] = Unit {0}
InOrder last (r ∷ rs) = (last ≤ r.now) × (r.now < max_uptime) × InOrder r.now rs

run-AreApart :
    (w : Watchdog) (hist : List ℕ) (last : ℕ) (rs : List Round)
    → Tracks w.policy hist last
    → InOrder last rs
    → AreApart (run w hist rs).1
unfolding run
run-AreApart w hist last [] t o = t.apart
run-AreApart w hist last (r ∷ rs) t o =
    run-AreApart (poll w r).0 _ r.now rs (poll-Tracks w r hist last t o.0 o.1) o.2

-- Over any run of the main loop from start, whatever the register reads and however each recovery
-- ends, successive output reinitialisations are at least 5 s apart, and of any four in a row the
-- last is at least 60 s after the first. Rounds are in order of time, at uptimes below 34 years.
pub run_rate_limited :
    (mapped : Bool) (status : ℕ) (rs : List Round)
    → InOrder 0 rs
    → AreApart (run (record { mapped = mapped; last_status = status; policy = initial }) [] rs).1
run_rate_limited mapped status rs o =
    run-AreApart (record { mapped = mapped; last_status = status; policy = initial }) [] 0 rs
      (record {
        a = 0;
        b = 0;
        c = 0;
        slots = refl;
        shape = refl;
        count = refl;
        latest = tt;
        apart = tt;
      })
      o
