-- ===== src/Resync/Watchdog.antt =====
-- src/tests/sc6f0-dante-rx.cpp, `poll_sdi_resync` and `on_sdi_resync_requested`: the policy in the
-- main loop of the Ultra mode.
use qcap_demos.Prelude.{ℕ, Bool, true, false, ◌&&◌, ◌||◌, not, List, [], ◌∷◌, ltb, if◌then◌else◌}
use qcap_demos.Resync.{Policy, observe}

-- What `ultra_direct_context_t` keeps for the watchdog; `mapped` says that the status page is.
pub record Watchdog : Type 0 where
  pub mapped : Bool
  pub last_status : ℕ
  pub policy : Policy

-- What a round of the main loop finds: the time, the status register, the three flags that other
-- handlers of the loop set, and what `reinitialize_sdi_output` gives if it is called.
pub record Round : Type 0 where
  pub now : ℕ
  pub status : ℕ
  pub modeset_active : Bool
  pub overlay_active : Bool
  pub avh_active : Bool
  pub reinitialized : Bool

unfoldable pub resync_requested : Watchdog → Round → Watchdog
resync_requested w r = record w { policy = record (w.policy) { failed = not r.reinitialized } }

-- The new state, and whether the output was reinitialised.
unfoldable pub poll : Watchdog → Round → Watchdog × Bool
unfolding resync_requested
poll w r =
    let eligible = r.modeset_active && (r.overlay_active && not r.avh_active) in
    let (p, fired) = observe w.policy r.now r.status eligible in
    let seen = record w { last_status = r.status; policy = p } in
    if not w.mapped || (w.policy.failed || ltb r.now w.policy.next_sample_ms)
    then (w, false)
    else if fired
    then (resync_requested seen r, true)
    else (seen, false)

-- The main loop over rounds; `hist` collects the times of the attempts, latest first.
unfoldable pub run : Watchdog → List ℕ → List Round → Watchdog × List ℕ
run w hist [] = (w, hist)
run w hist (r ∷ rs) = let (w', fired) = poll w r in run w' (if fired then r.now ∷ hist else hist) rs
