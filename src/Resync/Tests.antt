-- ===== src/Resync/Tests.antt =====
-- Runs of the watchdog, and the theorems at them.
use qcap_demos.Prelude.{ℕ, has_prefix, some, ◌≢◌, ◌≡◌, refl, true, false, List, [], ◌∷◌, arith}
use qcap_demos.Resync.{observe, has_suspect_alignment_history, initial}
use qcap_demos.Resync.Watchdog.{Watchdog, Round, poll, run}
use qcap_demos.Modeset.{Mode}
use qcap_demos.Resync.Reset.{
  Output, Known, Answers, reinitialize_sdi_output, as_expected, has_own_mode, with_blob, off_and_on,
  roll_back, apply,
}
use qcap_demos.Resync.Reset.Outcome.{IsSettled, in_blob, reinitialize-IsSettled}
use qcap_demos.Resync.OptIn.{
  Found, known_fpga, fpga_version, sdi_rx_product, init_sdi_resync, resync_needs_opt_in,
}
use qcap_demos.Resync.RateLimit.{AreApart, run_rate_limited}
use qcap_demos.Resync.Debounce.{HasStreak, logged, watch, started, attempt_needs_streak}

abbrev faulty : ℕ → Round
faulty t = record {
  now = t;
  status = 0x000c0800;
  modeset_active = true;
  overlay_active = true;
  avh_active = false;
  reinitialized = true;
}

abbrev four_rounds : List Round
four_rounds = faulty 1000 ∷ faulty 1500 ∷ faulty 2000 ∷ faulty 2500 ∷ []

abbrev start : Watchdog
start = record { mapped = true; last_status = 0; policy = initial }

-- The status that matches the captured fault, one with another lag, and a dead bus.
statuses :
    (has_suspect_alignment_history 0x000c0800 ≡ true)
    × (has_suspect_alignment_history 0x000d0800 ≡ false)
    × (has_suspect_alignment_history 0xffffffff ≡ false)
unfolding has_suspect_alignment_history
statuses = (refl, refl, refl)

-- The fifth suspect sample, two seconds after the first, resets the output.
fifth_sample_fires :
    (run start [] (faulty 1000 ∷ faulty 1500 ∷ faulty 2000 ∷ faulty 2500 ∷ faulty 3000 ∷ [])).1
    ≡ 3000 ∷ []
unfolding run poll observe has_suspect_alignment_history
fifth_sample_fires = refl

run_rate_limited_example : AreApart (run start [] four_rounds).1
run_rate_limited_example = run_rate_limited true 0 four_rounds (omega arith)

attempt_needs_streak_example :
    let (w, log) = watch (started true 0) [] four_rounds in HasStreak 5 (logged w (faulty 3000) log)
unfolding watch poll observe has_suspect_alignment_history
attempt_needs_streak_example =
    attempt_needs_streak true 0 four_rounds (faulty 3000) (omega arith) (omega arith) refl

abbrev uhd60 : Mode
uhd60 = record {
  hdisplay = 3840;
  vdisplay = 2160;
  htotal = 4400;
  vtotal = 2250;
  clock = 594000;
  vrefresh = 60;
  interlaced = false;
  dblscan = false;
}

abbrev shown : Output
shown = record {
  is_active = true;
  mode_id = 40;
  mode = uhd60;
  is_frac = 0;
  primary_fb = 51;
  overlay_fb = 52;
  overlay_source = 1;
}

abbrev own : Known
own = record { primary_fb_id = 51; overlay_fb_id = 52; current_mode = uhd60 }

abbrev agreeing : Answers
agreeing = record {
  readable = λ p. true;
  blob_length = some 68;
  new_blob = some 41;
  prepared = true;
  tests_on = true;
  tests_off = true;
  commits_off = true;
  commits_on = true;
  restores_mode = true;
  commits_back = true;
}

reinitialize-IsSettled_example :
    IsSettled agreeing shown 41
      (reinitialize_sdi_output (λ m n. true) (λ m. true) own agreeing shown)
reinitialize-IsSettled_example =
    reinitialize-IsSettled (λ m n. true) (λ m. true) own agreeing shown 41

reset_to_new_blob :
    (reinitialize_sdi_output (λ m n. true) (λ m. true) own agreeing shown).output ≡ in_blob 41 shown
unfolding reinitialize_sdi_output as_expected has_own_mode with_blob off_and_on roll_back apply
reset_to_new_blob = refl

abbrev enabled : Found
enabled = record {
  is_sdi = true;
  auto_resync = some (49 ∷ []);
  version = fpga_version 50;
  product = sdi_rx_product;
  mem_fd = some 7;
  is_mapped = true;
}

abbrev five_rounds : List Round
five_rounds = faulty 1000 ∷ faulty 1500 ∷ faulty 2000 ∷ faulty 2500 ∷ faulty 3000 ∷ []

abbrev failing : Round
failing = record (faulty 3000) { reinitialized = false }

-- The next round resets the output.
abbrev about_to : Watchdog
about_to = (run start [] four_rounds).0

resync_needs_opt_in_example :
    ((run (init_sdi_resync enabled).0 [] five_rounds).1 ≢ []
      → (enabled.is_sdi ≡ true)
        × (enabled.auto_resync ≡ some (49 ∷ []))
        × (known_fpga enabled.version ≡ true)
        × (has_prefix sdi_rx_product enabled.product ≡ true))
    × ((poll about_to failing).1 ≡ true
        → failing.reinitialized ≡ false
        → (run (poll about_to failing).0 (3000 ∷ []) four_rounds).1 ≡ 3000 ∷ [])
resync_needs_opt_in_example =
    resync_needs_opt_in enabled five_rounds four_rounds about_to failing (3000 ∷ [])

about_to_reset : (poll about_to failing).1 ≡ true
unfolding run poll observe has_suspect_alignment_history
about_to_reset = refl
