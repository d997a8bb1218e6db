-- ===== src/Feed/Tests.antt =====
-- Runs of the decoder input, and the theorems at them.
use qcap_demos.Prelude.{ℕ, ◌≡◌, refl, Bool, true, false, [], ◌∷◌, some, none, leb, ◌&&◌}
use qcap_demos.Nal.{has_idr, nal_at}
use qcap_demos.Feed.{
  Receiver, Caps, ok, Answers, AccessUnit, apply_caps, feed, feed_locked, feed_started,
  feed_waiting, submit, decoder_runs, init_ends, fits,
}
use qcap_demos.Feed.Gate.{Reach, IsGated, reachable-IsGated}
use qcap_demos.Feed.Params.{Frozen, Reach-Frozen}
use qcap_demos.Feed.Counts.{lost_keyframe_opens_gate}

abbrev rate_ok : ℕ → Bool
rate_ok f = leb 1 f && leb f 240

abbrev fresh : Receiver ℕ
fresh = record {
  decoder_initializing = false;
  decode_enabled = true;
  h264_input_parsed = false;
  vdec_started = false;
  wait_for_idr = false;
  extra_data = none;
  dec_width = 0;
  dec_height = 0;
  dec_fps = 60;
  file_open = false;
  input_packets = 0;
  pushed_packets = 0;
  dropped_packets = 0;
  pool_dropped = 0;
  push_failed = 0;
  decoded_errors = 0;
  no_sps_count = 0;
  init_scheduled = 0;
  notified = 0;
  parser_fed = 0;
  submitted = [];
  sent = [];
}

abbrev hd : Caps ℕ
hd = record {
  is_h264 = true;
  avcc = some (1 ∷ 66 ∷ 0 ∷ 31 ∷ 255 ∷ 225 ∷ 0 ∷ 1 ∷ 103 ∷ 1 ∷ 0 ∷ []);
  width = some 1920;
  height = some 1080;
  framerate = some 500;
  copied = true;
}

abbrev all_good : Answers
all_good = record { pool = true; packet = some 100; push = true; file = true }

abbrev no_buffer : Answers
no_buffer = record { pool = false; packet = none; push = true; file = true }

abbrev key : AccessUnit
key = record { bytes = 0 ∷ 0 ∷ 1 ∷ 0x65 ∷ []; flag_drop = false; flag_keyframe = false; pts = 5000 }

abbrev delta : AccessUnit
delta = record {
  bytes = 0 ∷ 0 ∷ 1 ∷ 0x41 ∷ [];
  flag_drop = false;
  flag_keyframe = false;
  pts = 6000;
}

abbrev configured : Receiver ℕ
configured = record fresh {
  extra_data = hd.avcc;
  dec_width = 1920;
  dec_height = 1080;
  dec_fps = 60;
}

abbrev scheduled : Receiver ℕ
scheduled = record configured {
  decoder_initializing = true;
  wait_for_idr = true;
  input_packets = 1;
  init_scheduled = 1;
  parser_fed = 1;
}

abbrev running : Receiver ℕ
running = record scheduled { vdec_started = true; decoder_initializing = false }

caps_run : apply_caps rate_ok 60 fresh hd ≡ (configured, ok)
unfolding apply_caps
caps_run = refl

-- A keyframe schedules the decoder; the unit itself is not submitted.
feed_run : feed (λ r. r) configured all_good key ≡ scheduled
unfolding feed feed_locked feed_waiting has_idr nal_at
feed_run = refl

gate_run :
    let r = feed (λ r. r) running all_good delta in
    let q = feed (λ r. r) r all_good key in
    (r.sent ≡ []) × (r.dropped_packets ≡ 1) × (q.pushed_packets ≡ 1) × (q.wait_for_idr ≡ false)
unfolding feed feed_locked feed_started submit has_idr nal_at
gate_run = (refl, refl, refl, refl)

-- Caps arrive, a keyframe schedules a decoder, and its thread ends with one that runs.
to_running : Reach rate_ok 60 fresh running
unfolding apply_caps feed feed_locked feed_waiting has_idr nal_at decoder_runs init_ends
to_running =
    Reach.ends (Reach.runs (Reach.fed all_good key (Reach.caps Reach.here hd) Reach.here) refl refl)
      refl refl

reachable-IsGated_example : IsGated running
reachable-IsGated_example =
    reachable-IsGated rate_ok 60 {s = fresh} {t = running} (refl, refl, refl) to_running

Reach-Frozen_example :
    Frozen running (apply_caps rate_ok 60 running (record hd { width = some 640 })).0
Reach-Frozen_example =
    Reach-Frozen rate_ok 60 {r = running} {s = running}
      (record { running = refl; extra = refl; width = refl; height = refl; fps = refl })
      (Reach.caps Reach.here (record hd { width = some 640 }))

lost_keyframe_opens_gate_example :
    (feed_locked (feed_locked running no_buffer key) all_good delta).sent
    ≡ record { bytes = 0 ∷ 0 ∷ 1 ∷ 0x41 ∷ []; is_keyframe = false; time = 6 } ∷ []
unfolding has_idr nal_at fits
lost_keyframe_opens_gate_example =
    lost_keyframe_opens_gate running no_buffer all_good key delta refl refl refl refl refl refl refl
      refl
