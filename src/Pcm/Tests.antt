-- ===== src/Pcm/Tests.antt =====
-- Runs of the audio path on concrete devices, and the theorems at them.
use qcap_demos.Prelude.{
  ℕ, zero, suc, ◌+◌, ◌*◌, ◌/◌, ◌≡◌, ◌≤◌, ◌<◌, refl, true, false, List, [], ◌∷◌, ◌++◌, none, some,
  min, length, ◌-◌, ℤ, pos, negsuc, arith, replicate,
}
use qcap_demos.Pcm.{frame_bytes, max_frames, chunk, drain}
use qcap_demos.Pcm.Bounds.{drain_accounts}
use qcap_demos.Pcm.Fifo.{Logged, log_write, log_prepare, drain_fifo}
use qcap_demos.Pcm.Liveness.{drain_empties}
use qcap_demos.Pcm.Playback.{AudioFrame, Buffer, Audio, convert, playback}
use qcap_demos.Pcm.Sink.{
  Card, Control, Sound, start_hdmi_audio_sink, select_hdmi_audio_route, set_sdi_fpga_passthrough,
}
use qcap_demos.Pcm.Sink.Safe.{IsSafe, Turn, starts, stops, run, run-IsSafe}
use qcap_demos.Pcm.Playback.Samples.{convert-eq-upper_24}
use qcap_demos.Pcm.Playback.Flow.{playback_fifo}

-- Takes all that it is offered.
abbrev eager : ℕ → List ℕ → ℕ → ℤ × ℕ
eager w bytes n = (pos n, w)

-- Takes one frame, then is full.
abbrev reluctant : ℕ → List ℕ → ℕ → ℤ × ℕ
reluctant zero bytes n = (pos 1, 1)
reluctant (suc w) bytes n = (negsuc 10, suc w)

-- Always underruns.
abbrev broken : ℕ → List ℕ → ℕ → ℤ × ℕ
broken w bytes n = (negsuc 31, w)

abbrev ready : ℕ → ℤ × ℕ
ready w = (pos 0, w)

abbrev two_frames : List ℕ
two_frames = 1 ∷ 2 ∷ 3 ∷ 0 ∷ 4 ∷ 5 ∷ 6 ∷ 0 ∷ 7 ∷ 8 ∷ 9 ∷ 0 ∷ 10 ∷ 11 ∷ 12 ∷ 0 ∷ []

abbrev unheard : Logged ℕ
unheard = record { inner = 0; played = []; writes = 0; prepares = 0 }

abbrev idle : Audio (Logged ℕ)
idle = record {
  pcm_open = true;
  pcm_started = true;
  pending_frame = [];
  short_tail = true;
  pending_pts = 0;
  accepted_frames = 0;
  again = 0;
  short_writes = 0;
  xruns = 0;
  recovery_errors = 0;
  queue_dropped = 0;
  playback_errors = 0;
  unsupported_periods = 0;
  device = unheard;
}

abbrev period : List ℕ
period = 9 ∷ 1 ∷ 2 ∷ 0xff ∷ 9 ∷ 3 ∷ 4 ∷ 5 ∷ []

abbrev buffer : Buffer
buffer = record { bytes = some period; pts = 77 }

-- A full period waits until a chunk is there; a short tail does not.
waits_for_a_chunk : (drain eager ready two_frames false 0).pending ≡ two_frames
unfolding drain
waits_for_a_chunk = refl

tail_is_written :
    let t = drain (log_write reluctant) (log_prepare ready) two_frames true unheard in
    (t.pending ≡ 7 ∷ 8 ∷ 9 ∷ 0 ∷ 10 ∷ 11 ∷ 12 ∷ 0 ∷ [])
    × (t.short_tail ≡ true)
    × (t.stats.accepted ≡ 1)
    × (t.stats.again ≡ 1)
unfolding drain
tail_is_written = (refl, refl, refl, refl)

underrun_is_prepared :
    let t = drain (log_write broken) (log_prepare ready) two_frames true unheard in
    (t.stats.xruns ≡ 1) × (t.stats.errors ≡ 1) × (t.device.prepares ≡ 1) × (t.pending ≡ two_frames)
unfolding drain
underrun_is_prepared = (refl, refl, refl, refl)

playback_runs :
    let a = playback (log_write eager) (log_prepare ready) 7 idle (some buffer) none in
    (a.device.played ≡ 1 ∷ 2 ∷ 0xff ∷ 0 ∷ 3 ∷ 4 ∷ 5 ∷ 0 ∷ [])
    × (a.accepted_frames ≡ 1)
    × (a.pending_pts ≡ 77)
unfolding playback drain convert
playback_runs = (refl, refl, refl)

drain_accounts_example :
    let t = drain reluctant ready two_frames true 0 in
    (length t.pending + frame_bytes * t.stats.accepted ≡ min 16 (max_frames * frame_bytes))
    × (t.stats.dropped ≡ (16 - max_frames * frame_bytes) / frame_bytes)
    × (t.stats.recovery_errors ≤ t.stats.xruns + t.stats.suspended)
    × (t.stats.xruns + t.stats.suspended ≤ t.stats.errors)
drain_accounts_example = drain_accounts reluctant ready two_frames true 0

drain_fifo_example :
    let t = drain (log_write reluctant) (log_prepare ready) two_frames true unheard in
    t.device.played ++ t.pending ≡ two_frames
drain_fifo_example = drain_fifo reluctant ready two_frames true unheard

drain_empties_example :
    let t = drain eager ready (replicate 4000 0) false 5 in
    (length t.pending / frame_bytes < chunk)
    × (t.stats.errors ≡ 0)
    × (t.stats.again ≡ 0)
    × (t.stats.short_writes ≡ 0)
drain_empties_example = drain_empties eager ready (λ w bytes n. refl) (replicate 4000 0) false 5

convert-eq-upper_24_example : convert period ≡ 1 ∷ 2 ∷ 0xff ∷ 0 ∷ 3 ∷ 4 ∷ 5 ∷ 0 ∷ []
convert-eq-upper_24_example = convert-eq-upper_24 period (omega arith)

abbrev mono : AudioFrame
mono = record { channels = 1; sample_rate = 48000; format = 7; nb_samples = 1 }

playback_fifo_example :
    let a' = playback (log_write eager) (log_prepare ready) 7 idle (some buffer) none in
    a'.device.played ++ a'.pending_frame ≡ 1 ∷ 2 ∷ 0xff ∷ 0 ∷ 3 ∷ 4 ∷ 5 ∷ 0 ∷ []
unfolding playback
playback_fifo_example = playback_fifo eager ready 7 idle buffer period none refl refl (omega arith)

abbrev agreeing : Control
agreeing = record {
  has_card = true;
  opens = true;
  writes = true;
  takes_effect = true;
  reads = true;
}

abbrev playing : Sound
playing = record {
  passthrough_control = agreeing;
  route_control = agreeing;
  pcm_opens = true;
  params_set = true;
}

-- The passthrough cannot be switched off.
abbrev stuck : Sound
stuck = record playing { passthrough_control = record agreeing { takes_effect = false } }

abbrev silent : Audio (Logged ℕ)
silent = record idle { pcm_open = false; pcm_started = false }

abbrev embedding : Card
embedding = record { passthrough = true; calls = [] }

abbrev turns : List Turn
turns = starts stuck true ∷ starts playing true ∷ stops ∷ []

run-IsSafe_example :
    IsSafe true (run true turns silent embedding).0 (run true turns silent embedding).1
run-IsSafe_example =
    run-IsSafe true turns silent embedding
      (record { controls = refl; pcm = refl; started = refl; routed = refl })

refused_then_started :
    ((start_hdmi_audio_sink true stuck true silent embedding).0 ≡ false)
    × ((start_hdmi_audio_sink true playing true silent embedding).0 ≡ true)
unfolding start_hdmi_audio_sink select_hdmi_audio_route set_sdi_fpga_passthrough
refused_then_started = (refl, refl)
