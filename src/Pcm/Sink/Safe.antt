-- ===== src/Pcm/Sink/Safe.antt =====
-- src/tests/sc6f0-dante-rx.cpp: the audio source is not changed while the FPGA embeds it, and what is opened is closed.
use qcap_demos.Prelude.{
  ℕ, suc, ◌+◌, ◌≡◌, refl, Bool, true, ◌&&◌, ◌||◌, not, List, [], ◌∷◌, if◌then◌else◌, arith,
}
use qcap_demos.Pcm.Playback.{Audio}
use qcap_demos.Pcm.Sink.{
  Call, open_control, close_control, open_pcm, close_pcm, write_passthrough, write_route, Card,
  Sound, set_sdi_fpga_passthrough, select_hdmi_audio_route, start_hdmi_audio_sink,
  stop_hdmi_audio_sink,
}

-- How many handles of controls, and of the PCM, are open.
abbrev pub controls_open : List Call → ℕ × ℕ
controls_open [] = (0, 0)
controls_open (open_control ∷ rest) = let (a, b) = controls_open rest in (suc a, b)
controls_open (close_control ∷ rest) = let (a, b) = controls_open rest in (a, suc b)
controls_open (open_pcm ∷ rest) = controls_open rest
controls_open (close_pcm ∷ rest) = controls_open rest
controls_open (write_passthrough b ∷ rest) = controls_open rest
controls_open (write_route r b ∷ rest) = controls_open rest

abbrev pub pcm_opened : List Call → ℕ × ℕ
pcm_opened [] = (0, 0)
pcm_opened (open_pcm ∷ rest) = let (a, b) = pcm_opened rest in (suc a, b)
pcm_opened (close_pcm ∷ rest) = let (a, b) = pcm_opened rest in (a, suc b)
pcm_opened (open_control ∷ rest) = pcm_opened rest
pcm_opened (close_control ∷ rest) = pcm_opened rest
pcm_opened (write_passthrough b ∷ rest) = pcm_opened rest
pcm_opened (write_route r b ∷ rest) = pcm_opened rest

-- No route is written while the passthrough is on.
abbrev pub routed_off : List Call → Bool
routed_off [] = true
routed_off (write_route r b ∷ rest) = not b && routed_off rest
routed_off (open_pcm ∷ rest) = routed_off rest
routed_off (close_pcm ∷ rest) = routed_off rest
routed_off (open_control ∷ rest) = routed_off rest
routed_off (close_control ∷ rest) = routed_off rest
routed_off (write_passthrough b ∷ rest) = routed_off rest

module _ (is_sdi : Bool) {W : Type 0} where
  -- Every control that was opened is closed, the PCM is open exactly when the sink is started, and on an SDI output no
  -- route was written while the passthrough was on.
  pub record IsSafe (audio : Audio W) (card : Card) : Type 0 where
    pub controls : (controls_open card.calls).0 ≡ (controls_open card.calls).1
    pub pcm :
        (pcm_opened card.calls).0 ≡ (pcm_opened card.calls).1 + (if audio.pcm_open then 1 else 0)
    pub started : audio.pcm_started ≡ audio.pcm_open
    pub routed : not is_sdi || routed_off card.calls ≡ true

  select-IsSafe :
      (s : Sound) (route : ℕ) (card : Card) (audio : Audio W)
      → IsSafe audio card
      → IsSafe audio (select_hdmi_audio_route is_sdi s route card).1
  unfolding select_hdmi_audio_route set_sdi_fpga_passthrough
  select-IsSafe s route card audio h = record {
    controls = ground (arith, h.controls);
    pcm = ground (arith, h.pcm);
    started = h.started;
    routed = ground (arith, h.routed);
  }

  start-IsSafe :
      (s : Sound) (active : Bool) (audio : Audio W) (card : Card)
      → IsSafe audio card
      → let (ok, audio', card') = start_hdmi_audio_sink is_sdi s active audio card in
        IsSafe audio' card'
  unfolding start_hdmi_audio_sink
  start-IsSafe s active audio card h =
      let k = select-IsSafe s 0 card audio h in
      record {
        controls = ground (arith, h.controls, k.controls);
        pcm = ground (arith, h.pcm, h.started, k.pcm);
        started = ground (arith, h.started);
        routed = ground (arith, h.routed, k.routed);
      }

  stop-IsSafe :
      (audio : Audio W) (card : Card)
      → IsSafe audio card
      → let (audio', card') = stop_hdmi_audio_sink audio card in IsSafe audio' card'
  unfolding stop_hdmi_audio_sink
  stop-IsSafe audio card h = record {
    controls = ground (arith, h.controls);
    pcm = ground (arith, h.pcm);
    started = refl;
    routed = ground (arith, h.routed);
  }

-- What the receiver does with the sink.
pub data Turn : Type 0 where
  starts : Sound → (is_active : Bool) → Turn
  stops : Turn

module _ (is_sdi : Bool) {W : Type 0} where
  abbrev pub run : List Turn → Audio W → Card → Audio W × Card
  run [] audio card = (audio, card)
  run (starts s active ∷ rest) audio card =
      let (ok, audio', card') = start_hdmi_audio_sink is_sdi s active audio card in
      run rest audio' card'
  run (stops ∷ rest) audio card =
      let (audio', card') = stop_hdmi_audio_sink audio card in run rest audio' card'

  -- After any starts and stops of the sink, whatever ALSA answers, from a state in which this holds: every control that
  -- was opened is closed, the PCM is open exactly when the sink is started, and on an SDI output the audio route was
  -- never written while the FPGA passthrough was on.
  pub run-IsSafe :
      (turns : List Turn) (audio : Audio W) (card : Card)
      → IsSafe is_sdi audio card
      → let (audio', card') = run turns audio card in IsSafe is_sdi audio' card'
  run-IsSafe [] audio card h = h
  run-IsSafe (starts s active ∷ rest) audio card h =
      let (ok, audio', card') = start_hdmi_audio_sink is_sdi s active audio card in
      run-IsSafe rest audio' card' (start-IsSafe is_sdi s active audio card h)
  run-IsSafe (stops ∷ rest) audio card h =
      let (audio', card') = stop_hdmi_audio_sink audio card in
      run-IsSafe rest audio' card' (stop-IsSafe is_sdi audio card h)
