-- ===== src/Pcm/Sink.antt =====
-- src/tests/sc6f0-dante-rx.cpp: the start and stop of the ALSA sink, with the mixer controls that choose what the card
-- plays (`set_sdi_fpga_passthrough`, `select_hdmi_audio_route`, `start_hdmi_audio_sink`, `stop_hdmi_audio_sink`).
pub mod Safe
use qcap_demos.Prelude.{ℕ, Bool, true, false, ◌&&◌, ◌||◌, not, List, [], ◌∷◌, if◌then◌else◌}
use qcap_demos.Pcm.Playback.{Audio}

-- A call; `write_route` has whether the passthrough was on then.
pub data Call : Type 0 where
  open_control close_control open_pcm close_pcm : Call
  write_passthrough : Bool → Call
  write_route : (route : ℕ) (is_on : Bool) → Call

-- The switch of the FPGA as it stands, and the calls, the last first.
pub record Card : Type 0 where
  pub passthrough : Bool
  pub calls : List Call

-- Whether there is one card; whether its control opens; whether the value is written, has its effect, and can be read.
pub record Control : Type 0 where
  pub has_card : Bool
  pub opens : Bool
  pub writes : Bool
  pub takes_effect : Bool
  pub reads : Bool

-- What the calls of a start meet.
pub record Sound : Type 0 where
  pub passthrough_control : Control
  pub route_control : Control
  pub pcm_opens : Bool
  pub params_set : Bool

abbrev pub call : Call → Card → Card
call c card = record card { calls = c ∷ card.calls }

abbrev pub same : Bool → Bool → Bool
same true b = b
same false b = not b

-- The write, with its effect if it has one.
abbrev pub wrote_passthrough : Control → Bool → Card → Card
wrote_passthrough c enable card = record {
  passthrough = if c.writes && c.takes_effect then enable else card.passthrough;
  calls = write_passthrough enable ∷ card.calls;
}

module _ (is_sdi : Bool) where
  -- `true` is 0, `false` is -1. What was written is read back.
  unfoldable pub set_sdi_fpga_passthrough : Control → Bool → Card → Bool × Card
  set_sdi_fpga_passthrough c enable card =
      let written = wrote_passthrough c enable (call open_control card) in
      let no_switch : Bool × Card = (true, card) in
      let unopened : Bool × Card = (false, card) in
      if not is_sdi
      then no_switch
      else (if c.has_card && c.opens
          then (
            c.writes && (c.reads && same written.passthrough enable),
            call close_control written,
          )
          else unopened)

  unfoldable pub select_hdmi_audio_route : Sound → ℕ → Card → Bool × Card
  select_hdmi_audio_route s route card =
      let (is_off, card') = set_sdi_fpga_passthrough s.passthrough_control false card in
      let c = s.route_control in
      let refused : Bool × Card = (false, card') in
      if is_off && (c.has_card && c.opens)
      then (
        c.writes,
        call close_control (call (write_route route card'.passthrough) (call open_control card')),
      )
      else refused

  module _ {W : Type 0} where
    -- The result is `true` for 0. The memory that is reserved for the first frames has no effect.
    unfoldable pub start_hdmi_audio_sink : Sound → Bool → Audio W → Card → Bool × Audio W × Card
    start_hdmi_audio_sink s drm_modeset_active audio card =
        let (is_routed, card') = select_hdmi_audio_route s 0 card in
        let opened = call open_pcm card' in
        let running : Audio W = record audio { pcm_open = true; pcm_started = true } in
        let closed : Audio W = record audio { pcm_open = false } in
        let started : Bool × Audio W × Card = (true, running, opened) in
        let unset : Bool × Audio W × Card = (false, closed, call close_pcm opened) in
        let unopened : Bool × Audio W × Card = (false, closed, card') in
        let unrouted : Bool × Audio W × Card = (false, audio, card') in
        let nothing : Bool × Audio W × Card = (true, audio, card) in
        if audio.pcm_started || (is_sdi && not drm_modeset_active)
        then nothing
        else (if is_routed
            then (if s.pcm_opens then (if s.params_set then started else unset) else unopened)
            else unrouted)

unfoldable pub stop_hdmi_audio_sink : {W : Type 0} → Audio W → Card → Audio W × Card
stop_hdmi_audio_sink audio card = (
  record audio { pcm_open = false; pcm_started = false; pending_frame = []; short_tail = false },
  if audio.pcm_open then call close_pcm card else card,
)
