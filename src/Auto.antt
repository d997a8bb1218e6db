-- ===== src/Auto.antt =====
-- src/tests/sc6f0-dante-rx.cpp: the switch of the output between the Ultra source, which the mixer shows, and the decoder
-- (AVH), in the main loop of the automatic mode (lines 3625 to 3694), between notifications of the DAU service. The
-- mixer is an interface; what the start of the display, the sink and the audio gives is an input.
pub mod Switch
pub mod Block
pub mod Exclusive
pub mod Retry
pub mod Ultra
mod Tests
use qcap_demos.Prelude.{
  ℕ, ◌≡◌, Bool, true, false, ◌&&◌, ◌||◌, not, List, [], ◌∷◌, ltb, ◌==◌, if◌then◌else◌,
}

-- The mixer: `turn_off` is a modeset of a size without the overlay, `restore` is `restore_ultra_output`, and `notify` is a
-- notification while the decoder is selected or not. The laws: a modeset without the overlay that succeeds hides it,
-- one that fails does not show it, and no notification shows it while the decoder is selected.
pub record Mixer (D A : Type 0) : Type 1 where
  pub turn_off : A → ℕ → ℕ → D → Bool × D
  pub restore : A → D → Bool × D
  pub notify : Bool → A → D → D
  pub is_shown : D → Bool
  pub size : D → ℕ × ℕ
  pub turn_off-hides :
      (a : A) (w h : ℕ) (d : D)
      → (turn_off a w h d).0 ≡ true
      → is_shown (turn_off a w h d).1 ≡ false
  pub notify-hidden : (a : A) (d : D) → is_shown d ≡ false → is_shown (notify true a d) ≡ false

pub record State (D : Type 0) : Type 0 where
  pub display : D
  pub avh_pending : Bool
  pub avh_retry_blocked : Bool
  pub avh_active : Bool
  pub decoded_at_flow : ℕ
  pub display_enabled : Bool
  pub sink_started : Bool
  pub drm_active : Bool
  pub audio_started : Bool

-- What a round finds: the flow, and once more under the lock; the frames that were decoded, when the flow is noticed and
-- then; and what the calls give.
pub record Round (A : Type 0) : Type 0 where
  pub flow : Bool
  pub decoded_before : ℕ
  pub decoded_now : ℕ
  pub is_initializing : Bool
  pub off : A
  pub drm_starts : Bool
  pub audio_starts : Bool
  pub audio_starts_then : Bool
  pub flow_again : Bool
  pub sink_starts : Bool
  pub restored : A

-- The flow is noticed, or is gone.
unfoldable pub notice : {D A : Type 0} → Round A → State D → State D
notice r s =
    if r.flow
    then (if not s.avh_pending && (not s.avh_active && not s.avh_retry_blocked)
        then record s { avh_pending = true; decoded_at_flow = r.decoded_before }
        else s)
    else record s { avh_pending = false; avh_retry_blocked = false }

unfoldable pub is_ready : {D A : Type 0} → Round A → State D → Bool
is_ready r s =
    r.flow
    && (s.avh_pending
        && (not s.avh_active && (ltb s.decoded_at_flow r.decoded_now && not r.is_initializing)))

-- `start_hdmi_audio_sink`.
unfoldable pub start_audio : {D : Type 0} → Bool → Bool → State D → State D
start_audio is_sdi starts s =
    if s.audio_started || (is_sdi && not s.drm_active)
    then s
    else record s { audio_started = starts }

unfoldable pub stop_drm_output : {D : Type 0} → Bool → State D → State D
stop_drm_output is_sdi s = record s {
  drm_active = false;
  audio_started = if is_sdi then false else s.audio_started;
}

-- `start_drm_output`: a failure stops what it began; on an SDI output a success starts the audio.
unfoldable pub start_drm_output : {D A : Type 0} → Bool → Round A → State D → Bool × State D
start_drm_output is_sdi r s =
    let on : State _ = record s { drm_active = true } in
    let already : Bool × State _ = (true, s) in
    let started : Bool × State _ =
      (true, if is_sdi then start_audio is_sdi r.audio_starts on else on) in
    let unstarted : Bool × State _ = (false, stop_drm_output is_sdi s) in
    if s.drm_active then already else (if r.drm_starts then started else unstarted)

-- What happens in the loop: a round, or a notification that `dau_service_dispatch` gives.
pub data Event (A : Type 0) : Type 0 where
  rounds : Round A → Event A
  notified : A → Event A

module _ {D A : Type 0} (mixer : Mixer D A) (is_sdi : Bool) (fixed_w fixed_h : ℕ) where
  -- The decoder's frames are shown, if there still is a flow and the sink starts.
  unfoldable pub select : Round A → State D → State D
  select r s =
      if r.flow_again && (s.sink_started || r.sink_starts)
      then record s { sink_started = true; display_enabled = true; avh_active = true }
      else s

  -- The modeset, the display of the decoder and its sink, each if the one before it succeeded.
  unfoldable pub switch_over : Round A → State D → State D
  switch_over r s =
      let (w, h) = mixer.size s.display in
      let off =
        mixer.turn_off r.off (if w == 0 then fixed_w else w) (if h == 0 then fixed_h else h)
          s.display in
      let hidden : State D = record s { display = off.1 } in
      let drm = start_drm_output is_sdi r hidden in
      if off.0 then (if drm.0 then select r drm.1 else drm.1) else hidden

  unfoldable pub fall_back : Round A → State D → State D
  fall_back r s =
      let quiet = stop_drm_output is_sdi s in
      record quiet {
        display = (mixer.restore r.restored s.display).1;
        avh_retry_blocked = true;
        avh_pending = false;
      }

  unfoldable pub attempt : Round A → State D → State D
  attempt r s =
      let tried = switch_over r s in
      if tried.avh_active then start_audio is_sdi r.audio_starts_then tried else fall_back r tried

  -- The flow is removed: back to Ultra. Only what the round ends with is kept, since the notifications
  -- come between rounds.
  unfoldable pub leave : Round A → State D → State D
  leave r s =
      let off = mixer.turn_off r.off fixed_w fixed_h s.display in
      record s {
        display = (mixer.restore r.restored off.1).1;
        display_enabled = false;
        sink_started = false;
        audio_started = false;
        drm_active = false;
        avh_active = false;
      }

  -- A round of the main loop, up to `poll`.
  unfoldable pub round : Round A → State D → State D
  round r s =
      let noticed = notice r s in
      let tried = attempt r noticed in
      let s' = if is_ready r noticed then tried else noticed in
      let left = leave r s' in if not r.flow && s'.avh_active then left else s'

  unfoldable pub handle : Event A → State D → State D
  handle (rounds r) s = round r s
  handle (notified a) s = record s { display = mixer.notify s.avh_active a s.display }

  unfoldable pub run : List (Event A) → State D → State D
  run [] s = s
  run (e ∷ es) s = run es (handle e s)
