-- ===== src/Auto/Tests.antt =====
-- A flow that begins, is decoded, and ends, on the direct output of Ultra.
use qcap_demos.Prelude.{
  ℕ, ◌+◌, ◌≤◌, ◌≡◌, refl, Bool, true, false, List, [], ◌∷◌, some, ltb, ◌==◌, arith,
}
use qcap_demos.Modeset.{Mode, Rates}
use qcap_demos.Modeset.Kernel.{Display, Settings, Answers}
use qcap_demos.Modeset.Format.{VideoFormat, Ultra, rgb}
use qcap_demos.Auto.{
  Mixer, State, Round, Event, rounds, notified, handle, run, round, notice, is_ready, attempt,
  switch_over, start_drm_output, stop_drm_output, start_audio, select, fall_back, leave,
}
use qcap_demos.Auto.Ultra.{Given, ultra_mixer}
use qcap_demos.Auto.Exclusive.{IsExclusive, run-IsExclusive}
use qcap_demos.Auto.Retry.{attempts, losses, attempts-losses}

-- Whole frames a second.
abbrev whole : Rates ℕ
whole = record {
  mode_vrefresh = λ m. m.vrefresh;
  mode_fps = λ m. m.vrefresh;
  nonpositive = λ f. f == 0;
  near = λ a b. a == b;
  truncates = λ f n. f == n;
  sixty = λ f. f == 60;
  above_60_5 = λ f. ltb 60 f;
  above = λ a b. ltb b a;
}

abbrev full_hd : Mode
full_hd = record {
  hdisplay = 1920;
  vdisplay = 1080;
  htotal = 2200;
  vtotal = 1125;
  clock = 148500;
  vrefresh = 60;
  interlaced = false;
  dblscan = false;
}

abbrev hdmi_output : Settings
hdmi_output = record { is_sdi = false; sdi_audio_disabled = true; sdi_audio_optional = true }

abbrev answers : Answers
answers = record {
  connector = some (full_hd ∷ []);
  blob = some 10;
  primary = record { handle = some 11; fb = some 12 };
  overlay = record { handle = some 13; fb = some 14 };
  request = true;
  source_property = true;
  passthrough_off = true;
  sdi_properties = true;
  commits = true;
  passthrough_on = true;
}

abbrev stream : VideoFormat
stream = record {
  width = 1920;
  height = 1080;
  framerate = 60;
  bpp = 8;
  colorformat = rgb;
  interlaced = false;
  locked = true;
}

abbrev screen : Display
screen = record {
  is_open = true;
  connector_id = 1;
  crtc_id = 2;
  overlay_plane_id = 34;
  primary_fb_id = 5;
  primary_bo_handle = 6;
  overlay_fb_id = 8;
  overlay_bo_handle = 9;
  mode_blob_id = 7;
  modeset_active = true;
  overlay_active = true;
  current_mode = full_hd;
}

abbrev box : Ultra
box = record {
  display = screen;
  current_video_format = stream;
  last_locked_video_format = stream;
  format_changes = 0;
  overlay_is_rgb = true;
  avh_active = false;
  force_dante_source = false;
  fixed_mode_override = false;
  fixed_width = 1920;
  fixed_height = 1080;
  fixed_fps = 60;
}

abbrev same : ℕ → ℕ
same n = n

abbrev equal : ℕ → ℕ → Bool
equal a b = a == b

abbrev given : Given
given = record { first = answers; second = answers; format = some stream }

abbrev begin : {D : Type 0} → D → State D
begin d = record {
  display = d;
  avh_pending = false;
  avh_retry_blocked = false;
  avh_active = false;
  decoded_at_flow = 0;
  display_enabled = false;
  sink_started = false;
  drm_active = false;
  audio_started = false;
}

-- A round with or without a flow, after a number of decoded frames, where the display starts or not.
abbrev at : {A : Type 0} → A → Bool → ℕ → Bool → Round A
at a flow decoded starts = record {
  flow = flow;
  decoded_before = decoded;
  decoded_now = decoded;
  is_initializing = false;
  off = a;
  drm_starts = starts;
  audio_starts = true;
  audio_starts_then = true;
  flow_again = true;
  sink_starts = true;
  restored = a;
}

abbrev events : {A : Type 0} → A → List (Event A)
events a =
    rounds (at a true 0 true)
    ∷ rounds (at a true 1 true)
    ∷ notified a
    ∷ rounds (at a false 1 true)
    ∷ []

-- The display does not start while there is a flow.
abbrev failures : {A : Type 0} → A → List (Event A)
failures a =
    rounds (at a true 0 false)
    ∷ rounds (at a true 1 false)
    ∷ rounds (at a true 2 false)
    ∷ rounds (at a true 3 false)
    ∷ []

run-IsExclusive_example :
    IsExclusive
      (ultra_mixer whole same equal hdmi_output 60)
      (run (ultra_mixer whole same equal hdmi_output 60) false 1920 1080 (events given) (begin box))
run-IsExclusive_example =
    run-IsExclusive (ultra_mixer whole same equal hdmi_output 60) false 1920 1080 (events given)
      (begin box)
      (record {
        shows = refl;
        sink = refl;
        drm = refl;
        hidden = λ (e : false ≡ true). ground (arith, e);
        silent = λ (_ : false ≡ false). refl;
      })

attempts-losses_example :
    attempts
      (ultra_mixer whole same equal hdmi_output 60)
      false
      1920
      1080
      (failures given)
      (begin box)
    ≤ losses (ultra_mixer whole same equal hdmi_output 60) false 1920 1080 (failures given) + 1
attempts-losses_example =
    attempts-losses (ultra_mixer whole same equal hdmi_output 60) false 1920 1080 (failures given)
      (begin box) (λ (_ : false ≡ true). refl)

-- A mixer that is shown or not.
abbrev plain : Mixer Bool Bool
plain = record {
  turn_off = λ (_ : Bool) (_ _ : ℕ) (_ : Bool). (true, false);
  restore = λ (_ _ : Bool). (true, true);
  notify = λ (active _ d : Bool). d;
  is_shown = λ (d : Bool). d;
  size = λ (_ : Bool). (1920, 1080);
  turn_off-hides = λ (_ : Bool) (_ _ : ℕ) (_ : Bool) (_ : true ≡ true). refl;
  notify-hidden = λ (_ d : Bool) (h : d ≡ false). h;
}

tries_once : attempts plain false 1920 1080 (failures true) (begin true) ≡ 1
unfolding attempts handle run round notice is_ready attempt switch_over start_drm_output
    stop_drm_output start_audio select fall_back leave
tries_once = refl

comes_back : (run plain false 1920 1080 (events true) (begin true)).display ≡ true
unfolding attempts handle run round notice is_ready attempt switch_over start_drm_output
    stop_drm_output start_audio select fall_back leave
comes_back = refl

abbrev selection : {A : Type 0} → A → List (Event A)
selection a = rounds (at a true 0 true) ∷ rounds (at a true 1 true) ∷ []

selects : (run plain false 1920 1080 (selection true) (begin true)).avh_active ≡ true
unfolding handle run round notice is_ready attempt switch_over start_drm_output stop_drm_output
    start_audio select fall_back leave
selects = refl
