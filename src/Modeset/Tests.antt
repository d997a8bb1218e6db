-- ===== src/Modeset/Tests.antt =====
-- Modesets on concrete displays, and the theorems at them.
use qcap_demos.Prelude.{
  ℕ, zero, suc, ◌+◌, ◌≡◌, refl, Bool, true, false, List, [], ◌∷◌, some, ltb, ◌==◌,
}
use qcap_demos.Modeset.{Mode, Rates, choose_mode, fit_rect}
use qcap_demos.Modeset.Kernel.{Kind, Display, Settings, Answers}
use qcap_demos.Modeset.Apply.{
  apply_drm_modeset, with_modes, commit_fresh, discard, destroy_dumb_fb, after_commit,
}
use qcap_demos.Modeset.Ledger.{created, destroyed, held, apply_drm_modeset_balanced}
use qcap_demos.Modeset.Format.{
  VideoFormat, rgb, is_rgb, Ultra, follow, switch, dau_set_video_format, restore_ultra_output,
}
use qcap_demos.Modeset.Reply.{dau_set_video_format_success}

-- Whole frames a second.
abbrev whole : Rates ℕ
whole = record {
  mode_vrefresh = λ m. m.vrefresh;
  mode_fps = λ m. m.vrefresh;
  nonpositive = λ f. f == 0;
  near = λ a b. a == b;
  truncates = λ f n. f == n;
  sixty = λ f. f == 60;
  above_60_5 = λ f. ltb 60 f;
  above = λ a b. ltb b a;
}

abbrev progressive : ℕ → ℕ → ℕ → ℕ → Mode
progressive w h clock fps = record {
  hdisplay = w;
  vdisplay = h;
  htotal = w;
  vtotal = h;
  clock = clock;
  vrefresh = fps;
  interlaced = false;
  dblscan = false;
}

abbrev monitor : List Mode
monitor = progressive 1280 720 74250 60 ∷ progressive 1920 1080 148500 60 ∷ []

abbrev screen : Display
screen = record {
  is_open = true;
  connector_id = 1;
  crtc_id = 2;
  overlay_plane_id = 34;
  primary_fb_id = 5;
  primary_bo_handle = 6;
  overlay_fb_id = 0;
  overlay_bo_handle = 0;
  mode_blob_id = 7;
  modeset_active = true;
  overlay_active = false;
  current_mode = progressive 1280 720 74250 60;
}

abbrev sdi_output : Settings
sdi_output = record { is_sdi = true; sdi_audio_disabled = false; sdi_audio_optional = true }

abbrev all_well : Answers
all_well = record {
  connector = some monitor;
  blob = some 10;
  primary = record { handle = some 11; fb = some 12 };
  overlay = record { handle = some 13; fb = some 14 };
  request = true;
  source_property = true;
  passthrough_off = true;
  sdi_properties = true;
  commits = true;
  passthrough_on = true;
}

abbrev one : Kind → ℕ → ℕ
one kind zero = 0
one kind (suc id) = 1

abbrev stream : VideoFormat
stream = record {
  width = 1920;
  height = 1080;
  framerate = 60;
  bpp = 8;
  colorformat = rgb;
  interlaced = false;
  locked = true;
}

abbrev box : Ultra
box = record {
  display = screen;
  current_video_format = stream;
  last_locked_video_format = stream;
  format_changes = 0;
  overlay_is_rgb = true;
  avh_active = false;
  force_dante_source = false;
  fixed_mode_override = true;
  fixed_width = 1920;
  fixed_height = 1080;
  fixed_fps = 60;
}

abbrev same : ℕ → ℕ
same n = n

abbrev equal : ℕ → ℕ → Bool
equal a b = a == b

chooses : choose_mode whole true monitor 1920 1080 60 ≡ some (progressive 1920 1080 148500 60)
unfolding choose_mode
chooses = refl

fits_4_by_3 : fit_rect 640 480 1920 1080 ≡ some (record { x = 240; y = 0; w = 1440; h = 1080 })
unfolding fit_rect
fits_4_by_3 = refl

-- A commit that fails frees what was made.
fails_clean :
    let done =
      apply_drm_modeset whole sdi_output
        (record all_well { commits = false })
        screen
        1920
        1080
        60
        true in
    (done.ok ≡ false)
    × (done.display ≡ screen)
    × (created one done.calls ≡ 5)
    × (destroyed one done.calls ≡ 5)
unfolding apply_drm_modeset with_modes choose_mode commit_fresh discard destroy_dumb_fb
fails_clean = (refl, refl, refl, refl)

restores : (restore_ultra_output whole same equal sdi_output all_well box).ok ≡ true
unfolding restore_ultra_output apply_drm_modeset with_modes choose_mode commit_fresh after_commit
restores = refl

none_at_zero : (kind : Kind) → one kind 0 ≡ 0
none_at_zero kind = refl

apply_drm_modeset_balanced_example :
    let done = apply_drm_modeset whole sdi_output all_well screen 1920 1080 60 true in
    created one done.calls + held one screen ≡ destroyed one done.calls + held one done.display
apply_drm_modeset_balanced_example =
    apply_drm_modeset_balanced one none_at_zero whole sdi_output all_well screen 1920 1080 60 true

dau_set_video_format_success_example :
    let done =
      dau_set_video_format whole same equal sdi_output all_well all_well box (some stream) in
    (done.ultra.display.modeset_active ≡ true)
    × (true ≡ true
        → (◌≡◌ {A = ℕ} 1920 1920)
          × (◌≡◌ {A = ℕ} 1080 1080)
          × (◌≡◌ {A = ℕ} 60 60)
          × (false ≡ false)
          × (is_rgb rgb ≡ true))
unfolding dau_set_video_format follow switch apply_drm_modeset with_modes choose_mode commit_fresh
    after_commit is_rgb
dau_set_video_format_success_example =
    dau_set_video_format_success whole same equal sdi_output all_well all_well box stream refl refl
      refl
