-- ===== src/Modeset/Format.antt =====
-- src/tests/sc6f0-dante-rx.cpp: `dau_set_video_format`, the notification that the stream's format has
-- changed, and `restore_ultra_output`.
use qcap_demos.Prelude.{
  ℕ, Bool, true, false, ◌&&◌, ◌||◌, not, List, [], ◌++◌, Option, none, some, ◌==◌, if◌then◌else◌,
  add64,
}
use qcap_demos.Modeset.{Rates}
use qcap_demos.Modeset.Kernel.{Call, Display, Settings, Answers, Done}
use qcap_demos.Modeset.Apply.{apply_drm_modeset}

pub data Color : Type 0 where
  yuv444 yuv422 yuv420 rgb : Color

unfoldable pub is_rgb : Color → Bool
is_rgb yuv444 = false
is_rgb yuv422 = false
is_rgb yuv420 = false
is_rgb rgb = true

pub record VideoFormat : Type 0 where
  pub width : ℕ
  pub height : ℕ
  pub framerate : ℕ
  pub bpp : ℕ
  pub colorformat : Color
  pub interlaced : Bool
  pub locked : Bool

-- The rest of ultra_direct_context_t. `overlay_is_rgb` says that ultra_overlay_format is
-- DRM_FORMAT_BGR888 and not DRM_FORMAT_YUYV.
pub record Ultra : Type 0 where
  pub display : Display
  pub current_video_format : VideoFormat
  pub last_locked_video_format : VideoFormat
  pub format_changes : ℕ
  pub overlay_is_rgb : Bool
  pub avh_active : Bool
  pub force_dante_source : Bool
  pub fixed_mode_override : Bool
  pub fixed_width : ℕ
  pub fixed_height : ℕ
  pub fixed_fps : ℕ

pub data Reply : Type 0 where
  success failure : Reply

pub record Answered : Type 0 where
  pub reply : Reply
  pub ultra : Ultra
  pub calls : List Call

-- Lines 3289 to 3292.
abbrev pub outside_contract : Settings → Ultra → VideoFormat → Bool
outside_contract settings u format =
    settings.is_sdi
    && format.locked
    && (not (format.width == u.fixed_width)
        || not (format.height == u.fixed_height)
        || not (format.framerate == u.fixed_fps)
        || format.interlaced
        || not (is_rgb format.colorformat))

-- Lines 3286 to 3304, but for the rejection between them.
abbrev pub noted : Ultra → VideoFormat → Ultra
noted u format = record u {
  current_video_format = format;
  format_changes = add64 u.format_changes 1;
}

abbrev pub remembered : Ultra → VideoFormat → Ultra
remembered u format =
    if format.locked
      && not (format.width == 0)
      && not (format.height == 0)
      && not (format.framerate == 0)
    then record u { last_locked_video_format = format; overlay_is_rgb = is_rgb format.colorformat }
    else u

abbrev pub same_format : Bool → Bool → Bool
same_format a b = if a then b else not b

-- `of_int` is the conversion to double, `equal` is `fabs(a - b) < 0.005`.
module _ {F : Type 0} (rates : Rates F) (of_int : ℕ → F) (equal : F → F → Bool)
    (settings : Settings) where
  abbrev pub target_fps : Ultra → VideoFormat → F
  target_fps u format = of_int (if u.fixed_mode_override then u.fixed_fps else format.framerate)

  abbrev pub target_w : Ultra → VideoFormat → ℕ
  target_w u format = if u.fixed_mode_override then u.fixed_width else format.width

  abbrev pub target_h : Ultra → VideoFormat → ℕ
  target_h u format = if u.fixed_mode_override then u.fixed_height else format.height

  -- Lines 3325 to 3329: nothing changes.
  abbrev pub is_unchanged : Bool → Ultra → VideoFormat → Bool
  is_unchanged previous_is_rgb u format =
      settings.is_sdi
      && format.locked
      && u.display.modeset_active
      && u.display.overlay_active
      && same_format previous_is_rgb u.overlay_is_rgb
      && u.display.current_mode.hdisplay == target_w u format
      && u.display.current_mode.vdisplay == target_h u format
      && equal (rates.mode_vrefresh u.display.current_mode) (target_fps u format)

  -- Lines 3345 to 3352: a locked format that could not be set gives way to the mixer's own picture.
  unfoldable pub give_way : Answers → Bool → Ultra → List Call → Answered
  give_way second locked u calls =
      let mode = u.display.current_mode in
      let off =
        apply_drm_modeset rates settings second u.display mode.hdisplay mode.vdisplay
          (rates.mode_vrefresh mode) false in
      if locked && not (mode.hdisplay == 0)
      then record {
        reply = failure;
        ultra = record u { display = off.display };
        calls = calls ++ off.calls;
      }
      else record { reply = failure; ultra = u; calls = calls }

  -- Lines 3336 to 3352.
  unfoldable pub switch : Answers → Answers → Ultra → VideoFormat → Answered
  unfolding give_way
  switch first second u format =
      let done =
        apply_drm_modeset rates settings first u.display (target_w u format) (target_h u format)
          (target_fps u format) format.locked in
      let u' = record u { display = done.display } in
      let gave_way = give_way second format.locked u' done.calls in
      if done.ok then record { reply = success; ultra = u'; calls = done.calls } else gave_way

  -- Lines 3305 to 3352.
  unfoldable pub follow : Answers → Answers → Bool → Ultra → VideoFormat → Answered
  unfolding switch
  follow first second previous_is_rgb u format =
      if u.avh_active
        || (u.force_dante_source && not format.locked)
        || is_unchanged previous_is_rgb u format
      then record { reply = success; ultra = u; calls = [] }
      else switch first second u format

  -- `first` and `second` are the kernel's answers to the modesets that are made.
  unfoldable pub dau_set_video_format : Answers → Answers → Ultra → Option VideoFormat → Answered
  dau_set_video_format first second u none = record { reply = failure; ultra = u; calls = [] }
  dau_set_video_format first second u (some format) =
      let v = noted u format in
      let dummy =
        apply_drm_modeset rates settings first v.display v.fixed_width v.fixed_height
          (of_int v.fixed_fps) false in
      if outside_contract settings v format
      then record {
        reply = failure;
        ultra = record v { display = dummy.display };
        calls = dummy.calls;
      }
      else follow first second v.overlay_is_rgb (remembered v format) format

  -- `restore_ultra_output`.
  unfoldable pub restore_ultra_output : Answers → Ultra → Done
  restore_ultra_output a u =
      let format = u.last_locked_video_format in
      let fixed = u.fixed_mode_override || not format.locked in
      apply_drm_modeset rates settings a u.display (if fixed then u.fixed_width else format.width)
        (if fixed then u.fixed_height else format.height)
        (of_int (if fixed then u.fixed_fps else format.framerate)) true
