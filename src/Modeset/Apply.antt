-- ===== src/Modeset/Apply.antt =====
-- src/tests/sc6f0-dante-rx.cpp: `create_dumb_fb`, `destroy_dumb_fb`, `apply_drm_modeset` and
-- `cleanup_ultra_direct_drm`. What the kernel answers to the calls is an argument; the calls that
-- change its state are listed in the order they are made. The property ids of the kernel's objects,
-- the pixels written into a new overlay buffer and the log lines are left out.
use qcap_demos.Prelude.{
  ℕ, Bool, true, false, ◌&&◌, ◌||◌, not, List, [], ◌∷◌, ◌++◌, Option, none, some, ltb, ◌==◌,
  if◌then◌else◌,
}
use qcap_demos.Modeset.Kernel.{
  frame_buffer, buffer_object, mode_blob, Shown, Overlay, Request, Call, create, destroy, commit,
  passthrough, configure_vtpg, set_vmix_layer1_opaque, Display, Settings, Answers, Done,
}
use qcap_demos.Modeset.{Mode, Rates, Rect, is_sdi_mode, choose_mode, fit_rect}

-- A frame buffer and its buffer object.
abbrev pub Buffers : Type 0
Buffers = ℕ × ℕ

unfoldable pub create_dumb_fb : Option ℕ → Option ℕ → Option Buffers × List Call
create_dumb_fb none fb = (none, [])
create_dumb_fb (some bo) none = (none, create buffer_object bo ∷ destroy buffer_object bo ∷ [])
create_dumb_fb (some bo) (some fb) =
    (some (fb, bo), create buffer_object bo ∷ create frame_buffer fb ∷ [])

-- On an open device.
unfoldable pub destroy_dumb_fb : ℕ → ℕ → List Call
destroy_dumb_fb fb bo =
    (if fb == 0 then [] else destroy frame_buffer fb ∷ [])
    ++ (if bo == 0 then [] else destroy buffer_object bo ∷ [])

-- The new objects, and `enable_overlay` after they were made.
pub record Fresh : Type 0 where
  pub blob : ℕ
  pub primary : Buffers
  pub overlay : Buffers
  pub enable : Bool

-- What every failure after the objects were made does.
unfoldable pub discard : Fresh → List Call
discard f =
    destroy_dumb_fb f.primary.0 f.primary.1
    ++ (destroy_dumb_fb f.overlay.0 f.overlay.1 ++ destroy mode_blob f.blob ∷ [])

-- Lines 3138 to 3142.
unfoldable pub release : Display → List Call
release d =
    destroy_dumb_fb d.primary_fb_id d.primary_bo_handle
    ++ (destroy_dumb_fb d.overlay_fb_id d.overlay_bo_handle
        ++ (if d.mode_blob_id == 0 then [] else destroy mode_blob d.mode_blob_id ∷ []))

-- Lines 3143 to 3150.
abbrev pub install : Display → Fresh → Mode → Display
install d f mode = record d {
  primary_fb_id = f.primary.0;
  primary_bo_handle = f.primary.1;
  overlay_fb_id = f.overlay.0;
  overlay_bo_handle = f.overlay.1;
  mode_blob_id = f.blob;
  modeset_active = true;
  overlay_active = f.enable;
  current_mode = mode;
}

-- Lines 3151 to 3173, after the commit.
unfoldable pub after_commit : Settings → Answers → Mode → Bool → Bool × List Call
after_commit settings a mode enable =
    let embeds = settings.is_sdi && enable && not settings.sdi_audio_disabled in
    let tried = if embeds then passthrough true ∷ [] else [] in
    let last = if enable then set_vmix_layer1_opaque ∷ [] else [] in
    if embeds && not a.passthrough_on && not settings.sdi_audio_optional
    then (false, tried)
    else (true, tried ++ configure_vtpg mode.hdisplay mode.vdisplay ∷ last)

-- Lines 3083 to 3125.
abbrev pub overlay_request : Display → Fresh → Rect → ℕ → ℕ → Option Overlay
overlay_request d f rect width height =
    let shown : Shown = record { fb = f.overlay.0; rect = rect; src_w = width; src_h = height } in
    if d.overlay_plane_id == 0
    then none
    else some record {
      source = f.enable;
      shown = if f.enable && not (f.overlay.0 == 0) then some shown else none;
    }

-- The atomic request.
abbrev pub request_of : Display → Fresh → Mode → Rect → ℕ → ℕ → Request
request_of d f mode rect width height = record {
  blob = f.blob;
  primary_fb = f.primary.0;
  output_w = mode.hdisplay;
  output_h = mode.vdisplay;
  overlay = overlay_request d f rect width height;
}

-- Lines 3027 to 3041. `enable_overlay` is cleared only if the overlay's buffer is refused.
abbrev pub with_overlay : Bool → ℕ → Option Buffers → Buffers × Bool
with_overlay enable plane (some made) = (made, enable)
with_overlay enable plane none = ((0, 0), enable && plane == 0)

abbrev pub wants_overlay : Display → Bool → Bool
wants_overlay d enable = enable && not (d.overlay_plane_id == 0)

abbrev pub overlay_buffers : Answers → Display → Bool → Option Buffers × List Call
overlay_buffers a d enable =
    if wants_overlay d enable then create_dumb_fb a.overlay.handle a.overlay.fb else (none, [])

abbrev pub behind : List Call → Done → Done
behind before done = record done { calls = before ++ done.calls }

abbrev pub is_refused : Display → ℕ → ℕ → Bool
is_refused d width height =
    not d.is_open
    || d.connector_id == 0
    || d.crtc_id == 0
    || width == 0
    || height == 0
    || ltb 3840 width
    || ltb 2160 height

module _ {F : Type 0} (rates : Rates F) (settings : Settings) (a : Answers) where
  -- Lines 3127 and 3128: `set_sdi_fpga_passthrough` and `add_output_properties` succeed.
  abbrev pub is_ready : Mode → Bool
  is_ready mode =
      (not settings.is_sdi || a.passthrough_off)
      && (not settings.is_sdi || (is_sdi_mode rates mode && a.sdi_properties))

  -- Lines 3043 to 3179, with the new objects made.
  unfoldable pub commit_fresh : Display → Mode → Rect → ℕ → ℕ → Fresh → Done
  unfolding is_sdi_mode
  commit_fresh d mode rect width height f =
      let request = request_of d f mode rect width height in
      let switched = if settings.is_sdi then passthrough false ∷ [] else [] in
      let ready = is_ready mode in
      let after = after_commit settings a mode f.enable in
      if not a.request || (not (d.overlay_plane_id == 0) && not a.source_property)
      then record { ok = false; display = d; calls = discard f }
      else if not (ready && a.commits)
      then record {
        ok = false;
        display = d;
        calls = switched ++ ((if ready then commit request ∷ [] else []) ++ discard f);
      }
      else record {
        ok = after.0;
        display = install d f mode;
        calls = switched ++ (commit request ∷ (release d ++ after.1));
      }

  -- Lines 3021 to 3041.
  unfoldable pub with_primary : Display → Mode → Rect → ℕ → ℕ → Bool → ℕ → Option Buffers → Done
  unfolding create_dumb_fb commit_fresh
  with_primary d mode rect width height enable blob none = record {
    ok = false;
    display = d;
    calls = destroy mode_blob blob ∷ [];
  }
  with_primary d mode rect width height enable blob (some primary) =
      let made = overlay_buffers a d enable in
      let (buffers, enabled) = with_overlay enable d.overlay_plane_id made.0 in
      let fresh : Fresh = record {
        blob = blob;
        primary = primary;
        overlay = buffers;
        enable = enabled;
      } in
      behind made.1 (commit_fresh d mode rect width height fresh)

  -- Lines 3013 to 3025.
  unfoldable pub with_blob : Display → Mode → Rect → ℕ → ℕ → Bool → Option ℕ → Done
  unfolding create_dumb_fb with_primary
  with_blob d mode rect width height enable none = record { ok = false; display = d; calls = [] }
  with_blob d mode rect width height enable (some blob) =
      let made = create_dumb_fb a.primary.handle a.primary.fb in
      behind (create mode_blob blob ∷ made.1)
        (with_primary d mode rect width height enable blob made.0)

  unfoldable pub with_rect : Display → Mode → ℕ → ℕ → Bool → Option Rect → Done
  unfolding with_blob
  with_rect d mode width height enable none = record { ok = false; display = d; calls = [] }
  with_rect d mode width height enable (some rect) =
      with_blob d mode rect width height enable a.blob

  unfoldable pub with_mode : Display → ℕ → ℕ → Bool → Option Mode → Done
  unfolding with_rect fit_rect
  with_mode d width height enable none = record { ok = false; display = d; calls = [] }
  with_mode d width height enable (some mode) =
      with_rect d mode width height enable (fit_rect width height mode.hdisplay mode.vdisplay)

  unfoldable pub with_modes : Display → ℕ → ℕ → F → Bool → Option (List Mode) → Done
  unfolding with_mode choose_mode
  with_modes d width height fps enable none = record { ok = false; display = d; calls = [] }
  with_modes d width height fps enable (some modes) =
      with_mode d width height enable (choose_mode rates settings.is_sdi modes width height fps)

  unfoldable pub apply_drm_modeset : Display → ℕ → ℕ → F → Bool → Done
  unfolding with_modes
  apply_drm_modeset d width height fps enable =
      if is_refused d width height
      then record { ok = false; display = d; calls = [] }
      else with_modes d width height fps enable a.connector

-- `cleanup_ultra_direct_drm` without the status page of the resync workaround. The identifiers of
-- the frame buffers and of the mode are cleared, and the device is closed.
unfoldable pub cleanup_ultra_direct_drm : Settings → Display → Display × List Call
unfolding release
cleanup_ultra_direct_drm settings d = if not d.is_open then (d, []) else (
  record d {
    is_open = false;
    primary_fb_id = 0;
    primary_bo_handle = 0;
    overlay_fb_id = 0;
    overlay_bo_handle = 0;
    mode_blob_id = 0;
    modeset_active = false;
  },
  (if settings.is_sdi then passthrough false ∷ [] else []) ++ release d,
)
