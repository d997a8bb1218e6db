-- ===== src/Modeset/Kernel.antt =====
-- src/tests/sc6f0-dante-rx.cpp: the display's state (`ultra_direct_context_t`), the kernel objects it
-- holds, the calls that a modeset makes and what they answer.
use qcap_demos.Prelude.{ℕ, Bool, List, Option}
use qcap_demos.Modeset.{Mode, Rect}

pub data Kind : Type 0 where
  frame_buffer buffer_object mode_blob : Kind

-- What the overlay plane shows: a frame buffer of a size, in a rectangle.
pub record Shown : Type 0 where
  pub fb : ℕ
  pub rect : Rect
  pub src_w : ℕ
  pub src_h : ℕ

-- The source property of the overlay plane, and what it shows.
pub record Overlay : Type 0 where
  pub source : Bool
  pub shown : Option Shown

pub record Request : Type 0 where
  pub blob : ℕ
  pub primary_fb : ℕ
  pub output_w : ℕ
  pub output_h : ℕ
  pub overlay : Option Overlay

pub data Call : Type 0 where
  create destroy : Kind → ℕ → Call
  commit : Request → Call
  passthrough : Bool → Call
  configure_vtpg : ℕ → ℕ → Call
  set_vmix_layer1_opaque : Call

-- The fields of ultra_direct_context_t that the modeset uses; 0 is no object.
pub record Display : Type 0 where
  pub is_open : Bool
  pub connector_id : ℕ
  pub crtc_id : ℕ
  pub overlay_plane_id : ℕ
  pub primary_fb_id : ℕ
  pub primary_bo_handle : ℕ
  pub overlay_fb_id : ℕ
  pub overlay_bo_handle : ℕ
  pub mode_blob_id : ℕ
  pub modeset_active : Bool
  pub overlay_active : Bool
  pub current_mode : Mode

-- The output and the command line's options.
pub record Settings : Type 0 where
  pub is_sdi : Bool
  pub sdi_audio_disabled : Bool
  pub sdi_audio_optional : Bool

-- A dumb buffer's handle and the frame buffer on it, as far as they are given.
pub record Dumb : Type 0 where
  pub handle : Option ℕ
  pub fb : Option ℕ

-- What the kernel answers. `connector` is the list of modes of a connected display.
pub record Answers : Type 0 where
  pub connector : Option (List Mode)
  pub blob : Option ℕ
  pub primary : Dumb
  pub overlay : Dumb
  pub request : Bool
  pub source_property : Bool
  pub passthrough_off : Bool
  pub sdi_properties : Bool
  pub commits : Bool
  pub passthrough_on : Bool

pub record Done : Type 0 where
  pub ok : Bool
  pub display : Display
  pub calls : List Call
