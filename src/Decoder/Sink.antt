-- ===== src/Decoder/Sink.antt =====
-- src/tests/sc6f0-dante-rx.cpp: the sink that shows the decoder's frames (`start_vdec_sink` and `stop_vdec_display`). What
-- qcap2 answers is an argument, the calls are listed in order; the refresh rate of the format is left out.
pub mod Held
pub mod Placed
use qcap_demos.Prelude.{
  ℕ, Bool, true, false, ◌&&◌, ◌||◌, not, List, [], ◌∷◌, ◌++◌, Option, none, some, ◌==◌,
  if◌then◌else◌,
}
use qcap_demos.Modeset.{Rect, fit_rect}

pub data SinkCall : Type 0 where
  sink_new set_backend_type sink_start sink_stop sink_delete : SinkCall
  set_native_handle : ℕ → SinkCall
  set_drm_rect : Rect → SinkCall
  set_video_format : ℕ → ℕ → SinkCall

-- The fields of the receiver that the sink uses, and `drm_modeset_active`.
pub record SinkState : Type 0 where
  pub has_sink : Bool
  pub sink_started : Bool
  pub drm_active : Bool

-- The plane, the size of the decoded picture and that of the output.
pub record Size : Type 0 where
  pub drm_plane_id : ℕ
  pub dec_width : ℕ
  pub dec_height : ℕ
  pub out_w : ℕ
  pub out_h : ℕ

pub record Answered : Type 0 where
  pub ok : Bool
  pub output : SinkState
  pub calls : List SinkCall

-- Where the picture is shown, unless a side is missing or the rectangle is empty: the same computation as the overlay's.
unfoldable pub drm_rect : Size → Option Rect
drm_rect z =
    if z.dec_width == 0 || z.dec_height == 0 || z.out_w == 0 || z.out_h == 0
    then none
    else fit_rect z.dec_width z.dec_height z.out_w z.out_h

abbrev pub opening : Size → List SinkCall
opening z = sink_new ∷ set_backend_type ∷ set_native_handle z.drm_plane_id ∷ []

abbrev pub showing : Size → Rect → List SinkCall
showing z r = opening z ++ (set_drm_rect r ∷ set_video_format z.out_w z.out_h ∷ sink_start ∷ [])

-- With a new sink.
unfoldable pub place_sink : Bool → Size → SinkState → Option Rect → Answered
place_sink starts z o none = record {
  ok = false;
  output = o;
  calls = opening z ++ sink_delete ∷ [];
}
place_sink starts z o (some r) =
    if starts
    then record {
      ok = true;
      output = record o { has_sink = true; sink_started = true };
      calls = showing z r;
    }
    else record { ok = false; output = o; calls = showing z r ++ sink_delete ∷ [] }

unfoldable pub start_vdec_sink : Bool → Bool → Size → SinkState → Answered
start_vdec_sink made starts z o =
    let placed = place_sink starts z o (drm_rect z) in
    if o.sink_started
    then record { ok = true; output = o; calls = [] }
    else (if made then placed else record { ok = false; output = o; calls = [] })

unfoldable pub stop_vdec_display : SinkState → SinkState × List SinkCall
stop_vdec_display o = (
  record { has_sink = false; sink_started = false; drm_active = false },
  if o.has_sink then (if o.sink_started then sink_stop ∷ [] else []) ++ sink_delete ∷ [] else [],
)

-- Starts, each with what qcap2 answers and the sizes it finds, and stops.
pub data Step : Type 0 where
  starts_sink : Bool → Bool → Size → Step
  stops_display : Step

unfoldable pub step : Step → SinkState → SinkState × List SinkCall
step (starts_sink made starts z) o = let a = start_vdec_sink made starts z o in (a.output, a.calls)
step stops_display o = stop_vdec_display o

unfoldable pub run : List Step → SinkState → SinkState × List SinkCall
run [] o = (o, [])
run (s ∷ ss) o = let (o', calls) = step s o in let (o'', rest) = run ss o' in (o'', calls ++ rest)
