-- ===== src/Decoder.antt =====
-- src/tests/sc6f0-dante-rx.cpp: the life of the hardware decoder (`SetupVdecAsync`, `StopVdecAsync`,
-- `init_vdec_decoder`, the body of the thread of `start_vdec_decoder_async`, `stop_vdec_decoder`) and
-- its output (`on_vdec_event_callback`). What qcap2 answers is an argument; the calls that make,
-- start, stop and delete its objects are listed in order. The settings of a new object are left out.
pub mod Sink
pub mod Life
pub mod Frames
mod Tests
use qcap_demos.Prelude.{
  ℕ, ◌+◌, Bool, true, false, ◌&&◌, ◌||◌, not, List, [], ◌∷◌, ◌++◌, if◌then◌else◌, add64,
}
use qcap_demos.Decoder.Sink.{SinkState, Size, Answered, start_vdec_sink}

pub data Object : Type 0 where
  event handlers pool decoder : Object

pub data Call : Type 0 where
  create start stop delete : Object → Call

-- Which pointers of the receiver are set, and its two flags.
pub record Session : Type 0 where
  pub has_handlers : Bool
  pub has_pool : Bool
  pub has_event : Bool
  pub has_decoder : Bool
  pub vdec_started : Bool
  pub vdec_init_done : Bool

-- Whether the display is enabled, whether `start_drm_output` and the calls for its sink succeed and with which sizes;
-- and which calls of qcap2 succeed.
pub record Answers : Type 0 where
  pub display_enabled : Bool
  pub drm_starts : Bool
  pub sink_made : Bool
  pub sink_starts : Bool
  pub size : Size
  pub event_new : Bool
  pub event_start : Bool
  pub handlers_new : Bool
  pub handlers_start : Bool
  pub native_handle : Bool
  pub add_handler : Bool
  pub pool_new : Bool
  pub pool_start : Bool
  pub decoder_new : Bool
  pub decoder_start : Bool

pub record Step : Type 0 where
  pub ok : Bool
  pub session : Session
  pub calls : List Call

abbrev pub stopped : Object → List Call
stopped o = stop o ∷ delete o ∷ []

-- `StopVdecAsync`.
unfoldable pub stop_async_calls : Session → List Call
stop_async_calls s =
    (if s.has_handlers then stopped handlers else [])
    ++ ((if s.has_pool then stopped pool else []) ++ (if s.has_event then stopped event else []))

abbrev pub without_async : Session → Session
without_async s = record s {
  has_handlers = false;
  has_pool = false;
  has_event = false;
  vdec_init_done = false;
}

-- A failure of `SetupVdecAsync` after the calls `made`, with the pointers of `s`.
unfoldable pub gives_up : Session → List Call → Step
gives_up s made = record {
  ok = false;
  session = without_async s;
  calls = made ++ stop_async_calls s;
}

unfoldable pub setup_async : Answers → Session → Step
unfolding gives_up
setup_async a s =
    let s1 = record s { has_event = true } in
    let s2 = record s1 { has_handlers = true } in
    let s3 = record s2 { has_pool = true } in
    let c0 = create event ∷ [] in
    let c1 = create event ∷ start event ∷ [] in
    let c2 = create event ∷ start event ∷ create handlers ∷ [] in
    let c3 = create event ∷ start event ∷ create handlers ∷ start handlers ∷ [] in
    let c4 = create event ∷ start event ∷ create handlers ∷ start handlers ∷ create pool ∷ [] in
    if not a.event_new
    then record { ok = false; session = record s { has_event = false }; calls = [] }
    else if not a.event_start
    then gives_up s1 c0
    else if not a.handlers_new
    then gives_up (record s1 { has_handlers = false }) c1
    else if not a.handlers_start
    then gives_up s2 c2
    else if not a.native_handle || not a.add_handler
    then gives_up s2 c3
    else if not a.pool_new
    then gives_up (record s2 { has_pool = false }) c3
    else if not a.pool_start
    then gives_up s3 c4
    else record {
      ok = true;
      session = record s3 { vdec_init_done = true };
      calls = c4 ++ start pool ∷ [];
    }

unfoldable pub init_vdec_decoder : Answers → Session → Step
init_vdec_decoder a s =
    if not a.decoder_new
    then record { ok = false; session = record s { has_decoder = false }; calls = [] }
    else if not a.decoder_start
    then record {
      ok = false;
      session = record s { has_decoder = false };
      calls = create decoder ∷ delete decoder ∷ [];
    }
    else record {
      ok = true;
      session = record s { has_decoder = true; vdec_started = true };
      calls = create decoder ∷ start decoder ∷ [];
    }

-- Lines 1231 to 1235: both steps, and the cleanup if one of them fails.
unfoldable pub after_setup : Answers → Step → Step
unfolding init_vdec_decoder stop_async_calls
after_setup a set_up =
    let made = init_vdec_decoder a set_up.session in
    let last = if set_up.ok then made.session else set_up.session in
    let calls = if set_up.ok then set_up.calls ++ made.calls else set_up.calls in
    if set_up.ok && made.ok
    then record { ok = true; session = last; calls = calls }
    else record { ok = false; session = without_async last; calls = calls ++ stop_async_calls last }

-- `start_drm_output`: it does nothing on an active output, and stops what it began when it fails. The audio that it
-- starts on an SDI output is left out.
unfoldable pub start_drm_output : Bool → SinkState → Bool × SinkState
start_drm_output starts o =
    if o.drm_active then (true, o) else (starts, record o { drm_active = starts })

-- Lines 1221 to 1223: the output, then its sink, where the display is enabled.
unfoldable pub start_display : Answers → SinkState → Answered
start_display a o =
    let (ready, o') = start_drm_output a.drm_starts o in
    let sink = start_vdec_sink a.sink_made a.sink_starts a.size o' in
    if not a.display_enabled
    then record { ok = true; output = o; calls = [] }
    else (if ready then sink else record { ok = false; output = o'; calls = [] })

-- What the thread leaves: the decoder, and the display.
pub record Started : Type 0 where
  pub decoder : Step
  pub display : Answered

-- The body of the thread: a display that was started stays so when the decoder fails.
unfoldable pub start_vdec : Answers → Session → SinkState → Started
start_vdec a s o =
    let display = start_display a o in
    let untouched : Step = record { ok = false; session = s; calls = [] } in
    let made = after_setup a (setup_async a s) in
    record { decoder = if display.ok then made else untouched; display = display }

unfoldable pub stop_vdec_decoder : Session → Session × List Call
stop_vdec_decoder s =
    let joined = record s { has_handlers = false } in
    let freed =
      if s.has_decoder
      then record joined { has_decoder = false; vdec_started = false }
      else joined in
    (
      without_async freed,
      (if s.has_handlers then stopped handlers else [])
          ++ ((if s.has_decoder
                then (if s.vdec_started then stop decoder ∷ [] else []) ++ delete decoder ∷ []
                else [])
              ++ stop_async_calls freed),
    )

-- One turn of the loop of the output callback: whether the decoder runs, what the pop gives, whether
-- the sink shows frames and whether it takes this one.
pub data Popped : Type 0 where
  not_running timed_out failed : Popped
  frame : Bool → Bool → Popped

pub record Output : Type 0 where
  pub decoded_frames : ℕ
  pub decoded_errors : ℕ
  pub display_errors : ℕ
  pub released : ℕ

-- The turns of one call of `on_vdec_event_callback`; it is over when no frame is given.
unfoldable pub on_vdec_event : List Popped → Output → Output
on_vdec_event [] o = o
on_vdec_event (not_running ∷ turns) o = o
on_vdec_event (timed_out ∷ turns) o = o
on_vdec_event (failed ∷ turns) o = record o { decoded_errors = add64 o.decoded_errors 1 }
on_vdec_event (frame shows taken ∷ turns) o = on_vdec_event turns (record o {
  decoded_frames = add64 o.decoded_frames 1;
  display_errors = if shows && not taken then add64 o.display_errors 1 else o.display_errors;
  released = o.released + 1;
})
