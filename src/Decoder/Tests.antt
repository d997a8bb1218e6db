-- ===== src/Decoder/Tests.antt =====
-- Runs of the decoder's life, and the theorems at them.
use qcap_demos.Decoder.Sink.{
  SinkState, Size, start_vdec_sink, place_sink, starts_sink, stops_display, step, run, drm_rect,
  stop_vdec_display,
}
use qcap_demos.Decoder.Sink.Placed.{Outcome, start_vdec_sink_lem}
use qcap_demos.Modeset.{fit_rect}
use qcap_demos.Prelude.{ℕ, ◌≡◌, refl, true, false, [], ◌∷◌, some}
use qcap_demos.Decoder.{
  Object, event, handlers, pool, decoder, stop, delete, Answers, start_vdec, start_display,
  start_drm_output, setup_async, after_setup, init_vdec_decoder, stop_vdec_decoder,
  stop_async_calls, Output,
}
use qcap_demos.Decoder.Life.{idle, running}
use qcap_demos.Decoder.Life.Start.{Ends, IsBalanced, start_vdec_lem}

-- A picture of 4:3 on an output of 16:9.
abbrev pillarboxed : Size
pillarboxed = record {
  drm_plane_id = 34;
  dec_width = 640;
  dec_height = 480;
  out_w = 1920;
  out_h = 1080;
}

abbrev dark : SinkState
dark = record { has_sink = false; sink_started = false; drm_active = true }

abbrev all_well : Answers
all_well = record {
  display_enabled = true;
  drm_starts = true;
  sink_made = true;
  sink_starts = true;
  size = pillarboxed;
  event_new = true;
  event_start = true;
  handlers_new = true;
  handlers_start = true;
  native_handle = true;
  add_handler = true;
  pool_new = true;
  pool_start = true;
  decoder_new = true;
  decoder_start = true;
}

abbrev each : Object → ℕ
each o = 1

starts : (start_vdec all_well idle dark).decoder.session ≡ running
unfolding start_vdec setup_async after_setup init_vdec_decoder start_display start_drm_output
    start_vdec_sink place_sink drm_rect fit_rect
starts = refl

-- A decoder that does not start leaves the sink on.
stays_lit :
    (start_vdec (record all_well { pool_start = false }) idle dark).display.output.sink_started
    ≡ true
unfolding start_vdec start_display start_drm_output start_vdec_sink place_sink drm_rect fit_rect
stays_lit = refl

-- The callbacks are joined before the decoder stops.
stops_in_order :
    (stop_vdec_decoder running).1
    ≡ stop handlers
      ∷ delete handlers
      ∷ stop decoder
      ∷ delete decoder
      ∷ stop pool
      ∷ delete pool
      ∷ stop event
      ∷ delete event
      ∷ []
unfolding stop_vdec_decoder stop_async_calls
stops_in_order = refl

start_vdec_lem_example :
    let a = record all_well { pool_start = false } in
    let done = start_vdec a idle dark in Ends each a dark done × IsBalanced dark done.display
start_vdec_lem_example = start_vdec_lem each (record all_well { pool_start = false }) dark refl

abbrev silent : Output
silent = record { decoded_frames = 0; decoded_errors = 0; display_errors = 0; released = 0 }

start_vdec_sink_lem_example : Outcome pillarboxed dark (start_vdec_sink true true pillarboxed dark)
start_vdec_sink_lem_example = start_vdec_sink_lem true true pillarboxed dark

stops_again : (run (starts_sink true true pillarboxed ∷ stops_display ∷ []) dark).0.has_sink ≡ false
unfolding run step stop_vdec_display
stops_again = refl

shows_4_by_3 : drm_rect pillarboxed ≡ some (record { x = 240; y = 0; w = 1440; h = 1080 })
unfolding drm_rect fit_rect
shows_4_by_3 = refl
