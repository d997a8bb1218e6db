-- ===== src/Decoder/Frames.antt =====
-- The decoder's output counters.
use qcap_demos.Prelude.{
  ◌+◌, ◌≤◌, ◌<◌, ◌^◌, ◌≡◌, ◌&&◌, not, List, [], ◌∷◌, if◌then◌else◌, arith, add64, length,
}
use qcap_demos.Decoder.{Popped, not_running, timed_out, failed, frame, Output, on_vdec_event}

-- A call of the output callback releases every frame that it takes: the frames released are those
-- counted as decoded, as long as the counter does not wrap; and it counts at most one error of the
-- decoder.
pub on_vdec_event_lem :
    (turns : List Popped) (o : Output)
    → o.decoded_frames + length turns < 2 ^ 64
    → o.decoded_errors + 1 < 2 ^ 64
    → let done = on_vdec_event turns o in
      (done.released + o.decoded_frames ≡ done.decoded_frames + o.released)
      × (done.decoded_frames ≤ o.decoded_frames + length turns)
      × (done.decoded_errors ≤ o.decoded_errors + 1)
unfolding on_vdec_event
on_vdec_event_lem [] o h e = (omega arith, omega arith, omega arith)
on_vdec_event_lem (not_running ∷ turns) o h e = (omega arith, omega arith, omega arith)
on_vdec_event_lem (timed_out ∷ turns) o h e = (omega arith, omega arith, omega arith)
on_vdec_event_lem (failed ∷ turns) o h e = (omega arith, omega arith, omega arith)
on_vdec_event_lem (frame shows taken ∷ turns) o h e =
    let next : Output = record o {
      decoded_frames = add64 o.decoded_frames 1;
      display_errors = if shows && not taken then add64 o.display_errors 1 else o.display_errors;
      released = o.released + 1;
    } in
    let rest = on_vdec_event_lem turns next (omega arith) e in
    (omega (arith, rest.0), omega (arith, rest.1), rest.2)
