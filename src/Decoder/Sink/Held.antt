-- ===== src/Decoder/Sink/Held.antt =====
-- src/tests/sc6f0-dante-rx.cpp: where a sink shows its picture, and that no sink is lost.
use qcap_demos.Prelude.{
  ℕ, ◌+◌, ◌≡◌, refl, Bool, true, false, List, [], ◌∷◌, ◌++◌, Option, none, some, if◌then◌else◌,
  arith, either, ◌∙◌,
}
use qcap_demos.Modeset.{Rect}
use qcap_demos.Decoder.Sink.{
  SinkCall, sink_new, sink_delete, SinkState, Size, Answered, drm_rect, place_sink, start_vdec_sink,
  stop_vdec_display, Step, starts_sink, stops_display, step, run,
}

-- The sinks that a list of calls makes, and those that it deletes.
unfoldable pub made : List SinkCall → ℕ
made [] = 0
made (sink_new ∷ cs) = 1 + made cs
made (_ ∷ cs) = made cs

unfoldable pub deleted : List SinkCall → ℕ
deleted [] = 0
deleted (sink_delete ∷ cs) = 1 + deleted cs
deleted (_ ∷ cs) = deleted cs

abbrev pub held : SinkState → ℕ
held o = if o.has_sink then 1 else 0

-- The receiver has a sink exactly while one is started.
abbrev pub IsKept : SinkState → Type 0
IsKept o = o.has_sink ≡ o.sink_started

made-append : (xs ys : List SinkCall) → made (xs ++ ys) ≡ made xs + made ys
unfolding made
made-append [] ys = ground arith
made-append (sink_new ∷ xs) ys = ground (arith, made-append xs ys)
made-append (_ ∷ xs) ys = made-append xs ys

deleted-append : (xs ys : List SinkCall) → deleted (xs ++ ys) ≡ deleted xs + deleted ys
unfolding deleted
deleted-append [] ys = ground arith
deleted-append (sink_delete ∷ xs) ys = ground (arith, deleted-append xs ys)
deleted-append (_ ∷ xs) ys = deleted-append xs ys

place-IsKept :
    (starts : Bool) (z : Size) (o : SinkState) (r : Option Rect)
    → IsKept o
    → IsKept (place_sink starts z o r).output
unfolding place_sink
place-IsKept starts z o none h = h
place-IsKept true z o (some r) h = refl
place-IsKept false z o (some r) h = h

place-counts :
    (starts : Bool) (z : Size) (o : SinkState) (r : Option Rect)
    → o.has_sink ≡ false
    → let a = place_sink starts z o r in held o + made a.calls ≡ held a.output + deleted a.calls
unfolding place_sink made deleted
place-counts starts z o none h = ground (arith, h)
place-counts true z o (some r) h = ground (arith, h)
place-counts false z o (some r) h = ground (arith, h)

-- What every outcome of a start has.
pub start-cases :
    (P : Answered → Type 0) (given starts : Bool) (z : Size) (o : SinkState)
    → (o.sink_started ≡ true → P (record { ok = true; output = o; calls = [] }))
    → (o.sink_started ≡ false → P (place_sink starts z o (drm_rect z)))
    → P (record { ok = false; output = o; calls = [] })
    → P (start_vdec_sink given starts z o)
unfolding start_vdec_sink
start-cases P given starts z o running placed refused =
    either P o.sink_started running (λ (idle : o.sink_started ≡ false).
      either P given (λ (_ : given ≡ true). placed idle) (λ (_ : given ≡ false). refused))

start-IsKept :
    (given starts : Bool) (z : Size) (o : SinkState)
    → IsKept o
    → IsKept (start_vdec_sink given starts z o).output
start-IsKept given starts z o h =
    start-cases (λ (a : Answered). IsKept a.output) given starts z o
      (λ (_ : o.sink_started ≡ true). h)
      (λ (_ : o.sink_started ≡ false). place-IsKept starts z o (drm_rect z) h) h

pub start-counts :
    (given starts : Bool) (z : Size) (o : SinkState)
    → IsKept o
    → let a = start_vdec_sink given starts z o in
      held o + made a.calls ≡ held a.output + deleted a.calls
unfolding made deleted
start-counts given starts z o h =
    start-cases (λ (a : Answered). held o + made a.calls ≡ held a.output + deleted a.calls) given
      starts z o (λ (_ : o.sink_started ≡ true). refl)
      (λ (idle : o.sink_started ≡ false). place-counts starts z o (drm_rect z) (h ∙ idle)) refl

stop-counts :
    (o : SinkState)
    → held o + made (stop_vdec_display o).1
      ≡ held (stop_vdec_display o).0 + deleted (stop_vdec_display o).1
unfolding stop_vdec_display made deleted
stop-counts o = ground arith

step-IsKept : (s : Step) (o : SinkState) → IsKept o → IsKept (step s o).0
unfolding step stop_vdec_display
step-IsKept (starts_sink given starts z) o h = start-IsKept given starts z o h
step-IsKept stops_display o h = refl

step-counts :
    (s : Step) (o : SinkState)
    → IsKept o
    → held o + made (step s o).1 ≡ held (step s o).0 + deleted (step s o).1
unfolding step
step-counts (starts_sink given starts z) o h = start-counts given starts z o h
step-counts stops_display o h = stop-counts o

-- Whatever starts and stops there are, and whatever qcap2 answers, the sinks that are deleted are those that are made
-- and the one at the start, less the one that is left; and the receiver has a sink exactly while one is started.
run-counts :
    (ss : List Step) (o : SinkState)
    → IsKept o
    → IsKept (run ss o).0 × (held o + made (run ss o).1 ≡ held (run ss o).0 + deleted (run ss o).1)
unfolding run made deleted
run-counts [] o h = (h, refl)
run-counts (s ∷ ss) o h =
    let rest = run-counts ss (step s o).0 (step-IsKept s o h) in
    let here = step-counts s o h in
    let m = made-append (step s o).1 (run ss (step s o).0).1 in
    let d = deleted-append (step s o).1 (run ss (step s o).0).1 in
    (rest.0, omega (arith, rest.1, here, m, d))
