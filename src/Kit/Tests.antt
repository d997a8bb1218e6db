-- ===== src/Kit/Tests.antt =====
-- Runs of the test kit on concrete libraries, and the theorems at them.
use qcap_demos.Prelude.{◌≡◌, refl, true, false, List, [], ◌∷◌, ◌++◌, none, some, arith, length}
use qcap_demos.Kit.{
  took, gave, Library, World, flush, flush_stack, object, event, event_running, user_mm,
}
use qcap_demos.Kit.Handlers.{new_event}
use qcap_demos.Kit.Layout.{Layout, nv12}
use qcap_demos.Kit.Mapped.{Frame, map_video_qdmabuf, unmap_video_qdmabuf, map-unmap}
use qcap_demos.Kit.Monitor.{owed, same_resource}
use qcap_demos.Kit.Session.{
  Request, event_request, video_qdmabuf_request, timer_handler_request, session,
  session_returns_all,
}
use qcap_demos.Kit.Ticker.{TickCtrl, advance, forward}
use qcap_demos.Kit.Wait.{timed_out, typed, Run, round, rounds, wait_for_test_finish}
use qcap_demos.Kit.Wait.Ends.{quit_ends}

-- A library that gives new handles; the second starts nothing.
abbrev good : Library
good = record { takes = λ log r. 0; asks = λ log q. 0; handle = λ log what. length log }

abbrev poor : Library
poor = record { takes = λ log r. 7; asks = λ log q. 0; handle = λ log what. length log }

abbrev no_world : World
no_world = record { log = []; stack = [] }

event_calls :
    ((flush (new_event good no_world).1).log
      ≡ gave (object event 0)
        ∷ gave (object event_running 0)
        ∷ took (object event_running 0) true
        ∷ took (object event 0) true
        ∷ [])
    × ((flush (new_event poor no_world).1).log
        ≡ gave (object event 0)
          ∷ took (object event_running 0) false
          ∷ took (object event 0) true
          ∷ [])
unfolding flush flush_stack new_event
event_calls = (refl, refl)

-- What is given back twice, or not in order, is noticed.
out_of_order :
    owed (gave (object event 0) ∷ took (object user_mm 1) true ∷ took (object event 0) true ∷ [])
    ≡ none
unfolding same_resource
out_of_order = refl

abbrev some_requests : List Request
some_requests = event_request ∷ video_qdmabuf_request nv12 1920 1080 ∷ timer_handler_request 3 ∷ []

session_returns_all_example :
    (owed (flush (session good 5 6 some_requests no_world)).log ≡ some [])
    × ((flush (session good 5 6 some_requests no_world)).stack ≡ [])
session_returns_all_example = session_returns_all good 5 6 some_requests

abbrev hd : Layout
hd = record { stride = 1920; chroma = 2073600; size = 3110400 }

abbrev unmapped : Frame
unmapped = record { planes = 0 ∷ 2073600 ∷ 0 ∷ 0 ∷ []; mapped = false }

map-unmap_example :
    (unmap_video_qdmabuf 0 0 4096 (map_video_qdmabuf 0 0 4096 unmapped).1 ≡ (0, unmapped))
    × (map_video_qdmabuf 0 9 4096 unmapped ≡ (9, record unmapped { mapped = true }))
map-unmap_example =
    map-unmap unmapped 4096 9 (omega arith, (omega arith, (omega arith, (omega arith, tt))))
      (omega arith) refl (omega arith)

abbrev sixty : TickCtrl
sixty = record { num = 60; den = 1; den_secs = 1000000; timer = 1000 }

next_tick : (advance 40000 sixty).0 ≡ 11000
unfolding advance forward
next_tick = refl

abbrev fresh : Run
fresh = record {
  is_ended = false;
  waiting = record { is_open = true; tick = 0; now = 0 };
  calls = [];
}

quit_ends_example :
    (rounds
        (λ calls key. true)
        (((1, timed_out) ∷ (2, typed 97) ∷ []) ++ ((3, typed 113) ∷ ((4, timed_out) ∷ [])))
        fresh
      ≡ rounds
          (λ calls key. true)
          (((1, timed_out) ∷ (2, typed 97) ∷ []) ++ ((3, typed 113) ∷ []))
          fresh)
    × ((rounds
          (λ calls key. true)
          (((1, timed_out) ∷ (2, typed 97) ∷ []) ++ ((3, typed 113) ∷ ((4, timed_out) ∷ [])))
          fresh).is_ended
        ≡ true)
quit_ends_example =
    quit_ends (λ calls key. true) ((1, timed_out) ∷ (2, typed 97) ∷ []) ((4, timed_out) ∷ []) 3
      fresh tt refl

idle_calls :
    (wait_for_test_finish
      (λ calls key. true)
      1000000
      60
      0
      ((1, timed_out) ∷ (2, typed 97) ∷ (3, typed 113) ∷ [])).calls
    ≡ 97 ∷ 0 ∷ []
unfolding wait_for_test_finish rounds round
idle_calls = refl
