-- ===== src/Kit/Handlers.antt =====
-- src/zzlab/testkit.h: events, event handlers, timers and the video sink.
use qcap_demos.Prelude.{ℕ}
use qcap_demos.Kit.{
  event, event_handlers, callback, video_sink, event_running, handlers_running, sink_running,
  handler_added, Resource, event_native_handle, timer_native_handle, window_native_handle, Library,
  M, pure, ◌>>=◌, ◌>>◌, defer, object, make, take_it, ask,
}

-- `qcap2_event_handlers_add_handler` on a native handle, undone by `remove_handler`.
abbrev pub handler : ℕ → ℕ → Resource
handler handlers native = record { what = handler_added; owner = handlers; other = native }

module _ (library : Library) where
  unfoldable pub new_event : M ℕ
  new_event = do
    e ← make library event
    defer (object event e)
    take_it library (object event_running e)
    defer (object event_running e)
    pure e

  unfoldable pub start_event_handlers : M ℕ
  start_event_handlers = do
    handlers ← make library event_handlers
    defer (object event_handlers handlers)
    take_it library (object handlers_running handlers)
    defer (object handlers_running handlers)
    pure handlers

  -- `AddEventHandler` on a native handle.
  unfoldable pub add_event_handler : ℕ → ℕ → M (Unit {0})
  add_event_handler handlers native = do
    cb ← make library callback
    defer (object callback cb)
    take_it library (handler handlers native)
    defer (handler handlers native)

  -- `AddEventHandler` on an event.
  unfoldable pub add_handler_of_event : ℕ → M (Unit {0})
  unfolding add_event_handler
  add_handler_of_event handlers = do
    native ← ask library event_native_handle event
    add_event_handler handlers native

  unfoldable pub add_timer_handler : ℕ → M (Unit {0})
  add_timer_handler handlers = do
    native ← ask library timer_native_handle event
    cb ← make library callback
    defer (object callback cb)
    take_it library (handler handlers native)
    defer (handler handlers native)

  -- `StartVsink_ximage`; the settings of the sink, which cannot fail, are left out.
  unfoldable pub start_vsink_ximage : M ℕ
  start_vsink_ximage = do
    sink ← make library video_sink
    defer (object video_sink sink)
    native ← ask library window_native_handle video_sink
    take_it library (object sink_running sink)
    defer (object sink_running sink)
    pure sink
