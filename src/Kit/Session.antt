-- ===== src/Kit/Session.antt =====
-- A session of a test program on src/zzlab/testkit.h: any calls of the helpers, whatever the library
-- answers, then the flush.
use qcap_demos.Prelude.{
  ℕ, ◌≡◌, refl, Bool, true, false, List, [], ◌∷◌, none, some, arith, ◌==◌, if◌then◌else◌,
}
use qcap_demos.Kit.{
  What, rcbuffer, Resource, World, Library, took, Result, ok, err, M, ◌>>=◌, ◌>>◌, defer, object,
  make, take_it, flush,
}
use qcap_demos.Kit.Handlers.{
  new_event, start_event_handlers, add_event_handler, add_handler_of_event, add_timer_handler,
  start_vsink_ximage,
}
use qcap_demos.Kit.Layout.{ColorSpace, layout}
use qcap_demos.Kit.Buffers.{
  new_sysbuf, new_qdmabuf, new_video_qdmabuf, new_video_nvbuf, new_video_cudabuf,
  new_video_cudabuf_host, new_video_cudabuf_managed, with_layout,
}
use qcap_demos.Kit.Monitor.{owed, IsKept, flush_stack-owed}

-- An action that leaves exactly what is taken on the stack, if that was so before.
abbrev pub Keeps : {A : Type 0} → M A → Type 0
Keeps m = (base : List Resource) (w : World) → IsKept base w → IsKept base (m w).1

pub bind-Keeps :
    {A B : Type 0} (m : M A) (f : A → M B) → Keeps m → ((a : A) → Keeps (f a)) → Keeps (m >>= f)
bind-Keeps {A} {B} m f km kf base w h =
    let kept = km base w h in
    elim (m w).0
      as (λ r.
        IsKept base
          (elim r as (λ r. Result B × World) [ ok a ↦ f a (m w).1 | err e ↦ (err e, (m w).1) ]).1) [
            | ok a ↦ kf a base (m w).1 kept
            | err e ↦ kept
          ]

module _ (library : Library) where
  -- An object that is made and whose deletion is put on the stack, and what follows.
  pub make-Keeps :
      {A : Type 0} (what : What) (k : ℕ → M A)
      → ((n : ℕ) → Keeps (k n))
      → Keeps (make library what >>= λ n. defer (object what n) >> k n)
  make-Keeps what k kk base w h =
      kk (library.handle w.log what) base ((make library what >>= λ n. defer (object what n)) w).1
        (ground arith)

  -- Something that is taken and, if that did not fail, put on the stack, and what follows.
  pub take-Keeps :
      {A : Type 0} (r : Resource) (k : M A) → Keeps k → Keeps (take_it library r >> (defer r >> k))
  take-Keeps {A} r k kk base w h =
      let after : Bool → World = λ c. record w { log = took r c ∷ w.log } in
      elim (library.takes w.log r == 0)
        as (λ c.
          IsKept base
            (elim (if c then ok tt else err (library.takes w.log r)) as (λ x. Result A × World) [
              | ok a ↦ (defer r >> k) (after c)
              | err e ↦ (err e, after c)
            ]).1) [ true ↦ kk base (defer r (after true)).1 (ground arith) | false ↦ h ]

  pub new_event-Keeps : Keeps (new_event library)
  unfolding new_event
  new_event-Keeps base w h = ground arith

  pub start_event_handlers-Keeps : Keeps (start_event_handlers library)
  unfolding start_event_handlers
  start_event_handlers-Keeps base w h = ground arith

  pub add_event_handler-Keeps : (hs n : ℕ) → Keeps (add_event_handler library hs n)
  unfolding add_event_handler
  add_event_handler-Keeps hs n base w h = ground arith

  pub add_handler_of_event-Keeps : (hs : ℕ) → Keeps (add_handler_of_event library hs)
  unfolding add_event_handler add_handler_of_event
  add_handler_of_event-Keeps hs base w h = ground arith

  pub add_timer_handler-Keeps : (hs : ℕ) → Keeps (add_timer_handler library hs)
  unfolding add_timer_handler
  add_timer_handler-Keeps hs base w h = ground arith

  pub start_vsink_ximage-Keeps : Keeps (start_vsink_ximage library)
  unfolding start_vsink_ximage
  start_vsink_ximage-Keeps base w h = ground arith

  pub new_sysbuf-Keeps : (oom inv : ℕ) → Keeps (new_sysbuf library oom inv)
  unfolding new_sysbuf
  new_sysbuf-Keeps oom inv base w h = ground arith

  pub new_qdmabuf-Keeps : (oom inv : ℕ) → Keeps (new_qdmabuf library oom inv)
  unfolding new_qdmabuf
  new_qdmabuf-Keeps oom inv base w h = ground arith

  pub new_video_qdmabuf-Keeps :
      (oom inv : ℕ) (space : ColorSpace) (width height : ℕ)
      → Keeps (new_video_qdmabuf library oom inv space width height)
  unfolding new_video_qdmabuf
  new_video_qdmabuf-Keeps oom inv space width height base w h =
      elim (layout space width height)
        as (λ l.
          IsKept base
            ((make library rcbuffer >>= λ unused.
                defer (object rcbuffer unused)
                >> with_layout library oom inv l (new_qdmabuf library oom inv))
              w).1) [
                | none ↦ ground arith
                | some l ↦
                    new_qdmabuf-Keeps oom inv base
                      ((make library rcbuffer >>= λ unused. defer (object rcbuffer unused)) w).1
                      (ground arith)
              ]

  pub new_video_nvbuf-Keeps : (oom inv : ℕ) → Keeps (new_video_nvbuf library oom inv)
  unfolding new_video_nvbuf
  new_video_nvbuf-Keeps oom inv base w h = ground arith

  pub new_video_cudabuf-Keeps : (oom inv : ℕ) → Keeps (new_video_cudabuf library oom inv)
  unfolding new_video_cudabuf
  new_video_cudabuf-Keeps oom inv base w h = ground arith

  pub new_video_cudabuf_host-Keeps : (oom inv : ℕ) → Keeps (new_video_cudabuf_host library oom inv)
  unfolding new_video_cudabuf_host
  new_video_cudabuf_host-Keeps oom inv base w h = ground arith

  pub new_video_cudabuf_managed-Keeps :
      (oom inv : ℕ) → Keeps (new_video_cudabuf_managed library oom inv)
  unfolding new_video_cudabuf_managed
  new_video_cudabuf_managed-Keeps oom inv base w h = ground arith

-- A call of a helper, with its arguments.
pub data Request : Type 0 where
  event_request handlers_request sink_request sysbuf_request qdmabuf_request nvbuf_request : Request
  cudabuf_request cudabuf_host_request cudabuf_managed_request : Request
  handler_request : ℕ → ℕ → Request
  event_handler_request timer_handler_request : ℕ → Request
  video_qdmabuf_request : ColorSpace → ℕ → ℕ → Request

module _ (library : Library) (out_of_memory invalid_parameter : ℕ) where
  -- The world after a request, whether it failed or not.
  unfoldable pub perform : Request → World → World
  perform event_request w = (new_event library w).1
  perform handlers_request w = (start_event_handlers library w).1
  perform sink_request w = (start_vsink_ximage library w).1
  perform sysbuf_request w = (new_sysbuf library out_of_memory invalid_parameter w).1
  perform qdmabuf_request w = (new_qdmabuf library out_of_memory invalid_parameter w).1
  perform nvbuf_request w = (new_video_nvbuf library out_of_memory invalid_parameter w).1
  perform cudabuf_request w = (new_video_cudabuf library out_of_memory invalid_parameter w).1
  perform cudabuf_host_request w =
      (new_video_cudabuf_host library out_of_memory invalid_parameter w).1
  perform cudabuf_managed_request w =
      (new_video_cudabuf_managed library out_of_memory invalid_parameter w).1
  perform (handler_request handlers native) w = (add_event_handler library handlers native w).1
  perform (event_handler_request handlers) w = (add_handler_of_event library handlers w).1
  perform (timer_handler_request handlers) w = (add_timer_handler library handlers w).1
  perform (video_qdmabuf_request space width height) w =
      (new_video_qdmabuf library out_of_memory invalid_parameter space width height w).1

  unfoldable pub session : List Request → World → World
  unfolding perform
  session [] w = w
  session (r ∷ rs) w = session rs (perform r w)

  perform-IsKept : (r : Request) (w : World) → IsKept [] w → IsKept [] (perform r w)
  unfolding perform
  perform-IsKept event_request w h = new_event-Keeps library [] w h
  perform-IsKept handlers_request w h = start_event_handlers-Keeps library [] w h
  perform-IsKept sink_request w h = start_vsink_ximage-Keeps library [] w h
  perform-IsKept sysbuf_request w h =
      new_sysbuf-Keeps library out_of_memory invalid_parameter [] w h
  perform-IsKept qdmabuf_request w h =
      new_qdmabuf-Keeps library out_of_memory invalid_parameter [] w h
  perform-IsKept nvbuf_request w h =
      new_video_nvbuf-Keeps library out_of_memory invalid_parameter [] w h
  perform-IsKept cudabuf_request w h =
      new_video_cudabuf-Keeps library out_of_memory invalid_parameter [] w h
  perform-IsKept cudabuf_host_request w h =
      new_video_cudabuf_host-Keeps library out_of_memory invalid_parameter [] w h
  perform-IsKept cudabuf_managed_request w h =
      new_video_cudabuf_managed-Keeps library out_of_memory invalid_parameter [] w h
  perform-IsKept (handler_request handlers native) w h =
      add_event_handler-Keeps library handlers native [] w h
  perform-IsKept (event_handler_request handlers) w h =
      add_handler_of_event-Keeps library handlers [] w h
  perform-IsKept (timer_handler_request handlers) w h =
      add_timer_handler-Keeps library handlers [] w h
  perform-IsKept (video_qdmabuf_request space width height) w h =
      new_video_qdmabuf-Keeps library out_of_memory invalid_parameter space width height [] w h

  session-IsKept : (rs : List Request) (w : World) → IsKept [] w → IsKept [] (session rs w)
  unfolding session
  session-IsKept [] w h = h
  session-IsKept (r ∷ rs) w h = session-IsKept rs (perform r w) (perform-IsKept r w h)

  -- After any helpers of the test kit, whatever the library answers and wherever they stop, the flush
  -- leaves nothing to give back: each thing that was taken is given back exactly once, the last one
  -- first, and the stack is empty.
  pub session_returns_all :
      (rs : List Request)
      → (owed (flush (session rs (record { log = []; stack = [] }))).log ≡ some [])
        × ((flush (session rs (record { log = []; stack = [] }))).stack ≡ [])
  unfolding flush
  session_returns_all rs =
      let w = session rs (record { log = []; stack = [] }) in
      (
        flush_stack-owed w.stack [] w.log
            (session-IsKept rs (record { log = []; stack = [] }) refl),
        refl,
      )
