-- ===== src/Kit.antt =====
-- src/zzlab/testkit.h: the helpers that take objects of the qcap2 library and put what gives them
-- back on a stack of cleanups (`free_stack_t`). A helper is a state-passing action that can fail:
-- its `do` block has one line for each call and each `_FreeStack_ +=` of the source, and an error is
-- the `break` that leaves the rest out. What the library answers is a function of the calls so far.
pub mod Buffers
pub mod Handlers
pub mod Layout
pub mod Monitor
pub mod Session
pub mod Mapped
pub mod Wait
pub mod Ticker
pub mod Lock
mod Tests
use qcap_demos.Prelude.{
  ℕ, zero, suc, ◌+◌, Bool, true, false, ◌&&◌, List, [], ◌∷◌, ◌==◌, if◌then◌else◌,
}

-- The types of objects, the ways of having memory for a frame, and the states that a call begins and
-- another ends.
pub data What : Type 0 where
  event event_handlers callback video_sink rcbuffer timer user_mm array : What
  event_running handlers_running sink_running timer_running handler_added : What
  frame_buffer cuda_buffer cuda_host_buffer cuda_managed_buffer qdmabuf nvbuf : What

-- Something that is taken by one call and given back by another, with the handles that name it.
pub record Resource : Type 0 where
  pub what : What
  pub owner : ℕ
  pub other : ℕ

-- Calls that take nothing.
pub data Ask : Type 0 where
  event_native_handle timer_native_handle window_native_handle invoke map_qdmabuf get_qdmabuf
        unmap_qdmabuf :
      Ask

-- A call that was made: what it took and whether it succeeded, what it gave back, or what it asked.
pub data Entry : Type 0 where
  took : Resource → Bool → Entry
  gave : Resource → Entry
  asked : Ask → ℕ → Entry

-- The library: the code that a call returns after the calls so far (newest first), 0 for success,
-- and the handle that a constructor or a query gives.
pub record Library : Type 0 where
  pub takes : List Entry → Resource → ℕ
  pub asks : List Entry → Ask → ℕ
  pub handle : List Entry → What → ℕ

-- The calls made, newest first, and the stack of cleanups, top first.
pub record World : Type 0 where
  pub log : List Entry
  pub stack : List Resource

pub data Result (A : Type 0) : Type 0 where
  ok : A → Result A
  err : ℕ → Result A

abbrev pub M : Type 0 → Type 0
M A = World → Result A × World

abbrev pub pure : {A : Type 0} → A → M A
pure a w = (ok a, w)

abbrev pub fail : {A : Type 0} → ℕ → M A
fail code w = (err code, w)

infixl 5 ◌>>=◌ ◌>>◌
abbrev pub ◌>>=◌ : {A B : Type 0} → M A → (A → M B) → M B
◌>>=◌ m f w = let (r, w') = m w in elim r [ ok a ↦ f a w' | err e ↦ (err e, w') ]

abbrev pub ◌>>◌ : {B : Type 0} → M (Unit {0}) → M B → M B
m >> k = m >>= λ _. k

-- `_FreeStack_ += …`.
abbrev pub defer : Resource → M (Unit {0})
defer r w = (ok tt, record w { stack = r ∷ w.stack })

abbrev pub object : What → ℕ → Resource
object what h = record { what = what; owner = h; other = 0 }

module _ (library : Library) where
  -- A constructor: it gives a handle, and is not tested.
  abbrev pub make : What → M ℕ
  make what w =
      let h = library.handle w.log what in
      (ok h, record w { log = took (object what h) true ∷ w.log })

  -- A call that takes something and can fail.
  abbrev pub take_it : Resource → M (Unit {0})
  take_it r w =
      let code = library.takes w.log r in
      let w' = record w { log = took r (code == 0) ∷ w.log } in
      (if code == 0 then ok tt else err code, w')

  -- A query that can fail, and gives a handle.
  abbrev pub ask : Ask → What → M ℕ
  ask q what w =
      let code = library.asks w.log q in
      let h = library.handle w.log what in
      (if code == 0 then ok h else err code, record w { log = asked q code ∷ w.log })

-- `free_stack_t::flush`: the cleanup on top is run, then removed, until none is left.
unfoldable pub flush_stack : List Resource → List Entry → List Entry
flush_stack [] log = log
flush_stack (r ∷ rs) log = flush_stack rs (gave r ∷ log)

unfoldable pub flush : World → World
unfolding flush_stack
flush w = record { log = flush_stack w.stack w.log; stack = [] }
