-- ===== src/Apps/Box.antt =====
-- src/utils/sc6f0-dante-box.cpp: the program that prints the rates of the tick counters.
pub mod Returns
pub mod Rates
use qcap_demos.Prelude.{
  ℕ, zero, suc, ◌+◌, Bool, true, false, List, [], ◌∷◌, ◌==◌, if◌then◌else◌, ℤ, pos, eqb_ℤ,
}
use qcap_demos.Kit.{
  Resource, user_mm, array, timer, timer_running, invoke, Entry, asked, World, Library, Result, ok,
  err, M, pure, ◌>>=◌, ◌>>◌, defer, object, make, take_it, flush_stack,
}
use qcap_demos.Kit.Handlers.{start_event_handlers, add_timer_handler}
use qcap_demos.Apps.Menu.{Input, run}

-- The calls, and the two stacks of cleanups of a test case.
pub record Box : Type 0 where
  pub log : List Entry
  pub main : List Resource
  pub evt : List Resource

abbrev pub on_main : {A : Type 0} → M A → Box → Result A × Box
on_main m b =
    let (r, w) = m (record { log = b.log; stack = b.main }) in
    (r, record { log = w.log; main = w.stack; evt = b.evt })

abbrev pub on_evt : {A : Type 0} → M A → Box → Result A × Box
on_evt m b =
    let (r, w) = m (record { log = b.log; stack = b.evt }) in
    (r, record { log = w.log; main = b.main; evt = w.stack })

module _ (library : Library) where
  -- The statistics of the counters, one block each.
  unfoldable pub new_stats : ℕ → M (Unit {0})
  new_stats zero = pure tt
  new_stats (suc n) = do stats ← make library array; defer (object array stats); new_stats n

  unfoldable pub start_timer : ℕ → M (Unit {0})
  start_timer handlers = do
    all_stats ← make library array
    defer (object array all_stats)
    new_stats 4
    t ← make library timer
    defer (object timer t)
    take_it library (object timer_running t)
    defer (object timer_running t)
    add_timer_handler library handlers

  unfoldable pub on_start : ℕ → M (Unit {0})
  on_start handlers = do
    env ← make library user_mm
    defer (object user_mm env)
    start_timer handlers

  -- `ExecInEventHandlers`: the library runs `f` on its thread, or nothing if it refuses to. The
  -- result of a start that failed, which `f` leaves behind, only keeps the wait from being begun.
  abbrev pub in_handlers : (Box → Box) → Box → Box
  in_handlers f b =
      let code = library.asks b.log invoke in
      let b' : Box = record b { log = asked invoke code ∷ b.log } in if code == 0 then f b' else b'

  -- `TestCase::OnExitEventHandlers`.
  unfoldable pub on_exit : Box → Box
  on_exit b = in_handlers (λ b. record b { log = flush_stack b.evt b.log; evt = [] }) b

  abbrev pub flush_main : Box → Box
  flush_main b = record b { log = flush_stack b.main b.log; main = [] }

  -- `TestCase1::DoWork`; the wait for the end of the test, which follows a start without an error,
  -- takes nothing and gives nothing back.
  unfoldable pub do_work : Box → Box
  do_work b =
      let (r, b') = on_main (start_event_handlers library) b in
      elim r [
        | ok handlers ↦
            flush_main (on_exit (in_handlers (λ b. (on_evt (on_start handlers) b).1) b'))
        | err code ↦ flush_main b'
      ]

  unfoldable pub do_case : ℤ → Box → Box
  do_case t b = if eqb_ℤ t (pos 1) then do_work b else b

  -- `App0::Run`.
  unfoldable pub main : ℤ → List Input → Box → Box × Bool
  unfolding do_case
  main test_case inputs b = run do_case test_case inputs b
