-- ===== src/Apps/Box/Returns.antt =====
-- src/utils/sc6f0-dante-box.cpp: the two stacks of a test case give back what was taken.
use qcap_demos.Prelude.{
  ℕ, zero, suc, ◌≡◌, refl, sym, ap, ◌∙◌, append-nil, true, false, List, [], ◌∷◌, ◌++◌, some, ◌==◌,
  if◌then◌else◌, arith,
}
use qcap_demos.Kit.{
  Entry, array, timer, timer_running, user_mm, invoke, asked, Library, Result, ok, err, M, ◌>>=◌,
  ◌>>◌, defer, object, make, take_it, flush_stack,
}
use qcap_demos.Kit.Handlers.{start_event_handlers, add_timer_handler}
use qcap_demos.Kit.Monitor.{owed, flush_stack-owed}
use qcap_demos.Kit.Session.{
  Keeps, bind-Keeps, make-Keeps, take-Keeps, start_event_handlers-Keeps, add_timer_handler-Keeps,
}
use qcap_demos.Apps.Box.{
  Box, on_main, on_evt, in_handlers, flush_main, new_stats, start_timer, on_start, on_exit, do_work,
}

-- Before a test case has run.
abbrev pub empty_box : Box
empty_box = record { log = []; main = []; evt = [] }

module _ (library : Library) where
  new_stats-Keeps : (n : ℕ) → Keeps (new_stats library n)
  unfolding new_stats
  new_stats-Keeps zero base w h = h
  new_stats-Keeps (suc n) base w h =
      new_stats-Keeps n base ((make library array >>= λ s. defer (object array s)) w).1
        (ground arith)

  abbrev start_and_handle : ℕ → ℕ → M (Unit {0})
  start_and_handle handlers t = do
    take_it library (object timer_running t)
    defer (object timer_running t)
    add_timer_handler library handlers

  timer_part : ℕ → M (Unit {0})
  timer_part handlers = do
    t ← make library timer
    defer (object timer t)
    start_and_handle handlers t

  timer_part-Keeps : (handlers : ℕ) → Keeps (timer_part handlers)
  unfolding timer_part
  timer_part-Keeps handlers = make-Keeps library timer (start_and_handle handlers) λ t.
      take-Keeps library (object timer_running t) (add_timer_handler library handlers)
        (add_timer_handler-Keeps library handlers)

  start_timer-Keeps : (handlers : ℕ) → Keeps (start_timer library handlers)
  unfolding start_timer timer_part
  start_timer-Keeps handlers =
      make-Keeps library array (λ n. new_stats library 4 >> timer_part handlers)
        λ all_stats.
          bind-Keeps (new_stats library 4) (λ _. timer_part handlers) (new_stats-Keeps 4)
            λ _. timer_part-Keeps handlers

  on_start-Keeps : (handlers : ℕ) → Keeps (on_start library handlers)
  unfolding on_start
  on_start-Keeps handlers =
      make-Keeps library user_mm (λ env. start_timer library handlers)
        λ env. start_timer-Keeps handlers

  -- What the two stacks hold is what the calls owe.
  abbrev pub IsBoxKept : Box → Type 0
  IsBoxKept b = owed b.log ≡ some (b.evt ++ b.main)

  in_handlers-IsBoxKept :
      (f : Box → Box)
      → ((b : Box) → IsBoxKept b → IsBoxKept (f b))
      → (b : Box) → IsBoxKept b
      → IsBoxKept (in_handlers library f b)
  in_handlers-IsBoxKept f kf b h =
      let b' : Box = record b { log = asked invoke (library.asks b.log invoke) ∷ b.log } in
      elim (library.asks b.log invoke == 0) as (λ c. IsBoxKept (if c then f b' else b')) [
        | true ↦ kf b' h
        | false ↦ h
      ]

  on_exit-IsBoxKept : (b : Box) → IsBoxKept b → IsBoxKept (on_exit library b)
  unfolding on_exit
  on_exit-IsBoxKept =
      in_handlers-IsBoxKept (λ b. record b { log = flush_stack b.evt b.log; evt = [] })
        λ b h. flush_stack-owed b.evt b.main b.log h

  started-IsBoxKept :
      (handlers : ℕ) (b : Box)
      → IsBoxKept b
      → IsBoxKept (in_handlers library (λ b. (on_evt (on_start library handlers) b).1) b)
  started-IsBoxKept handlers =
      in_handlers-IsBoxKept (λ b. (on_evt (on_start library handlers) b).1)
        λ b h. on_start-Keeps handlers b.main (record { log = b.log; stack = b.evt }) h

  flush_main-owed : (b : Box) → IsBoxKept b → b.evt ≡ [] → owed (flush_main library b).log ≡ some []
  flush_main-owed b h he =
      flush_stack-owed b.main [] b.log
        (h ∙ ap (λ rs. some (rs ++ b.main)) he ∙ ap some (sym (append-nil b.main)))

  abbrev rest_of_work : Result ℕ → Box → Box
  rest_of_work r b = elim r [
    | ok handlers ↦
        flush_main library
          (on_exit library (in_handlers library (λ b. (on_evt (on_start library handlers) b).1) b))
    | err code ↦ flush_main library b
  ]

  rest_of_work-owed :
      (r : Result ℕ) (b : Box)
      → IsBoxKept b
      → (rest_of_work r b).evt ≡ []
      → owed (rest_of_work r b).log ≡ some []
  rest_of_work-owed (ok handlers) b h he =
      let w = in_handlers library (λ b. (on_evt (on_start library handlers) b).1) b in
      flush_main-owed (on_exit library w) (on_exit-IsBoxKept w (started-IsBoxKept handlers b h)) he
  rest_of_work-owed (err code) b h he = flush_main-owed b h he

  -- Whatever the library answers at each call: if a run of the test case leaves no cleanup of the event
  -- handlers behind, then everything that was taken has been given back exactly once, the last first,
  -- across both stacks.
  pub do_work_returns_all :
      (do_work library empty_box).evt ≡ [] → owed (do_work library empty_box).log ≡ some []
  unfolding do_work
  do_work_returns_all he =
      let started = on_main (start_event_handlers library) empty_box in
      rest_of_work-owed started.0 started.1
        (start_event_handlers-Keeps library [] (record { log = []; stack = [] }) refl
          ∙ ap some (append-nil started.1.main))
        he

  rest_of_work-evt :
      (r : Result ℕ) (b : Box)
      → ((log : List Entry) → library.asks log invoke ≡ 0)
      → b.evt ≡ []
      → (rest_of_work r b).evt ≡ []
  unfolding on_exit
  rest_of_work-evt (ok handlers) b accepts h =
      let w = in_handlers library (λ b. (on_evt (on_start library handlers) b).1) b in
      rw (accepts w.log) refl
  rest_of_work-evt (err code) b accepts h = h

  -- A run leaves no cleanup of the event handlers behind if no `invoke` fails.
  do_work-evt :
      ((log : List Entry) → library.asks log invoke ≡ 0) → (do_work library empty_box).evt ≡ []
  unfolding do_work
  do_work-evt accepts =
      let started = on_main (start_event_handlers library) empty_box in
      rest_of_work-evt started.0 started.1 accepts refl
