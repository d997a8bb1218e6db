-- ===== src/Apps/Tests.antt =====
-- Runs of the two programs with a menu, and the theorems at them.
use qcap_demos.Prelude.{◌≡◌, refl, true, List, [], ◌∷◌, none, some, pos, length}
use qcap_demos.Kit.{Library, flush_stack}
use qcap_demos.Kit.Handlers.{start_event_handlers, add_timer_handler}
use qcap_demos.Kit.Monitor.{owed}
use qcap_demos.Apps.Menu.{Input, ended, key, handle_key, menu_loop, run}
use qcap_demos.Apps.Menu.Ends.{any_last, digits, run_cases, menu_loop_lem}
use qcap_demos.Apps.Box.{do_work, on_exit, on_start, start_timer, new_stats}
use qcap_demos.Apps.Box.Rates.{AvgTicks}
use qcap_demos.Apps.Box.Returns.{empty_box, do_work_returns_all}
use qcap_demos.Apps.Qdemo.{main, do_case}

abbrev typed_keys : List Input
typed_keys = key 49 ∷ ended ∷ key 120 ∷ key 55 ∷ key 113 ∷ key 50 ∷ []

menu_loop_lem_example :
    menu_loop (λ t ts. t ∷ ts) typed_keys []
    ≡ (run_cases (λ t ts. t ∷ ts) (digits typed_keys) [], any_last typed_keys)
menu_loop_lem_example = menu_loop_lem (λ t ts. t ∷ ts) typed_keys []

cases_run : menu_loop (λ t ts. t ∷ ts) typed_keys [] ≡ (pos 7 ∷ pos 1 ∷ [], true)
unfolding menu_loop handle_key
cases_run = refl

-- Nothing fails, and a library whose `invoke` fails.
abbrev good : Library
good = record { takes = λ log r. 0; asks = λ log q. 0; handle = λ log what. length log }

abbrev deaf : Library
deaf = record { takes = λ log r. 0; asks = λ log q. 5; handle = λ log what. length log }

do_work_returns_all_example : owed (do_work good empty_box).log ≡ some []
unfolding do_work on_exit start_event_handlers
do_work_returns_all_example = do_work_returns_all good refl

calls_made : (length (do_work good empty_box).log ≡ 27) × (length (do_work deaf empty_box).log ≡ 6)
unfolding do_work on_exit on_start start_timer new_stats start_event_handlers add_timer_handler
    flush_stack
calls_made = (refl, refl)

abbrev fresh : AvgTicks
fresh = record { last_ts = 0; ticks = pos 0 }

device_calls :
    (main (λ old. some 7) (pos 1) [] (record { calls = []; device = none })).0.device ≡ none
unfolding main do_case run
device_calls = refl
