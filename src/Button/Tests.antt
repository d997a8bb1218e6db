-- ===== src/Button/Tests.antt =====
-- Runs of the button library and its demonstration, and the theorems at them.
use qcap_demos.Prelude.{
  ℕ, ◌≡◌, refl, true, false, List, [], ◌∷◌, ◌++◌, none, some, pos, negsuc, arith,
}
use qcap_demos.Button.{
  ready, read_event, InputEvent, ButtonEvent, got, no_event, button_name, code_to_id, button_of,
  read_loop, error, short,
}
use qcap_demos.Button.Device.{
  descriptor, open_failed, button_open, button_close, auto_detect_device, detect_from, is_buttons,
}
use qcap_demos.Button.Events.{all_got, buttons, read_all, read_all_lem}
use qcap_demos.Button.Demo.{waiting, watch_loop, new_watch, main, finish, show_states, state_lines}
use qcap_demos.Button.Demo.Batches.{
  Batch, rounds_of, events_of, quiet, print_all, emptied, watch_loop-batches,
}
use qcap_demos.Button.States.{get_states, keys, mask, mask_from}

-- A press of sw1, a synchronisation event, and a key that is no button.
abbrev three : List InputEvent
three =
    record { type = 1; code = 257; value = 1; sec = 2; usec = 5 }
    ∷ record { type = 0; code = 0; value = 0; sec = 2; usec = 5 }
    ∷ record { type = 1; code = 30; value = 1; sec = 2; usec = 9 }
    ∷ []

read_all_lem_example : read_all 4 (all_got three) ≡ buttons three
read_all_lem_example = read_all_lem three 4 (omega arith)

-- What is pending but concerns no button is answered as a timeout is.
no_button :
    (read_loop (got (record { type = 0; code = 0; value = 0; sec = 2; usec = 5 }) ∷ [])
      ≡ (no_event, []))
    × (read_loop (short ∷ []) ≡ (error 5, []))
unfolding read_loop button_of code_to_id
no_button = (refl, refl)

names : (button_name (pos 3) ≡ 115 ∷ 119 ∷ 51 ∷ []) × (button_name (negsuc 0) ≡ button_name (pos 5))
unfolding button_name
names = (refl, refl)

abbrev at : ℕ → ℕ → ButtonEvent
at action t = record { id = 1; name = []; linux_code = 257; action = action; timestamp_us = t }

two_down :
    get_states true (
      keys (
        0 ∷ 0 ∷ 0 ∷ 0 ∷ 0 ∷ 0 ∷ 0 ∷ 0 ∷ 0 ∷ 0 ∷ 0 ∷ 0 ∷ 0 ∷ 0 ∷ 0 ∷ 0 ∷ 0 ∷ 0 ∷ 0 ∷ 0 ∷ 0 ∷ 0 ∷ 0
        ∷ 0 ∷ 0 ∷ 0 ∷ 0 ∷ 0 ∷ 0 ∷ 0 ∷ 0 ∷ 0 ∷ 36 ∷ []))
    ≡ mask 4
unfolding get_states mask_from
two_down = refl

nothing_found :
    button_open
      (λ path. descriptor 3)
      none
      (some (record { d_name = 109 ∷ []; device_name = none } ∷ []))
      false
    ≡ open_failed 2
unfolding button_open auto_detect_device detect_from is_buttons
nothing_found = refl

-- Three events in two batches, of which the second comes while `poll` times out.
abbrev split : List Batch
split =
    (true, record { type = 1; code = 257; value = 1; sec = 2; usec = 5 } ∷ [])
    ∷ (
      false,
      record { type = 0; code = 0; value = 0; sec = 2; usec = 5 }
          ∷ record { type = 1; code = 257; value = 0; sec = 2; usec = 9005 }
          ∷ [],
    )
    ∷ []

watch_loop-batches_example :
    watch_loop (rounds_of (split ++ quiet 3)) new_watch
    ≡ (waiting, emptied (print_all (buttons (events_of split)) new_watch))
watch_loop-batches_example = watch_loop-batches split 3 new_watch refl (omega arith)

-- The descriptor is closed when a signal has come.
closed_at_end :
    (main
      (λ path. descriptor 3)
      (some (47 ∷ []))
      none
      false
      (keys [])
      (record { is_running = false; poll = ready; arrived = [] } ∷ [])).closed
    ≡ some 3
unfolding main button_open get_states mask_from show_states state_lines watch_loop finish
    button_close read_event read_loop
closed_at_end = refl
