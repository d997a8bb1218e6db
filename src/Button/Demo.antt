-- ===== src/Button/Demo.antt =====
-- tools/sc6f0_button_demo.c: the whole of `main`. A round of the loop has whether a signal has come before it,
-- what `poll` answers, and the reads that have become pending until then.
pub mod Batches
use qcap_demos.Prelude.{
  ℕ, zero, suc, ◌+◌, ◌/◌, ◌%◌, ◌^◌, Bool, true, false, List, [], ◌∷◌, ◌++◌, map, Option, none, some,
  pos, ◌==◌, if◌then◌else◌, ℤ,
}
use qcap_demos.Button.{
  button_name, ButtonEvent, Read, Poll, Answer, event, no_event, error, read_event,
}
use qcap_demos.Button.Device.{Entry, Opened, descriptor, open_failed, button_open, button_close}
use qcap_demos.Button.States.{Ioctl, States, mask, failed, get_states}
use qcap_demos.Button.Monitor.{Line, handle}

-- `  sw0 (BTN_0): PRESSED` or `RELEASED`.
pub record StateLine : Type 0 where
  pub name : List ℕ
  pub id : ℕ
  pub is_pressed : Bool

-- A line of the loop: the seconds, for `localtime_r`, the milliseconds, the button, and what it did.
pub record Stamped : Type 0 where
  pub sec : ℕ
  pub ms : ℕ
  pub name : List ℕ
  pub linux_code : ℕ
  pub line : Line

pub record Round : Type 0 where
  pub is_running : Bool
  pub poll : Poll
  pub arrived : List Read

-- The loop is still running, was told to stop, or met an error.
pub data End : Type 0 where
  waiting stopped : End
  read_error : ℕ → End

pub record Watch : Type 0 where
  pub pending : List Read
  pub press_times : List ℕ
  pub printed : List Stamped

-- What a run of the program did: what it printed first and then, the descriptor that it closed, and what it
-- returns when it does.
pub record Run : Type 0 where
  pub states : List StateLine
  pub watch : Watch
  pub closed : Option ℕ
  pub code : Option ℕ

unfoldable pub state_lines : ℕ → ℕ → ℕ → List StateLine
state_lines states i zero = []
state_lines states i (suc n) =
    record { name = button_name (pos i); id = i; is_pressed = states / 2 ^ i % 2 == 1 }
    ∷ state_lines states (suc i) n

unfoldable pub show_states : States → List StateLine
show_states (failed e) = []
show_states (mask states) = state_lines states 0 5

abbrev pub stamp : ButtonEvent → Line → Stamped
stamp ev line = record {
  sec = ev.timestamp_us / 1000000;
  ms = ev.timestamp_us % 1000000 / 1000;
  name = ev.name;
  linux_code = ev.linux_code;
  line = line;
}

-- The lines for an event, in the watch.
unfoldable pub print_event : ButtonEvent → Watch → Watch
print_event ev w =
    let (lines, times) = handle ev w.press_times in
    record w { press_times = times; printed = w.printed ++ map (stamp ev) lines }

unfoldable pub watch_loop : List Round → Watch → End × Watch
watch_loop [] w = (waiting, w)
watch_loop (r ∷ rest) w =
    let (answer, pending) = read_event true r.poll (w.pending ++ r.arrived) in
    let w' : Watch = record w { pending = pending } in
    let skipped = watch_loop rest w' in
    let halted : End × Watch = (stopped, w) in
    if r.is_running
    then elim answer [
      | error e ↦ (read_error e, w')
      | no_event ↦ skipped
      | event ev ↦ watch_loop rest (print_event ev w')
    ]
    else halted

-- After the loop: the descriptor is closed, whatever ended it.
unfoldable pub finish : ℕ → List StateLine → End × Watch → Run
finish fd lines (waiting, w) = record { states = lines; watch = w; closed = none; code = none }
finish fd lines (stopped, w) = record {
  states = lines;
  watch = w;
  closed = button_close (pos fd);
  code = some 0;
}
finish fd lines (read_error e, w) = record {
  states = lines;
  watch = w;
  closed = button_close (pos fd);
  code = some 0;
}

abbrev pub new_watch : Watch
new_watch = record { pending = []; press_times = 0 ∷ 0 ∷ 0 ∷ 0 ∷ 0 ∷ []; printed = [] }

-- The argument of the program, if it has one; what `open`, the directory and `ioctl` give; and the rounds.
unfoldable pub main :
    (List ℕ → Opened) → Option (List ℕ) → Option (List Entry) → Bool → Ioctl → List Round → Run
main open_path dev listing event0 answer rounds = elim (button_open open_path dev listing event0) [
  | open_failed e ↦ record { states = []; watch = new_watch; closed = none; code = some 1 }
  | descriptor fd ↦ finish fd (show_states (get_states true answer)) (watch_loop rounds new_watch)
]
