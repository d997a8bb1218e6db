-- ===== src/Button.antt =====
-- tools/sc6f0_button.c, include/sc6f0_button.h, tools/sc6f0_button_demo.c: the buttons of the board.
-- What the kernel gives is an argument: the result of `poll`, and the reads that are pending.
pub mod Events
pub mod States
pub mod Device
pub mod Monitor
pub mod Demo
mod Tests
use qcap_demos.Prelude.{
  ℕ, ◌+◌, ◌-◌, ◌*◌, ◌%◌, ◌^◌, Bool, true, false, ◌&&◌, List, [], ◌∷◌, Option, none, some, ◌==◌, ltb,
  leb, if◌then◌else◌, ℤ, pos, negsuc, add64,
}

-- `sw0` to `sw4`, and `unknown`.
unfoldable pub button_name : ℤ → List ℕ
button_name (negsuc n) = 117 ∷ 110 ∷ 107 ∷ 110 ∷ 111 ∷ 119 ∷ 110 ∷ []
button_name (pos n) =
    if ltb n 5 then 115 ∷ 119 ∷ (48 + n) ∷ [] else 117 ∷ 110 ∷ 107 ∷ 110 ∷ 111 ∷ 119 ∷ 110 ∷ []

-- `none` is SC6F0_BTN_UNKNOWN, -1.
unfoldable pub code_to_id : ℕ → Option ℕ
code_to_id code =
    if code == 256
    then some 0
    else (if code == 257
        then some 1
        else (if code == 258
            then some 2
            else (if code == 259 then some 3 else (if code == 260 then some 4 else none))))

-- `struct input_event`; the value is a 32-bit pattern, 0 for a release, 1 for a press, 2 for a repeat.
pub record InputEvent : Type 0 where
  pub type : ℕ
  pub code : ℕ
  pub value : ℕ
  pub sec : ℕ
  pub usec : ℕ

pub record ButtonEvent : Type 0 where
  pub id : ℕ
  pub name : List ℕ
  pub linux_code : ℕ
  pub action : ℕ
  pub timestamp_us : ℕ

-- A read that is pending: an event, an error other than EAGAIN, or fewer bytes than an event has.
pub data Read : Type 0 where
  got : InputEvent → Read
  read_failed : ℕ → Read
  short : Read

pub data Poll : Type 0 where
  ready timed_out : Poll
  poll_failed : ℕ → Poll

-- 1 with an event, 0, or a negative errno (here without its sign).
pub data Answer : Type 0 where
  event : ButtonEvent → Answer
  no_event : Answer
  error : ℕ → Answer

unfoldable pub describe : InputEvent → ℕ → ButtonEvent
unfolding button_name
describe ev id = record {
  id = id;
  name = button_name (pos id);
  linux_code = ev.code;
  action = ev.value;
  timestamp_us = add64 (ev.sec * 1000000 % 2 ^ 64) ev.usec;
}

-- The button of an event, if it is one of a button (EV_KEY is 1).
unfoldable pub button_of : InputEvent → Option ℕ
button_of ev = if ev.type == 1 then code_to_id ev.code else none

-- The loop over the pending reads; when none is left, `read` gives EAGAIN. EIO is 5.
unfoldable pub read_loop : List Read → Answer × List Read
read_loop [] = (no_event, [])
read_loop (read_failed e ∷ rest) = (error e, rest)
read_loop (short ∷ rest) = (error 5, rest)
read_loop (got ev ∷ rest) =
    let later = read_loop rest in
    elim (button_of ev) [ some id ↦ (event (describe ev id), rest) | none ↦ later ]

-- `sc6f0_button_read_event` on a descriptor that is open or not; EINVAL is 22.
unfoldable pub read_event : Bool → Poll → List Read → Answer × List Read
read_event false poll pending = (error 22, pending)
read_event true (poll_failed e) pending = (error e, pending)
read_event true timed_out pending = (no_event, pending)
read_event true ready pending = read_loop pending
