-- ===== src/Button/Events.antt =====
-- tools/sc6f0_button.c: no event of a button is lost, and none is made up.
use qcap_demos.Prelude.{
  ℕ, zero, suc, ◌<◌, ◌≡◌, refl, true, List, [], ◌∷◌, length, none, some, arith,
}
use qcap_demos.Button.{
  InputEvent, ButtonEvent, Read, got, ready, event, no_event, error, describe, button_of, read_loop,
  read_event,
}

abbrev pub all_got : List InputEvent → List Read
all_got [] = []
all_got (ev ∷ evs) = got ev ∷ all_got evs

-- The events of buttons among the events of the device, in order.
abbrev pub buttons : List InputEvent → List ButtonEvent
buttons [] = []
buttons (ev ∷ evs) =
    let later = buttons evs in
    elim (button_of ev) [ some id ↦ describe ev id ∷ later | none ↦ later ]

-- The events that calls of `read_event` return, one after the other, until a call returns none.
unfoldable pub read_all : ℕ → List Read → List ButtonEvent
read_all zero pending = []
read_all (suc fuel) pending =
    let (answer, rest) = read_event true ready pending in
    let later = read_all fuel rest in
    elim answer [ event e ↦ e ∷ later | no_event ↦ [] | error e ↦ [] ]

-- On a device whose pending reads are events, calls of `read_event` return the events of the five buttons, all of
-- them and in order; one call more than there are events is enough.
pub read_all_lem :
    (evs : List InputEvent) (fuel : ℕ)
    → length evs < fuel
    → read_all fuel (all_got evs) ≡ buttons evs
unfolding read_all read_event read_loop
read_all_lem [] (suc fuel) h = refl
read_all_lem [] zero h = absurd (omega arith)
read_all_lem (ev ∷ evs) zero h = absurd (omega arith)
read_all_lem (ev ∷ evs) (suc fuel) h =
    let skipped = read_all_lem evs (suc fuel) (omega arith) in
    let taken = read_all_lem evs fuel (omega arith) in ground arith
