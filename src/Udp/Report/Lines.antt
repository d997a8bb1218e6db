-- ===== src/Udp/Report/Lines.antt =====
-- tools/udptest.c: the lines change no count, and there is at most one in a second.
use qcap_demos.Prelude.{ℕ, ◌+◌, ◌≤◌, ◌≡◌, List, [], ◌∷◌, length, if◌then◌else◌}
use qcap_demos.Ticks.Stats.{Arithmetic}
use qcap_demos.Udp.Receive.{Receiver, Round}
use qcap_demos.Udp.Report.{RxEnd, Timed, RxState, is_over}

module _ {F : Type 0} where
  -- From `st`, the loop ended with the counts `r`, and with no more lines than seconds.
  abbrev pub Fine : RxState F → RxEnd × RxState F → Receiver → Type 0
  Fine st end r =
      (end.1.receiver ≡ r)
      × (length end.1.printed + st.last_print ≤ length st.printed + end.1.last_print)

module _ {F : Type 0} (real : Arithmetic F) (to_u32 : F → ℕ) (start deadline : F) where
  -- The rounds before the time is up, without the clock.
  abbrev pub before : List (Timed F) → List Round
  before [] = []
  before (t ∷ rest) =
      let later = before rest in if is_over real to_u32 start deadline t then [] else t.what ∷ later

  -- The clock does not go back between its first two readings at the end of a round.
  abbrev pub Steady : List (Timed F) → Type 0
  Steady [] = Unit {0}
  Steady (t ∷ rest) = (to_u32 t.seen ≤ to_u32 t.noted) × Steady rest
