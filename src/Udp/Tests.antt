-- ===== src/Udp/Tests.antt =====
-- Runs of the UDP test, and the theorems at them.
use qcap_demos.Prelude.{
  ℕ, ◌-◌, ltb, ◌+◌, ◌≡◌, refl, Bool, true, false, List, [], ◌∷◌, none, some, pos, arith,
}
use qcap_demos.Udp.{port_of, size_of, seconds_of}
use qcap_demos.Udp.Packet.{seq_of}
use qcap_demos.Udp.Send.{SendRound, opened, run_tx}
use qcap_demos.Udp.Receive.{
  nothing, datagram, new_receiver, count_delta, note_packet, receive_all, run_rx,
}
use qcap_demos.Ticks.Stats.{Arithmetic}
use qcap_demos.Udp.Report.{Timed}
use qcap_demos.Udp.Link.{deliver, arrivals, span, link_loss}

abbrev five : List SendRound
five =
    record { tnow = 1; returned = 64 }
    ∷ record { tnow = 2; returned = 64 }
    ∷ record { tnow = 3; returned = 0 }
    ∷ record { tnow = 4; returned = 64 }
    ∷ record { tnow = 5; returned = 64 }
    ∷ []

-- The first and the fourth packet are lost.
abbrev lossy : List Bool
lossy = false ∷ true ∷ true ∷ false ∷ true ∷ []

link_loss_example :
    let sent = (run_tx opened 64 1000 0 five).1 in
    let seen = (run_rx true (deliver lossy sent)).1 in
    (seen.received ≡ arrivals lossy sent)
    × (seen.received + seen.lost ≡ span lossy sent)
    × (seen.dup ≡ 0)
    × (seen.late ≡ 0)
link_loss_example = link_loss 64 1000 (omega arith) (omega arith) five lossy 0 (omega arith)

abbrev twelve : ℕ → List ℕ
twelve b = b ∷ 0 ∷ 0 ∷ 0 ∷ 0 ∷ 0 ∷ 0 ∷ 0 ∷ 0 ∷ 0 ∷ 0 ∷ 0 ∷ []

-- The packet 5 comes after the packet 7.
late_is_lost :
    (run_rx true (datagram (twelve 7) ∷ nothing ∷ datagram (twelve 5) ∷ [])).1.lost ≡ 4294967293
unfolding run_rx receive_all note_packet count_delta new_receiver seq_of
late_is_lost = refl

arguments :
    (port_of (λ s. (pos 65536, [])) [] ≡ none)
    × (size_of (λ s. (pos 12, [])) [] ≡ some 12)
    × (seconds_of (λ s. (pos 4294967296, [])) [] ≡ some (pos 0))
unfolding port_of size_of seconds_of
arguments = (refl, refl, refl)

-- Whole seconds in place of floating point.
abbrev seconds : Arithmetic ℕ
seconds = record {
  of_nat = λ n. n;
  plus = λ a b. a + b;
  minus = λ a b. a - b;
  times = λ a b. a;
  over = λ a b. a;
  root = λ a. a;
  is_less = ltb;
  infinity = 0;
  minus_infinity = 0;
}

abbrev packet_at : ℕ → ℕ → Timed ℕ
packet_at t seq = record { now = t; what = datagram (twelve seq); seen = t; noted = t; shown = t }

-- The last packet comes when the time is up.
abbrev four_packets : List (Timed ℕ)
four_packets = packet_at 10 1 ∷ packet_at 11 2 ∷ packet_at 11 4 ∷ packet_at 20 5 ∷ []
