-- ===== src/Udp/Report.antt =====
-- tools/udptest.c: `run_rx` with its clock: when it ends, the line that it prints once in a second, and the summary;
-- and the summary of `run_tx`. Floating-point operations, and the cast of a time to uint32_t, are arguments.
pub mod Lines
use qcap_demos.Prelude.{
  ℕ, ◌+◌, Bool, true, false, List, [], ◌∷◌, ◌++◌, Option, none, some, length, ltb, if◌then◌else◌,
}
use qcap_demos.Ticks.Stats.{Arithmetic}
use qcap_demos.Udp.Packet.{seq_of}
use qcap_demos.Udp.Send.{Sender}
use qcap_demos.Udp.Receive.{
  Receiver, new_receiver, note_packet, Round, nothing, interrupted, failed, datagram,
}

-- A round: `now_sec()` at its start, what `poll` and `recvfrom` gave, and the three calls of `now_sec()` at its end.
pub record Timed (F : Type 0) : Type 0 where
  pub now : F
  pub what : Round
  pub seen : F
  pub noted : F
  pub shown : F

pub record Progress (F : Type 0) : Type 0 where
  pub el : F
  pub received : ℕ
  pub pps : F
  pub mbps : F
  pub lost : ℕ
  pub dup : ℕ
  pub late : ℕ
  pub max_gap : ℕ

pub record RxState (F : Type 0) : Type 0 where
  pub receiver : Receiver
  pub last_print : ℕ
  pub printed : List (Progress F)

-- The loop still waits, the time is up, or `recvfrom` failed.
pub data RxEnd : Type 0 where
  waiting time_up broken : RxEnd

pub record RxSummary (F : Type 0) : Type 0 where
  pub received : ℕ
  pub lost : ℕ
  pub loss_pct : F
  pub mbps : F
  pub megabytes : F
  pub elapsed : F

pub record TxSummary (F : Type 0) : Type 0 where
  pub sent : ℕ
  pub elapsed : F
  pub pps : F
  pub megabytes : F
  pub mbps : F
  pub send_errors : ℕ

module _ {F : Type 0} (real : Arithmetic F) (to_u32 : F → ℕ) (start : F) where
  abbrev mega : F → F
  mega x = real.times x (real.of_nat 1000000)

  abbrev mebi : F → F
  mebi x = real.over x (real.of_nat 1048576)

  unfoldable pub progress : F → Receiver → Progress F
  progress now r =
      let el = real.minus now start in
      record {
        el = el;
        received = r.received;
        pps = real.over (real.of_nat r.received) el;
        mbps = real.over (real.times (real.of_nat r.bytes) (real.of_nat 8)) (mega el);
        lost = r.lost;
        dup = r.dup;
        late = r.late;
        max_gap = r.max_gap;
      }

  -- A datagram of at least 12 bytes was counted: the line, if a new second has begun.
  unfoldable pub print_progress : Timed F → RxState F → RxState F
  print_progress t st =
      if ltb st.last_print (to_u32 t.seen)
      then record st {
        last_print = to_u32 t.noted;
        printed = st.printed ++ (progress t.shown st.receiver ∷ []);
      }
      else st

  unfoldable pub take_datagram : List ℕ → Timed F → RxState F → RxState F
  take_datagram d t st =
      let counted : RxState F = record st {
        receiver = note_packet (length d) (seq_of d) st.receiver;
      } in
      if ltb (length d) 12 then st else print_progress t counted

  -- `remaining <= 0` is `deadline - now_sec()` against 0.
  unfoldable pub is_over : F → Timed F → Bool
  is_over deadline t =
      if real.is_less (real.of_nat 0) (real.minus deadline t.now) then false else true

  unfoldable pub rx_loop : F → List (Timed F) → RxState F → RxEnd × RxState F
  rx_loop deadline [] st = (waiting, st)
  rx_loop deadline (t ∷ rest) st =
      let skipped = rx_loop deadline rest st in
      let ended : RxEnd × RxState F = (time_up, st) in
      let unread : RxEnd × RxState F = (broken, st) in
      if is_over deadline t then ended else elim t.what [
        | nothing ↦ skipped
        | interrupted ↦ skipped
        | failed ↦ unread
        | datagram d ↦ rx_loop deadline rest (take_datagram d t st)
      ]

  unfoldable pub rx_begin : RxState F
  rx_begin = record { receiver = new_receiver; last_print = to_u32 start; printed = [] }

  unfoldable pub rx_summary : F → Receiver → RxSummary F
  rx_summary now r =
      let elapsed = real.minus now start in
      record {
        received = r.received;
        lost = r.lost;
        loss_pct =
            if ltb 0 (r.received + r.lost)
            then real.over (real.times (real.of_nat 100) (real.of_nat r.lost))
                (real.of_nat (r.received + r.lost))
            else real.of_nat 0;
        mbps = real.over (real.times (real.of_nat r.bytes) (real.of_nat 8)) (mega elapsed);
        megabytes = mebi (real.of_nat r.bytes);
        elapsed = elapsed;
      }

  unfoldable pub tx_summary : F → ℕ → Sender → TxSummary F
  tx_summary now size s =
      let elapsed = real.minus now start in
      let amount = real.times (real.of_nat s.sent) (real.of_nat size) in
      record {
        sent = s.sent;
        elapsed = elapsed;
        pps = real.over (real.of_nat s.sent) elapsed;
        megabytes = mebi amount;
        mbps = real.over (real.times amount (real.of_nat 8)) (mega elapsed);
        send_errors = s.send_errors;
      }

-- What the socket calls of the receiver gave.
pub data Bound : Type 0 where
  no_socket bad_address not_bound bound : Bound

-- `run_rx`: what it returns, when it does, with its summary and the lines before it.
module _ {F : Type 0} (real : Arithmetic F) (to_u32 : F → ℕ) where
  unfoldable pub conclude :
      F → F → RxEnd × RxState F → Option ℕ × List (Progress F) × Option (RxSummary F)
  conclude start now (waiting, st) = (none, st.printed, none)
  conclude start now (time_up, st) =
      (some 0, st.printed, some (rx_summary real to_u32 start now st.receiver))
  conclude start now (broken, st) =
      (some 0, st.printed, some (rx_summary real to_u32 start now st.receiver))

  unfoldable pub run_rx :
      Bound → F → F → F → List (Timed F) → Option ℕ × List (Progress F) × Option (RxSummary F)
  run_rx bound seconds start now rounds =
      conclude start now
        (rx_loop real to_u32 start (real.plus start seconds) rounds (rx_begin real to_u32 start))
  run_rx failure seconds start now rounds = (some 1, [], none)
