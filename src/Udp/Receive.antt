-- ===== src/Udp/Receive.antt =====
-- tools/udptest.c: `run_rx`. The counters are 64 bits wide and do not reach 2^64.
use qcap_demos.Prelude.{
  ℕ, ◌+◌, ◌-◌, ◌%◌, ◌^◌, Bool, true, false, List, [], ◌∷◌, length, ltb, ◌==◌, if◌then◌else◌,
}
use qcap_demos.Udp.Packet.{seq_of}

pub record Receiver : Type 0 where
  pub received : ℕ
  pub bytes : ℕ
  pub lost : ℕ
  pub dup : ℕ
  pub late : ℕ
  pub prev_seq : ℕ
  pub have_prev : Bool
  pub max_gap : ℕ

unfoldable pub new_receiver : Receiver
new_receiver = record {
  received = 0;
  bytes = 0;
  lost = 0;
  dup = 0;
  late = 0;
  prev_seq = 0;
  have_prev = false;
  max_gap = 0;
}

-- The comparison of a sequence number with the one before; `delta` is 32 bits wide.
unfoldable pub count_delta : ℕ → Receiver → Receiver
count_delta delta r =
    if delta == 0
    then record r { dup = r.dup + 1 }
    else (if ltb 0 delta
        then record r {
          lost = r.lost + (delta - 1);
          max_gap = if ltb r.max_gap (delta - 1) then delta - 1 else r.max_gap;
        }
        else record r { late = r.late + 1 })

unfoldable pub note_packet : ℕ → ℕ → Receiver → Receiver
note_packet n seq r =
    let r' : Receiver = record r { received = r.received + 1; bytes = r.bytes + n } in
    let r'' =
      if r.have_prev then count_delta ((seq + 2 ^ 32 - r.prev_seq % 2 ^ 32) % 2 ^ 32) r' else r' in
    record r'' { prev_seq = seq; have_prev = true }

-- How a round ended: `poll` had nothing, `recvfrom` was interrupted or failed, or gave a datagram.
pub data Round : Type 0 where
  nothing interrupted failed : Round
  datagram : List ℕ → Round

-- The rounds until the time is up or `recvfrom` fails.
unfoldable pub receive_all : List Round → Receiver → Receiver
receive_all [] r = r
receive_all (nothing ∷ rest) r = receive_all rest r
receive_all (interrupted ∷ rest) r = receive_all rest r
receive_all (failed ∷ rest) r = r
receive_all (datagram d ∷ rest) r =
    receive_all rest (if ltb (length d) 12 then r else note_packet (length d) (seq_of d) r)

-- `run_rx` once its socket is bound; before that every failure returns 1.
unfoldable pub run_rx : Bool → List Round → ℕ × Receiver
run_rx true rounds = (0, receive_all rounds new_receiver)
run_rx false rounds = (1, new_receiver)
