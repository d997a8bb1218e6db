-- ===== src/Udp/Loss.antt =====
-- tools/udptest.c: what the counters of the receiver say about the packets of the sender.
use qcap_demos.Prelude.{
  ℕ, zero, suc, ◌+◌, ◌-◌, ◌%◌, ◌^◌, ◌≤◌, ◌<◌, ◌≡◌, refl, ◌∙◌, Bool, true, false, List, [], ◌∷◌,
  ◌++◌, length, length-take, length-replicate, ltb, if◌then◌else◌, arith,
}
use qcap_demos.Udp.Packet.{bytes, filling, packet, seq_of}
use qcap_demos.Udp.Receive.{
  Receiver, new_receiver, count_delta, note_packet, Round, nothing, interrupted, failed, datagram,
  receive_all, run_rx,
}

-- A packet of at least 12 bytes gives back the sequence number that was put into it.
pub seq_of-packet :
    (seq tnow size : ℕ) → seq < 2 ^ 32 → 12 ≤ size → seq_of (packet seq tnow size) ≡ seq
unfolding seq_of packet
seq_of-packet seq tnow (suc (suc (suc (suc size)))) h hs = omega arith
seq_of-packet seq tnow zero h hs = absurd (omega arith)
seq_of-packet seq tnow (suc zero) h hs = absurd (omega arith)
seq_of-packet seq tnow (suc (suc zero)) h hs = absurd (omega arith)
seq_of-packet seq tnow (suc (suc (suc zero))) h hs = absurd (omega arith)

length-filling : length filling ≡ 4084
unfolding filling
length-filling = length-replicate {A = ℕ} 4084 171

length-packet : (seq tnow size : ℕ) → size ≤ 4096 → length (packet seq tnow size) ≡ size
unfolding packet
length-packet seq tnow size h =
    let a = length-take size (bytes 4 seq ++ (bytes 8 tnow ++ filling)) in
    let b = length-filling in omega arith

not_short : (size : ℕ) → 12 ≤ size → ltb size 12 ≡ false
not_short size h = ground arith

-- The receiver's state after a packet that the sender numbered.
pub accepts :
    (seq tnow size : ℕ) (rest : List Round) (r : Receiver)
    → seq < 2 ^ 32
    → 12 ≤ size
    → size ≤ 4096
    → receive_all (datagram (packet seq tnow size) ∷ rest) r
      ≡ receive_all rest (note_packet size seq r)
unfolding receive_all
accepts seq tnow size rest r hq hs hm =
    rw (seq_of-packet seq tnow size hq hs, length-packet seq tnow size hm, not_short size hs) refl

-- `late` is counted when `delta`, which is unsigned, is neither 0 nor above 0.
count_delta-late : (delta : ℕ) (r : Receiver) → (count_delta delta r).late ≡ r.late
unfolding count_delta
count_delta-late delta r = ground arith

note_packet-late : (n seq : ℕ) (r : Receiver) → (note_packet n seq r).late ≡ r.late
unfolding note_packet
note_packet-late n seq r =
    let kept =
      count_delta-late ((seq + 2 ^ 32 - r.prev_seq % 2 ^ 32) % 2 ^ 32)
        (record r { received = r.received + 1; bytes = r.bytes + n }) in
    ground arith

pub receive_all-late : (rounds : List Round) (r : Receiver) → (receive_all rounds r).late ≡ r.late
unfolding receive_all
receive_all-late [] r = refl
receive_all-late (nothing ∷ rest) r = receive_all-late rest r
receive_all-late (interrupted ∷ rest) r = receive_all-late rest r
receive_all-late (failed ∷ rest) r = refl
receive_all-late (datagram d ∷ rest) r =
    let kept = note_packet-late (length d) (seq_of d) r in
    receive_all-late rest (if ltb (length d) 12 then r else note_packet (length d) (seq_of d) r)
    ∙ ground arith

-- A packet that is `gap` numbers after the one before.
pub note_packet-next :
    (n p q : ℕ) (r : Receiver)
    → r.have_prev ≡ true
    → r.prev_seq ≡ p % 2 ^ 32
    → p < q
    → q < p + 2 ^ 32
    → ((note_packet n (q % 2 ^ 32) r).received ≡ r.received + 1)
      × ((note_packet n (q % 2 ^ 32) r).lost + p + 1 ≡ r.lost + q)
      × ((note_packet n (q % 2 ^ 32) r).dup ≡ r.dup)
      × ((note_packet n (q % 2 ^ 32) r).prev_seq ≡ q % 2 ^ 32)
      × ((note_packet n (q % 2 ^ 32) r).have_prev ≡ true)
unfolding note_packet count_delta
note_packet-next n p q r hh hp hlt hgap =
    let delta : (q % 2 ^ 32 + 2 ^ 32 - r.prev_seq % 2 ^ 32) % 2 ^ 32 ≡ q - p = omega arith in
    ground arith

-- Whatever datagrams arrive, in whatever order, no packet is counted as late.
pub late_never : (bound : Bool) (rounds : List Round) → (run_rx bound rounds).1.late ≡ 0
unfolding run_rx new_receiver
late_never true rounds = receive_all-late rounds new_receiver
late_never false rounds = refl
