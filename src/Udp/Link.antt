-- ===== src/Udp/Link.antt =====
-- tools/udptest.c: the sender, a network that may lose packets, and the receiver.
use qcap_demos.Prelude.{
  ℕ, suc, ◌+◌, ◌-◌, ◌%◌, ◌^◌, ◌≤◌, ◌<◌, ◌≡◌, refl, sym, subst, Bool, true, false, List, [], ◌∷◌,
  length, ◌==◌, if◌then◌else◌, arith,
}
use qcap_demos.Udp.Send.{Sender, SendRound, opened, send_one, send_all, run_tx}
use qcap_demos.Udp.Receive.{
  Receiver, new_receiver, note_packet, Round, datagram, receive_all, run_rx,
}
use qcap_demos.Udp.Loss.{accepts, receive_all-late, note_packet-next}

-- The network: which of the packets arrive, in order.
abbrev pub deliver : List Bool → List (List ℕ) → List Round
deliver [] ps = []
deliver (b ∷ bs) [] = []
deliver (true ∷ bs) (p ∷ ps) = datagram p ∷ deliver bs ps
deliver (false ∷ bs) (p ∷ ps) = deliver bs ps

abbrev pub arrivals : List Bool → List (List ℕ) → ℕ
arrivals [] ps = 0
arrivals (b ∷ bs) [] = 0
arrivals (true ∷ bs) (p ∷ ps) = suc (arrivals bs ps)
arrivals (false ∷ bs) (p ∷ ps) = arrivals bs ps

-- The packets up to the last that arrives.
abbrev pub reach : List Bool → List (List ℕ) → ℕ
reach [] ps = 0
reach (b ∷ bs) [] = 0
reach (true ∷ bs) (p ∷ ps) = suc (reach bs ps)
reach (false ∷ bs) (p ∷ ps) = let n = reach bs ps in if n == 0 then 0 else suc n

-- The packets from the first that arrives to the last.
abbrev pub span : List Bool → List (List ℕ) → ℕ
span [] ps = 0
span (b ∷ bs) [] = 0
span (true ∷ bs) (p ∷ ps) = suc (reach bs ps)
span (false ∷ bs) (p ∷ ps) = span bs ps

-- From one state of the receiver to another: the packets that came, and with them those that were lost.
abbrev pub IsCounted : Receiver → Receiver → ℕ → ℕ → Type 0
IsCounted r r' came gain =
    (r'.received ≡ r.received + came)
    × (r'.received + r'.lost ≡ r.received + r.lost + gain)
    × (r'.dup ≡ r.dup)

first_packet :
    (size seq : ℕ)
    → ((note_packet size seq new_receiver).received ≡ 1)
      × ((note_packet size seq new_receiver).lost ≡ 0)
      × ((note_packet size seq new_receiver).dup ≡ 0)
      × ((note_packet size seq new_receiver).prev_seq ≡ seq)
      × ((note_packet size seq new_receiver).have_prev ≡ true)
unfolding note_packet new_receiver
first_packet size seq = (refl, refl, refl, refl, refl)

module _ (size interval : ℕ) (hs : 12 ≤ size) (hm : size ≤ 4096) where
  abbrev packets : List SendRound → Sender → List (List ℕ)
  packets rounds s = (send_all size interval rounds s).0

  -- The receiver has seen the packet numbered `p`, and the sender goes on with a later one.
  after_first :
      (rounds : List SendRound) (mask : List Bool) (s : Sender) (p : ℕ) (r : Receiver)
      → r.have_prev ≡ true
      → r.prev_seq ≡ p % 2 ^ 32
      → p < s.sent
      → s.sent + length rounds ≤ 2 ^ 32
      → IsCounted r
          (receive_all (deliver mask (packets rounds s)) r)
          (arrivals mask (packets rounds s))
          (if reach mask (packets rounds s) == 0
            then 0
            else s.sent - p - 1 + reach mask (packets rounds s))
  unfolding send_all send_one receive_all
  after_first [] [] s p r hh hp hlt hk = ground arith
  after_first [] (b ∷ mask) s p r hh hp hlt hk = ground arith
  after_first (round ∷ rounds) [] s p r hh hp hlt hk = ground arith
  after_first (round ∷ rounds) (false ∷ mask) s p r hh hp hlt hk =
      let next =
        after_first rounds mask (send_one size interval round s).1 p r hh hp (omega arith)
          (omega arith) in
      ground arith
  after_first (round ∷ rounds) (true ∷ mask) s p r hh hp hlt hk =
      let s' = (send_one size interval round s).1 in
      let (a, b, c, d, e) = note_packet-next size p s.sent r hh hp hlt (omega arith) in
      let next =
        after_first rounds mask s' s.sent (note_packet size (s.sent % 2 ^ 32) r) e d (omega arith)
          (omega arith) in
      subst
        (λ r'. IsCounted r r' (suc (arrivals mask (packets rounds s'))) (
          if suc (reach mask (packets rounds s')) == 0
          then 0
          else s.sent - p - 1 + suc (reach mask (packets rounds s'))))
        (sym (
          accepts (s.sent % 2 ^ 32) round.tnow size (deliver mask (packets rounds s')) r
            (omega arith) hs hm))
        (ground arith)

  from_first :
      (rounds : List SendRound) (mask : List Bool) (s : Sender)
      → s.sent + length rounds ≤ 2 ^ 32
      → IsCounted new_receiver
          (receive_all (deliver mask (packets rounds s)) new_receiver)
          (arrivals mask (packets rounds s))
          (span mask (packets rounds s))
  unfolding send_all send_one receive_all new_receiver
  from_first [] [] s hk = ground arith
  from_first [] (b ∷ mask) s hk = ground arith
  from_first (round ∷ rounds) [] s hk = ground arith
  from_first (round ∷ rounds) (false ∷ mask) s hk =
      from_first rounds mask (send_one size interval round s).1 (omega arith)
  from_first (round ∷ rounds) (true ∷ mask) s hk =
      let s' = (send_one size interval round s).1 in
      let (a, b, c, d, e) = first_packet size (s.sent % 2 ^ 32) in
      let next =
        after_first rounds mask s' s.sent (note_packet size (s.sent % 2 ^ 32) new_receiver) e d
          (omega arith) (omega arith) in
      subst
        (λ r'.
          IsCounted new_receiver r' (suc (arrivals mask (packets rounds s')))
            (suc (reach mask (packets rounds s'))))
        (sym (
          accepts (s.sent % 2 ^ 32) round.tnow size (deliver mask (packets rounds s')) new_receiver
            (omega arith) hs hm))
        (ground arith)

  -- For a packet size that the command line accepts and at most 2^32 packets, of which the network loses
  -- any but keeps the order: the receiver has counted the packets that arrived, those and the lost ones
  -- make up all the packets from the first that arrived to the last, and none is counted as a duplicate or late.
  pub link_loss :
      (rounds : List SendRound) (mask : List Bool) (start : ℕ)
      → length rounds ≤ 2 ^ 32
      → let sent = (run_tx opened size interval start rounds).1 in
        let seen = (run_rx true (deliver mask sent)).1 in
        (seen.received ≡ arrivals mask sent)
        × (seen.received + seen.lost ≡ span mask sent)
        × (seen.dup ≡ 0)
        × (seen.late ≡ 0)
  unfolding run_tx run_rx new_receiver
  link_loss rounds mask start h =
      let s : Sender = record { deadline = start; sent = 0; send_errors = 0 } in
      let (a, b, c) = from_first rounds mask s (omega arith) in
      (omega arith, omega arith, c, receive_all-late (deliver mask (packets rounds s)) new_receiver)
