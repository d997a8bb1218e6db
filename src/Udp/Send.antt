-- ===== src/Udp/Send.antt =====
-- tools/udptest.c: `run_tx`.
use qcap_demos.Prelude.{ℕ, ◌+◌, ◌%◌, ◌^◌, List, [], ◌∷◌, add64, ◌==◌, if◌then◌else◌}
use qcap_demos.Udp.Packet.{packet}

-- A packet that was handed to `send`, and the counters.
pub record Sender : Type 0 where
  pub deadline : ℕ
  pub sent : ℕ
  pub send_errors : ℕ

-- One round of the loop: the time that is put into the packet, and what `send` returned.
pub record SendRound : Type 0 where
  pub tnow : ℕ
  pub returned : ℕ

unfoldable pub send_one : ℕ → ℕ → SendRound → Sender → List ℕ × Sender
send_one size interval r s = (
  packet (s.sent % 2 ^ 32) r.tnow size,
  record {
    deadline = add64 s.deadline interval;
    sent = add64 s.sent 1;
    send_errors = if r.returned == size then s.send_errors else s.send_errors + 1;
  },
)

-- The rounds until the time is up.
unfoldable pub send_all : ℕ → ℕ → List SendRound → Sender → List (List ℕ) × Sender
send_all size interval [] s = ([], s)
send_all size interval (r ∷ rs) s =
    let (p, s') = send_one size interval r s in
    let (ps, s'') = send_all size interval rs s' in (p ∷ ps, s'')

-- What the socket calls gave: `socket`, `inet_pton` and `connect` failed, or the loop runs.
pub data Opened : Type 0 where
  no_socket bad_address no_connection : Opened
  opened : Opened

-- The exit code, the packets and the counters, with the first deadline.
unfoldable pub run_tx : Opened → ℕ → ℕ → ℕ → List SendRound → ℕ × List (List ℕ) × Sender
run_tx opened size interval start rs =
    let (ps, s) =
      send_all size interval rs (record { deadline = start; sent = 0; send_errors = 0 }) in
    (0, ps, s)
run_tx failure size interval start rs =
    (1, [], record { deadline = start; sent = 0; send_errors = 0 })
