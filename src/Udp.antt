-- ===== src/Udp.antt =====
-- tools/udptest.c: the test of a UDP path. This file is the command line; `strtol` and `rate_of` (which
-- is `strtod` on floating point) are arguments.
pub mod Packet
pub mod Send
pub mod Receive
pub mod Loss
pub mod Link
pub mod Report
mod Tests
use qcap_demos.Prelude.{
  ℕ, ◌%◌, ◌^◌, Bool, true, false, ◌||◌, ◌&&◌, not, List, [], ◌∷◌, Option, none, some, ◌==◌, leb,
  if◌then◌else◌, ℤ, pos, negsuc, ltb_ℤ, ◌>>=◌, is_text,
}
use qcap_demos.Text.Env.{as_int}

-- The number at the beginning of a text, and what follows it.
abbrev pub Strtol : Type 0
Strtol = List ℕ → ℤ × List ℕ

abbrev pub is_nil : List ℕ → Bool
is_nil [] = true
is_nil (c ∷ cs) = false

abbrev pub to_nat : ℤ → ℕ
to_nat (pos n) = n
to_nat (negsuc n) = 0

-- `none` is the exit with code 2.
unfoldable pub port_of : Strtol → List ℕ → Option ℕ
port_of strtol s =
    let (v, end) = strtol s in
    if (not (is_nil end) || ltb_ℤ v (pos 1)) || ltb_ℤ (pos 65535) v then none else some (to_nat v)

unfoldable pub size_of : Strtol → List ℕ → Option ℕ
size_of strtol s =
    let (v, end) = strtol s in
    if (not (is_nil end) || ltb_ℤ v (pos 12)) || ltb_ℤ (pos 4096) v then none else some (to_nat v)

-- The number is cut to 32 bits.
unfoldable pub seconds_of : Strtol → List ℕ → Option ℤ
seconds_of strtol s =
    let (v, end) = strtol s in
    if not (is_nil end) || ltb_ℤ v (pos 1) then none else some (as_int (to_nat v % 2 ^ 32))

module _ {Rate : Type 0} (strtol : Strtol) (rate_of : List ℕ → Option Rate) where
  -- What `main` calls, with its arguments.
  pub data Command : Type 0 where
    run_tx : List ℕ → ℕ → Rate → ℕ → ℤ → Command
    run_rx : List ℕ → ℕ → ℤ → Command

  tx_command : List (List ℕ) → Option Command
  tx_command (dest ∷ port ∷ pps ∷ size ∷ seconds ∷ []) = port_of strtol port >>= λ p.
      rate_of pps >>= λ rate.
      size_of strtol size >>= λ n. seconds_of strtol seconds >>= λ s. some (run_tx dest p rate n s)
  tx_command args = none

  rx_command : List (List ℕ) → Option Command
  rx_command (bind_ip ∷ port ∷ seconds ∷ []) =
      port_of strtol port >>= λ p. seconds_of strtol seconds >>= λ s. some (run_rx bind_ip p s)
  rx_command args = none

  -- The arguments after the program's name; `none` is the usage or a bad argument, both exit code 2.
  unfoldable pub main : List (List ℕ) → Option Command
  unfolding tx_command rx_command
  main [] = none
  main (name ∷ args) =
      if is_text name (116 ∷ 120 ∷ [])
      then tx_command args
      else (if is_text name (114 ∷ 120 ∷ []) then rx_command args else none)
