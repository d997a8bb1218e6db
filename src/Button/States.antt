-- ===== src/Button/States.antt =====
-- tools/sc6f0_button.c: `sc6f0_button_get_states`.
use qcap_demos.Prelude.{
  ℕ, zero, suc, ◌+◌, ◌/◌, ◌%◌, ◌^◌, ◌≡◌, ap, ◌∙◌, Bool, true, false, List, get_or, ◌==◌,
  if◌then◌else◌, arith,
}

-- `key_bits[byte_idx] & (1 << bit_idx)`.
abbrev pub is_key_set : List ℕ → ℕ → Bool
is_key_set key_bits code = get_or key_bits (code / 8) 0 / 2 ^ (code % 8) % 2 == 1

-- The loop over the buttons that are left; a bit of the mask is set once, so `|=` adds it.
unfoldable pub mask_from : List ℕ → ℕ → ℕ → ℕ → ℕ
mask_from key_bits i zero mask = mask
mask_from key_bits i (suc n) mask =
    mask_from key_bits (suc i) n (if is_key_set key_bits (256 + i) then mask + 2 ^ i else mask)

-- An error of the call is its errno, without the sign; EINVAL is 22.
pub data States : Type 0 where
  mask : ℕ → States
  failed : ℕ → States

pub data Ioctl : Type 0 where
  keys : List ℕ → Ioctl
  ioctl_failed : ℕ → Ioctl

unfoldable pub get_states : Bool → Ioctl → States
unfolding mask_from
get_states false answer = failed 22
get_states true (ioctl_failed e) = failed e
get_states true (keys key_bits) = mask (mask_from key_bits 0 5 0)

-- A round of the loop adds the bit with weight `n`.
abbrev with_bit : ℕ → ℕ → ℕ → ℕ
with_bit b n bits = if b / n % 2 == 1 then bits + n else bits

low_bits :
    (b : ℕ) → with_bit b 16 (with_bit b 8 (with_bit b 4 (with_bit b 2 (with_bit b 1 0)))) ≡ b % 32
low_bits b =
    let bit_0 : with_bit b 1 0 ≡ b % 2 = ground arith in
    let bit_1 : with_bit b 2 (b % 2) ≡ b % 4 = ground arith in
    let bit_2 : with_bit b 4 (b % 4) ≡ b % 8 = ground arith in
    let bit_3 : with_bit b 8 (b % 8) ≡ b % 16 = ground arith in
    let bit_4 : with_bit b 16 (b % 16) ≡ b % 32 = ground arith in
    ap (with_bit b 16)
      (ap (with_bit b 8) (ap (with_bit b 4) (ap (with_bit b 2) bit_0 ∙ bit_1) ∙ bit_2) ∙ bit_3)
    ∙ bit_4

-- Whenever the kernel gives the state of the keys, the mask is the low five bits of byte 32 of that state: bit `i`
-- of the mask is that of the key with code 0x100 + i, and no other bit is set.
pub get_states_lem :
    (key_bits : List ℕ) → get_states true (keys key_bits) ≡ mask (get_or key_bits 32 0 % 32)
unfolding get_states mask_from
get_states_lem key_bits = ap mask (low_bits (get_or key_bits 32 0))
