-- ===== src/RxOutput.antt =====
-- src/tests/sc6f0-dante-rx-output.h: what the SDI output of the receiver accepts and advertises; and
-- `is_valid_edid` of src/tests/sc6f0-dante-rx.cpp. Strings are lists of bytes.
pub mod Card
pub mod Edid
pub mod Properties
mod Tests
use qcap_demos.Prelude.{
  ℕ, zero, suc, ◌+◌, ◌-◌, ◌*◌, ◌/◌, ◌%◌, Bool, true, false, ◌&&◌, ◌||◌, not, List, [], ◌∷◌, ◌++◌,
  Option, none, some, min, length, take, drop, replicate, leb, ltb, ◌==◌, if◌then◌else◌,
}
use qcap_demos.Text.{starts_with}

pub data Backend : Type 0 where
  hdmi sdi : Backend

abbrev pub sdi_product : List ℕ
sdi_product =
    b'S' ∷ b'C' ∷ b'6' ∷ b'F' ∷ b'0' ∷ b' ' ∷ b'S' ∷ b'D' ∷ b'I' ∷ b' ' ∷ b'D' ∷ b'a' ∷ b'n' ∷ b't'
    ∷ b'e' ∷ b' ' ∷ b'R' ∷ b'X' ∷ []

-- `product.find(s) == 0` says that the product begins with `s`.
unfoldable pub from_product : List ℕ → Backend
from_product product = if starts_with product sdi_product then sdi else hdmi

unfoldable pub sdi_size : ℕ → ℕ → Bool
sdi_size width height = (width == 1920 && height == 1080) || (width == 3840 && height == 2160)

-- `at_60` is `isfinite(fps) && fabs(fps - 60.0) < 0.005`.
unfoldable pub sdi_mode : ℕ → ℕ → Bool → ℕ → Bool → Bool
unfolding sdi_size
sdi_mode width height at_60 clock_khz interlaced =
    sdi_size width height
    && not interlaced
    && at_60
    && clock_khz == (if width == 1920 then 148500 else 594000)

abbrev pub card_prefix : List ℕ
card_prefix = b'x' ∷ b'l' ∷ b'n' ∷ b'x' ∷ b's' ∷ b'd' ∷ b'i' ∷ []

unfoldable pub normalized : List ℕ → List ℕ
normalized [] = []
normalized (c ∷ cs) =
    let rest = normalized cs in if not (c == b'-') && not (c == b'_') then c ∷ rest else rest

unfoldable pub all_digits : List ℕ → Bool
all_digits [] = true
all_digits (c ∷ cs) = if ltb c b'0' || ltb b'9' c then false else all_digits cs

unfoldable pub sdi_card_id : List ℕ → Bool
sdi_card_id id =
    let n = normalized id in
    if not (starts_with n card_prefix) then false else all_digits (drop (length card_prefix) n)

abbrev pub edid_header : List ℕ
edid_header = 0 ∷ 255 ∷ 255 ∷ 255 ∷ 255 ∷ 255 ∷ 255 ∷ 0 ∷ []

abbrev pub hd : List ℕ
hd =
    0x02 ∷ 0x3a ∷ 0x80 ∷ 0x18 ∷ 0x71 ∷ 0x38 ∷ 0x2d ∷ 0x40 ∷ 0x58 ∷ 0x2c ∷ 0x45 ∷ 0 ∷ 0 ∷ 0 ∷ 0 ∷ 0
    ∷ 0 ∷ 0x1e ∷ []

abbrev pub uhd : List ℕ
uhd =
    0x08 ∷ 0xe8 ∷ 0 ∷ 0x30 ∷ 0xf2 ∷ 0x70 ∷ 0x5a ∷ 0x80 ∷ 0xb0 ∷ 0x58 ∷ 0x8a ∷ 0 ∷ 0 ∷ 0 ∷ 0 ∷ 0 ∷ 0
    ∷ 0x1e ∷ []

-- "SC6F0 SDI RX\n".
abbrev pub monitor_name : List ℕ
monitor_name =
    b'S' ∷ b'C' ∷ b'6' ∷ b'F' ∷ b'0' ∷ b' ' ∷ b'S' ∷ b'D' ∷ b'I' ∷ b' ' ∷ b'R' ∷ b'X' ∷ 10 ∷ []

-- Writing bytes into the array from an index on.
unfoldable pub poke : ℕ → List ℕ → List ℕ → List ℕ
poke i bytes e = take i e ++ bytes ++ drop (i + length bytes) e

unfoldable pub sum_of : List ℕ → ℕ
sum_of [] = 0
sum_of (b ∷ bs) = b + sum_of bs

-- The last byte of the block at `base`: `0u - sum`, cut to a byte.
unfoldable pub put_checksum : ℕ → List ℕ → List ℕ
unfolding poke sum_of
put_checksum base e =
    let sum = sum_of (take 127 (drop base e)) in poke (base + 127) ((256 - sum % 256) % 256 ∷ []) e

unfoldable pub first_block : List ℕ → List ℕ
unfolding poke
first_block timing =
    let e = poke 0 edid_header (replicate 256 0) in
    let e = poke 8 (0x66 ∷ 0xa1 ∷ 1 ∷ []) e in
    let e = poke 17 (36 ∷ 1 ∷ 4 ∷ 0xa0 ∷ []) e in
    let e = poke 23 (0xff ∷ 0x02 ∷ []) e in
    let e = poke 38 (replicate 16 1) e in
    let e = poke 54 timing e in
    let e = poke 75 (0x10 ∷ []) e in
    let e = poke 93 (0xfc ∷ []) e in
    let e = poke 95 monitor_name e in let e = poke 111 (0x10 ∷ []) e in poke 126 (1 ∷ []) e

unfoldable pub sdi_capabilities : ℕ → ℕ → ℕ → Option (List ℕ)
unfolding sdi_size first_block put_checksum
sdi_capabilities width height fps =
    if not (sdi_size width height) || not (fps == 60)
    then none
    else (let e = first_block (if width == 1920 then hd else uhd) in
        let e = poke 128 (0x02 ∷ 0x03 ∷ 8 ∷ []) e in
        let e = poke 132 (0x23 ∷ 0x09 ∷ 0x04 ∷ 0x04 ∷ []) e in
        some (put_checksum 128 (put_checksum 0 e)))

unfoldable pub blocks_valid : ℕ → List ℕ → Bool
unfolding sum_of
blocks_valid zero edid = true
blocks_valid (suc blocks) edid =
    sum_of (take 128 edid) % 256 == 0 && blocks_valid blocks (drop 128 edid)

unfoldable pub is_valid_edid : List ℕ → Bool
unfolding blocks_valid
is_valid_edid edid =
    if ltb (length edid) 128
    then false
    else if not (starts_with edid edid_header)
    then false
    else blocks_valid (min 2 (length edid / 128)) edid
