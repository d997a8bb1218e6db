-- ===== src/Zz/Colour.antt =====
-- src/zzlab/ZzUtils.cpp, src/zzlab/ZzUtils.h: colours.
pub mod Ranges
use qcap_demos.Prelude.{
  ℕ, ◌+◌, ◌-◌, ◌*◌, ◌/◌, ◌%◌, ◌^◌, Bool, ltb, leb, if◌then◌else◌, ℤ, pos, negsuc,
}

-- Three components, and the low bytes of a colour word.
pub record Triple : Type 0 where
  pub c0 : ℕ
  pub c1 : ℕ
  pub c2 : ℕ

unfoldable pub clamp_255 : ℤ → ℕ
clamp_255 (negsuc n) = 0
clamp_255 (pos n) = if ltb 255 n then 255 else n

-- `{ pColor[2], pColor[1], pColor[0] }` on a little-endian machine.
abbrev pub rgb_of : ℕ → Triple
rgb_of color = record { c0 = color / 65536 % 256; c1 = color / 256 % 256; c2 = color % 256 }

-- `c2 << 16 | c1 << 8 | c0`, for components below 256.
abbrev pub word_of : Triple → ℕ
word_of t = t.c2 * 65536 + t.c1 * 256 + t.c0

-- The components as floating point times 255, cut to integers, are an argument.
unfoldable pub rgb_yuv_p : (Triple → ℤ × ℤ × ℤ) → Triple → Triple
unfolding clamp_255
rgb_yuv_p convert rgb =
    let (y, u, v) = convert rgb in record { c0 = clamp_255 y; c1 = clamp_255 u; c2 = clamp_255 v }

unfoldable pub rgb_yuv : (Triple → ℤ × ℤ × ℤ) → ℕ → ℕ
rgb_yuv convert color = word_of (rgb_yuv_p convert (rgb_of color))

unfoldable pub yuv_full_limited_p : Triple → Triple
yuv_full_limited_p full = record {
  c0 = 16 + full.c0 * 219 / 255;
  c1 = 16 + full.c1 * 224 / 255;
  c2 = 16 + full.c2 * 224 / 255;
}

-- A component that is below 16 gives a negative number, rounded towards 0.
unfoldable pub limited_full : ℕ → ℕ → ℤ
limited_full range c =
    let below = (16 - c) * 255 / range in
    if ltb c 16
    then (if ltb 0 below then negsuc (below - 1) else pos 0)
    else pos ((c - 16) * 255 / range)

unfoldable pub yuv_limited_full_p : Triple → ℤ × ℤ × ℤ
unfolding limited_full
yuv_limited_full_p limited =
    (limited_full 219 limited.c0, limited_full 224 limited.c1, limited_full 224 limited.c2)

unfoldable pub rgb_gbr_p : Triple → Triple
rgb_gbr_p rgb = record { c0 = rgb.c1; c1 = rgb.c2; c2 = rgb.c0 }

unfoldable pub rgb_gbr : ℕ → ℕ
unfolding rgb_gbr_p
rgb_gbr color = word_of (rgb_gbr_p (rgb_of color))

-- For components below 256.
unfoldable pub rgb_p : Triple → ℕ
rgb_p rgb = rgb.c0 * 65536 + rgb.c1 * 256 + rgb.c2
