-- ===== src/Zz/Colour/Ranges.antt =====
-- src/zzlab/ZzUtils.cpp: the ranges of the colour conversions, and the ways back.
use qcap_demos.Prelude.{ℕ, ◌+◌, ◌%◌, ◌^◌, ◌≤◌, ◌<◌, ◌≡◌, ℤ, pos, negsuc, arith}
use qcap_demos.Zz.Colour.{
  Triple, clamp_255, rgb_of, rgb_yuv_p, rgb_yuv, yuv_full_limited_p, limited_full,
  yuv_limited_full_p, rgb_gbr_p, rgb_gbr, rgb_p,
}

abbrev pub AreBytes : Triple → Type 0
AreBytes t = (t.c0 ≤ 255) × (t.c1 ≤ 255) × (t.c2 ≤ 255)

-- Whatever the floating-point conversion gives, the components of the YUV colour are bytes and the word holds
-- nothing above them.
rgb_yuv_bounds :
    (convert : Triple → ℤ × ℤ × ℤ) (color : ℕ)
    → AreBytes (rgb_yuv_p convert (rgb_of color)) × (rgb_yuv convert color < 2 ^ 24)
unfolding rgb_yuv rgb_yuv_p clamp_255
rgb_yuv_bounds convert color = ground arith

abbrev pub IsNear : ℕ → ℤ → Type 0
IsNear v (pos n) = (n ≤ v) × (v ≤ n + 2)
IsNear v (negsuc n) = ⊥

-- Bytes of the full range go to 16..235 for the luma and 16..240 for the chroma; and back again they are
-- at most what they were, and at most two less.
pub full-limited_round :
    (yuv : Triple)
    → AreBytes yuv
    → ((16 ≤ (yuv_full_limited_p yuv).c0) × ((yuv_full_limited_p yuv).c0 ≤ 235))
      × ((16 ≤ (yuv_full_limited_p yuv).c1) × ((yuv_full_limited_p yuv).c1 ≤ 240))
      × ((16 ≤ (yuv_full_limited_p yuv).c2) × ((yuv_full_limited_p yuv).c2 ≤ 240))
      × IsNear yuv.c0 (yuv_limited_full_p (yuv_full_limited_p yuv)).0
      × IsNear yuv.c1 (yuv_limited_full_p (yuv_full_limited_p yuv)).1
      × IsNear yuv.c2 (yuv_limited_full_p (yuv_full_limited_p yuv)).2
unfolding yuv_full_limited_p yuv_limited_full_p limited_full
full-limited_round yuv h = ground arith

-- The reordering keeps red and swaps green and blue: done twice it gives the colour back, without what is
-- above its 24 bits; and a colour that is packed from bytes comes apart into them.
rgb_round :
    (color : ℕ) (rgb : Triple)
    → AreBytes rgb
    → (rgb_gbr (rgb_gbr color) ≡ color % 2 ^ 24) × (rgb_of (rgb_p rgb) ≡ rgb)
unfolding rgb_gbr rgb_gbr_p rgb_p
rgb_round color rgb h = (omega arith, ground arith)
