-- ===== src/Kit/Layout/Fits.antt =====
-- src/zzlab/testkit.h: the planes of a frame lie inside what is allocated for it.
use qcap_demos.Prelude.{ℕ, ◌+◌, ◌*◌, ◌/◌, ◌%◌, ◌^◌, ◌≤◌, ◌<◌, ◌≡◌, subst, some, arith}
use qcap_demos.Kit.Layout.{align, ColorSpace, nv12, nv16, y444, rgba, other, Layout, layout}
use native.Mathlib.Nat.{mul-le-mul}
use mathlib.Core.Option.{some-injective, none-ne-some}

pub align_bounds : (x : ℕ) → (x ≤ align x 16) × (align x 16 < x + 16) × (align x 16 % 16 ≡ 0)
align_bounds x = (omega arith, omega arith, omega arith)

-- The bytes of a row, and the rows of the second plane.
abbrev pub row_bytes : ColorSpace → ℕ → ℕ
row_bytes y444 width = width * 3
row_bytes rgba width = width * 4
row_bytes space width = width

abbrev pub chroma_rows : ColorSpace → ℕ → ℕ
chroma_rows nv12 height = height / 2
chroma_rows nv16 height = height
chroma_rows space height = 0

abbrev pub IsFit : ColorSpace → ℕ → ℕ → Layout → Type 0
IsFit space width height l =
    (row_bytes space width ≤ l.stride)
    × (l.stride % 16 ≡ 0)
    × (l.stride * height ≤ l.size)
    × (l.chroma + l.stride * chroma_rows space height ≤ l.size)

twice_half : (s h : ℕ) → s * (h / 2) + s * (h / 2) ≤ s * h
twice_half s h =
    let below =
      mul-le-mul {n₁ = s} {m₁ = h / 2 + h / 2} {n₂ = s} {m₂ = h} (omega arith) (omega arith) in
    grind arith

nv12_fits : (s h : ℕ) → s * h + s * (h / 2) ≤ s * h * 3 / 2
nv12_fits s h = let below = twice_half s h in omega arith

-- With sides of at most 16384 the size is below what the source's 32-bit products hold.
size_bound : (s h : ℕ) → s ≤ 65536 → h ≤ 16384 → s * h ≤ 2 ^ 30
size_bound s h hs hh = mul-le-mul {n₁ = s} {m₁ = h} {n₂ = 65536} {m₂ = 16384} hs hh

abbrev IsWithin : Layout → Type 0
IsWithin l = l.size ≤ 2 ^ 30

-- Whatever the colour space and the sides: a row holds its pixels and is a multiple of 16 bytes, and the
-- first plane lies inside the size that is asked for; so do the rows of the second plane, half as many,
-- rounded down, for NV12, and as many for NV16.
pub layout-IsFit :
    (space : ColorSpace) (width height : ℕ) (l : Layout)
    → layout space width height ≡ some l
    → IsFit space width height l
unfolding layout
layout-IsFit nv12 width height l h =
    subst (λ l. IsFit nv12 width height l) (some-injective _ _ h)
      (let (a, b, c) = align_bounds width in
        let d = nv12_fits (align width 16) height in (a, c, omega arith, d))
layout-IsFit nv16 width height l h =
    subst (λ l. IsFit nv16 width height l) (some-injective _ _ h)
      (let (a, b, c) = align_bounds width in (a, c, omega arith, omega arith))
layout-IsFit y444 width height l h =
    subst (λ l. IsFit y444 width height l) (some-injective _ _ h)
      (let (a, b, c) = align_bounds (width * 3) in (a, c, omega arith, omega arith))
layout-IsFit rgba width height l h =
    subst (λ l. IsFit rgba width height l) (some-injective _ _ h)
      (let (a, b, c) = align_bounds (width * 4) in (a, c, omega arith, omega arith))
layout-IsFit other width height l h = elim (none-ne-some l h) [ ]

-- With sides of at most 16384 no size is above 2^30, so the 32-bit products of the source do not wrap
-- (the largest is twice a size).
layout_bound :
    (space : ColorSpace) (width height : ℕ) (l : Layout)
    → width ≤ 16384
    → height ≤ 16384
    → layout space width height ≡ some l
    → IsWithin l
unfolding layout
layout_bound nv12 width height l hw hh h =
    subst (λ l. IsWithin l) (some-injective _ _ h)
      (let (a, b, c) = align_bounds width in
        let d =
          mul-le-mul {n₁ = align width 16} {m₁ = height} {n₂ = 16384} {m₂ = 16384} (omega arith)
            hh in
        omega arith)
layout_bound nv16 width height l hw hh h =
    subst (λ l. IsWithin l) (some-injective _ _ h)
      (let (a, b, c) = align_bounds width in
        let d =
          mul-le-mul {n₁ = align width 16} {m₁ = height} {n₂ = 16384} {m₂ = 16384} (omega arith)
            hh in
        omega arith)
layout_bound y444 width height l hw hh h =
    subst (λ l. IsWithin l) (some-injective _ _ h)
      (let (a, b, c) = align_bounds (width * 3) in
        size_bound (align (width * 3) 16) height (omega arith) hh)
layout_bound rgba width height l hw hh h =
    subst (λ l. IsWithin l) (some-injective _ _ h)
      (let (a, b, c) = align_bounds (width * 4) in
        size_bound (align (width * 4) 16) height (omega arith) hh)
layout_bound other width height l hw hh h = elim (none-ne-some l h) [ ]
