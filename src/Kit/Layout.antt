-- ===== src/Kit/Layout.antt =====
-- src/zzlab/testkit.h: `align`, and where the planes of a frame lie (`new_video_qdmabuf`). Widths and
-- heights are small enough for the 32-bit products of the source: `Fits` states the bound.
pub mod Fits
use qcap_demos.Prelude.{ℕ, ◌+◌, ◌-◌, ◌*◌, ◌/◌, ◌%◌, Option, none, some}

-- `((x) + (a) - 1) & ~((a) - 1)`, for a power of two.
abbrev pub align : ℕ → ℕ → ℕ
align x a = (x + a - 1) / a * a

pub data ColorSpace : Type 0 where
  nv12 nv16 y444 rgba other : ColorSpace

-- The step of a row, where the second plane begins (0 if there is none), and the size.
pub record Layout : Type 0 where
  pub stride : ℕ
  pub chroma : ℕ
  pub size : ℕ

unfoldable pub layout : ColorSpace → ℕ → ℕ → Option Layout
layout nv12 width height =
    let stride = align width 16 in
    some (record { stride = stride; chroma = stride * height; size = stride * height * 3 / 2 })
layout nv16 width height =
    let stride = align width 16 in
    some (record { stride = stride; chroma = stride * height; size = stride * height * 2 })
layout y444 width height =
    let stride = align (width * 3) 16 in
    some (record { stride = stride; chroma = 0; size = stride * height })
layout rgba width height =
    let stride = align (width * 4) 16 in
    some (record { stride = stride; chroma = 0; size = stride * height })
layout other width height = none
