-- ===== src/Modeset.antt =====
-- src/tests/sc6f0-dante-rx.cpp: the choice of a display mode, and the rectangle of the overlay
-- (`is_sdi_mode`, `find_matching_mode` and the first part of `apply_drm_modeset`). Refresh rates are
-- floating-point numbers: their type and the comparisons on them are arguments.
pub mod Choice
pub mod Fit
pub mod Kernel
pub mod Apply
pub mod Harmless
pub mod Outcome
pub mod Format
pub mod Off
pub mod Reply
pub mod Ledger
mod Tests
use qcap_demos.Prelude.{
  ℕ, zero, suc, ◌+◌, ◌-◌, ◌*◌, ◌/◌, Bool, true, false, ◌&&◌, ◌||◌, not, List, [], ◌∷◌, Option, none,
  some, Option-cases, leb, ltb, ◌==◌, if◌then◌else◌,
}
use qcap_demos.RxOutput.{sdi_size, sdi_mode}

-- The fields of drmModeModeInfo that the code reads.
pub record Mode : Type 0 where
  pub hdisplay : ℕ
  pub vdisplay : ℕ
  pub htotal : ℕ
  pub vtotal : ℕ
  pub clock : ℕ
  pub vrefresh : ℕ
  pub interlaced : Bool
  pub dblscan : Bool

-- `mode_vrefresh`, and the comparisons of rates: `near a b` is `fabs(a - b) < 0.5`, `truncates f n`
-- is `(int)f == n`, `sixty` is `isfinite(f) && fabs(f - 60.0) < 0.005`.
pub record Rates (F : Type 0) : Type 0 where
  pub mode_vrefresh : Mode → F
  pub mode_fps : Mode → F
  pub nonpositive : F → Bool
  pub near : F → F → Bool
  pub truncates : F → ℕ → Bool
  pub sixty : F → Bool
  pub above_60_5 : F → Bool
  pub above : F → F → Bool

abbrev pub or_else {ℓ} : {A : Type ℓ} → Option A → Option A → Option A
or_else (some a) b = some a
or_else none b = b

abbrev pub area : Mode → ℕ
area m = m.hdisplay * m.vdisplay

module _ {F : Type 0} (rates : Rates F) where
  unfoldable pub is_sdi_mode : Mode → Bool
  unfolding sdi_mode
  is_sdi_mode m =
      sdi_mode m.hdisplay m.vdisplay (rates.sixty (rates.mode_fps m)) m.clock
        (m.interlaced || m.dblscan)

  unfoldable pub has_shape : ℕ → ℕ → Bool → Mode → Bool
  has_shape width height interlaced m =
      m.hdisplay == width
      && m.vdisplay == height
      && (if interlaced then m.interlaced else not m.interlaced)

  unfoldable pub refresh_matched : F → Mode → Bool
  refresh_matched framerate m =
      rates.nonpositive framerate
      || rates.near (rates.mode_vrefresh m) framerate
      || rates.truncates framerate m.vrefresh

  -- `preferred_clock && candidate->clock == preferred_clock`.
  unfoldable pub is_preferred : ℕ → ℕ → Bool → Mode → Bool
  is_preferred width height interlaced m =
      width == 3840 && height == 2160 && not interlaced && m.clock == 594000

  unfoldable pub first_loop : ℕ → ℕ → F → Bool → Option Mode → List Mode → Option Mode
  unfolding has_shape refresh_matched is_preferred
  first_loop width height framerate interlaced fallback [] = fallback
  first_loop width height framerate interlaced fallback (m ∷ ms) =
      let hit = has_shape width height interlaced m && refresh_matched framerate m in
      let rest =
        first_loop width height framerate interlaced
          (if hit then or_else fallback (some m) else fallback) ms in
      if hit && is_preferred width height interlaced m then some m else rest

  unfoldable pub second_loop : ℕ → ℕ → Bool → List Mode → Option Mode
  unfolding has_shape
  second_loop width height interlaced [] = none
  second_loop width height interlaced (m ∷ ms) =
      let rest = second_loop width height interlaced ms in
      if has_shape width height interlaced m then some m else rest

  unfoldable pub find_matching_mode : List Mode → ℕ → ℕ → F → Bool → Option Mode
  unfolding first_loop second_loop
  find_matching_mode modes width height framerate interlaced =
      or_else (first_loop width height framerate interlaced none modes)
        (second_loop width height interlaced modes)

  -- Lines 2977 to 2982: the candidates that the fallback looks at.
  unfoldable pub compatible : Bool → Mode → Bool
  unfolding is_sdi_mode
  compatible is_sdi m =
      not (is_sdi && not (is_sdi_mode m))
      && not (
          m.hdisplay == 0
          || m.vdisplay == 0
          || ltb 3840 m.hdisplay
          || ltb 2160 m.vdisplay
          || ltb 594000 m.clock
          || rates.nonpositive (rates.mode_vrefresh m)
          || rates.above_60_5 (rates.mode_vrefresh m)
          || m.interlaced)

  -- What replaces the best mode found before; `none` is `!found`.
  unfoldable pub improves : Option Mode → Mode → Bool
  improves none m = true
  improves (some best) m =
      ltb (area best) (area m)
      || (area m == area best && rates.above (rates.mode_vrefresh m) (rates.mode_vrefresh best))

  unfoldable pub best_of : Bool → Option Mode → List Mode → Option Mode
  unfolding compatible improves
  best_of is_sdi best [] = best
  best_of is_sdi best (m ∷ ms) =
      best_of is_sdi (if compatible is_sdi m && improves best m then some m else best) ms

  unfoldable pub choose_from : Bool → List Mode → Option Mode → Option Mode
  unfolding is_sdi_mode best_of
  choose_from is_sdi modes none = best_of is_sdi none modes
  choose_from is_sdi modes (some m) =
      if not (is_sdi && not (is_sdi_mode m))
        && not (ltb 594000 m.clock || rates.above_60_5 (rates.mode_vrefresh m))
      then some m
      else best_of is_sdi none modes

  -- Lines 2961 to 2999: the mode to set, if there is one.
  unfoldable pub choose_mode : Bool → List Mode → ℕ → ℕ → F → Option Mode
  unfolding find_matching_mode choose_from
  choose_mode is_sdi modes width height fps =
      if is_sdi && (not (sdi_size width height) || not (rates.sixty fps))
      then none
      else choose_from is_sdi modes (find_matching_mode modes width height fps false)

-- Lines 3004 to 3011: where a picture of the given size is shown on the display.
pub record Rect : Type 0 where
  pub x : ℕ
  pub y : ℕ
  pub w : ℕ
  pub h : ℕ

-- `n & ~1u`.
abbrev pub even_part : ℕ → ℕ
even_part n = 2 * (n / 2)

-- `none` is the early return on an empty rectangle.
unfoldable pub fit_rect : ℕ → ℕ → ℕ → ℕ → Option Rect
fit_rect width height output_w output_h =
    let wide = ltb (height * output_w) (width * output_h) in
    let rect_w = even_part (if wide then output_w else output_h * width / height) in
    let rect_h = even_part (if wide then output_w * height / width else output_h) in
    if rect_w == 0 || rect_h == 0
    then none
    else some
        record { x = (output_w - rect_w) / 2; y = (output_h - rect_h) / 2; w = rect_w; h = rect_h }
