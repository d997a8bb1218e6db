-- ===== src/Modeset/Fit.antt =====
-- The overlay rectangle.
use qcap_demos.Prelude.{
  ℕ, ◌+◌, ◌-◌, ◌*◌, ◌/◌, ◌≤◌, ◌<◌, ◌≡◌, refl, Bool, true, false, none, some, arith, ltb,
  if◌then◌else◌, ltb→lt, subst, Bool-cases, inl, inr, ◌⊎◌,
}
use native.Mathlib.Nat.{mul-le-mul_right, div-mul-le_self, lt-div-mul-add, div-le_of_le-mul}
use qcap_demos.Modeset.{Rect, even_part, fit_rect}

-- A rectangle inside the display, of even size, in the middle, with the picture's proportions up to
-- the rounding: one side is the display's, and the other is short by less than two pixels of the
-- exact length.
pub record IsFit (width height output_w output_h : ℕ) (r : Rect) : Type 0 where
  pub inside : (r.x + r.w ≤ output_w) × (r.y + r.h ≤ output_h)
  pub centred : (output_w ≤ 2 * r.x + r.w + 1) × (output_h ≤ 2 * r.y + r.h + 1)
  pub even : (a : ℕ) × (b : ℕ) × (r.w ≡ 2 * a) × (r.h ≡ 2 * b) × (0 < a) × (0 < b)
  pub proportion :
      ((output_w ≤ r.w + 1)
        × (r.h * width ≤ output_w * height)
        × (output_w * height < (r.h + 2) * width))
      ⊎ ((output_h ≤ r.h + 1)
          × (r.w * height ≤ output_h * width)
          × (output_h * width < (r.w + 2) * height))

-- The even part of a quotient.
quotient-bounds :
    (n k : ℕ) → 0 < k → (even_part (n / k) * k ≤ n) × (n < (even_part (n / k) + 2) * k)
quotient-bounds n k p =
    let q = n / k in
    let low : q * k ≤ n = div-mul-le_self n k in
    let high : n < q * k + k = lt-div-mul-add p in
    let e : even_part q ≤ q = omega arith in
    let f : q + 1 ≤ even_part q + 2 = omega arith in
    let lower : even_part q * k ≤ q * k = mul-le-mul_right k e in
    let upper : (q + 1) * k ≤ (even_part q + 2) * k = mul-le-mul_right k f in
    (omega arith, omega arith)

-- A quotient that a product bounds.
side-le : (a b c d : ℕ) → 0 < d → a * b ≤ c * d → even_part (a * b / d) ≤ c
side-le a b c d p h = let q : a * b / d ≤ c = div-le_of_le-mul d (omega arith) in omega arith

abbrev placed : ℕ → ℕ → ℕ → ℕ → Rect
placed output_w output_h rect_w rect_h = record {
  x = (output_w - rect_w) / 2;
  y = (output_h - rect_h) / 2;
  w = rect_w;
  h = rect_h;
}

place :
    (width height output_w output_h a b : ℕ)
    → 2 * a ≤ output_w
    → 2 * b ≤ output_h
    → 0 < a
    → 0 < b
    → ((output_w ≤ 2 * a + 1)
        × (2 * b * width ≤ output_w * height)
        × (output_w * height < (2 * b + 2) * width))
      ⊎ ((output_h ≤ 2 * b + 1)
          × (2 * a * height ≤ output_h * width)
          × (output_h * width < (2 * a + 2) * height))
    → IsFit width height output_w output_h (placed output_w output_h (2 * a) (2 * b))
place width height output_w output_h a b wa hb pa pb prop = record {
  inside = (omega arith, omega arith);
  centred = (omega arith, omega arith);
  even = (a, b, refl, refl, pa, pb);
  proportion = prop;
}

-- Which of the two ways the rectangle is fitted.
wide-IsFit :
    (width height output_w output_h : ℕ)
    → 0 < width
    → height * output_w < width * output_h
    → 0 < output_w / 2
    → 0 < output_w * height / width / 2
    → IsFit width height output_w output_h
        (placed output_w output_h (even_part output_w) (even_part (output_w * height / width)))
wide-IsFit width height output_w output_h p wide a b =
    let bounds = quotient-bounds (output_w * height) width p in
    let small = side-le output_w height output_h width p (omega arith) in
    place width height output_w output_h (output_w / 2) (output_w * height / width / 2)
      (omega arith) small a b (inl (omega arith, bounds.0, bounds.1))

tall-IsFit :
    (width height output_w output_h : ℕ)
    → 0 < height
    → width * output_h ≤ height * output_w
    → 0 < output_h / 2
    → 0 < output_h * width / height / 2
    → IsFit width height output_w output_h
        (placed output_w output_h (even_part (output_h * width / height)) (even_part output_h))
tall-IsFit width height output_w output_h p tall b a =
    let bounds = quotient-bounds (output_h * width) height p in
    let small = side-le output_h width output_w height p (omega arith) in
    place width height output_w output_h (output_h * width / height / 2) (output_h / 2) small
      (omega arith) a b (inr (omega arith, bounds.0, bounds.1))

-- What a test that lets a value through says.
passes :
    {A : Type 0} (blocked : Bool) (a b : A)
    → (if blocked then none else some a) ≡ some b
    → (blocked ≡ false) × (a ≡ b)
passes true a b h = absurd (ground arith)
passes false a b h = (refl, cc)

-- A picture of at least one pixel is shown, if its rectangle is not empty, where `IsFit` says.
pub fit_rect-IsFit :
    (width height output_w output_h : ℕ) (r : Rect)
    → 0 < width
    → 0 < height
    → fit_rect width height output_w output_h ≡ some r
    → IsFit width height output_w output_h r
unfolding fit_rect
fit_rect-IsFit width height output_w output_h r w h e =
    elim (Bool-cases (ltb (height * output_w) (width * output_h))) [
      | inl wide ↦
          let through = passes _ _ _ (rw wide at e) in
          subst (IsFit width height output_w output_h) through.1 (
            wide-IsFit width height output_w output_h w (ltb→lt _ _ wide)
              (ground (arith, through.0)) (ground (arith, through.0)))
      | inr tall ↦
          let through = passes _ _ _ (rw tall at e) in
          subst (IsFit width height output_w output_h) through.1 (
            tall-IsFit width height output_w output_h h (ground arith) (ground (arith, through.0))
              (ground (arith, through.0)))
    ]
