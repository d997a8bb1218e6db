-- ===== src/RxOutput/Properties.antt =====
-- src/tests/sc6f0-dante-rx-output.h, `sdi_properties`, and src/tests/sc6f0-dante-rx.cpp, `add_output_properties`: what an
-- atomic request sets on the SDI connector. The codes of the media bus formats are arguments, and so is whether
-- the kernel knows a property and lets it be added.
use qcap_demos.Prelude.{
  ℕ, ◌≡◌, Bool, true, false, ◌&&◌, not, List, [], ◌∷◌, ◌++◌, ◌==◌, if◌then◌else◌, append-nil,
  append_assoc, sym, arith,
}
use qcap_demos.RxOutput.{sdi_mode}

pub data Name : Type 0 where
  sdi_mode_of sdi_data_stream is_frac sdi_420_in sdi_420_out sdi_444_out width_out height_out in_fmt
        out_fmt c_encoding :
      Name

pub record Codes : Type 0 where
  pub rgb888_1x24 : ℕ
  pub uyvy10_1x20 : ℕ

unfoldable pub sdi_properties : Codes → ℕ → ℕ → List (Name × ℕ)
sdi_properties codes width height =
    (sdi_mode_of, if width == 1920 then 2 else 5)
    ∷ (sdi_data_stream, if width == 1920 then 2 else 8)
    ∷ (is_frac, 0)
    ∷ (sdi_420_in, 0)
    ∷ (sdi_420_out, 0)
    ∷ (sdi_444_out, 0)
    ∷ (width_out, width)
    ∷ (height_out, height)
    ∷ (in_fmt, codes.rgb888_1x24)
    ∷ (out_fmt, codes.uyvy10_1x20)
    ∷ (c_encoding, 0)
    ∷ []

module _ (property_id : Name → ℕ) (adds : Name → ℕ → Bool) where
  -- The loop over the properties, with what was added to the request so far.
  unfoldable pub add_all : List (Name × ℕ) → List (ℕ × ℕ) → Bool × List (ℕ × ℕ)
  add_all [] request = (true, request)
  add_all ((name, value) ∷ rest) request =
      let id = property_id name in
      let later = add_all rest (request ++ ((id, value) ∷ [])) in
      let refused : Bool × List (ℕ × ℕ) = (false, request) in
      if not (id == 0) && adds name value then later else refused

  -- `at_60`, `clock_khz` and `interlaced` are those of the mode, as in `sdi_mode`.
  unfoldable pub add_output_properties :
      Codes → Bool → ℕ → ℕ → Bool → ℕ → Bool → List (ℕ × ℕ) → Bool × List (ℕ × ℕ)
  add_output_properties codes is_sdi width height at_60 clock_khz interlaced request =
      let added = add_all (sdi_properties codes width height) request in
      let kept : Bool × List (ℕ × ℕ) = (true, request) in
      let refused : Bool × List (ℕ × ℕ) = (false, request) in
      if not is_sdi
      then kept
      else (if sdi_mode width height at_60 clock_khz interlaced then added else refused)

  abbrev with_ids : List (Name × ℕ) → List (ℕ × ℕ)
  with_ids [] = []
  with_ids ((name, value) ∷ rest) = (property_id name, value) ∷ with_ids rest

  -- If all properties were added, the request has them all, in order, after what it had.
  pub add_all_lem :
      (ps : List (Name × ℕ)) (request : List (ℕ × ℕ))
      → (add_all ps request).0 ≡ true
      → (add_all ps request).1 ≡ request ++ with_ids ps
  unfolding add_all
  add_all_lem [] request h = sym (append-nil request)
  add_all_lem ((name, value) ∷ rest) request h =
      let id = property_id name in
      let later = add_all_lem rest (request ++ ((id, value) ∷ [])) in
      let moved = append_assoc request ((id, value) ∷ []) (with_ids rest) in ground arith
