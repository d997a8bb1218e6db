-- ===== src/RxOutput/Edid.antt =====
-- The descriptor that the SDI output advertises.
use qcap_demos.Prelude.{
  ℕ, ◌≡◌, refl, true, false, List, none, some, arith, ◌⊎◌, inl, inr, length, take, drop, ◌==◌,
  if◌then◌else◌, Bool-cases, ==_iff,
}
use qcap_demos.Text.{starts_with}
use qcap_demos.RxOutput.{sdi_size, sdi_capabilities, is_valid_edid, hd, uhd}

-- What a reader of the descriptor relies on.
abbrev pub IsDescriptor : ℕ → List ℕ → Type 0
IsDescriptor width e =
    (is_valid_edid e ≡ true)
    × (length e ≡ 256)
    × (take 18 (drop 54 e) ≡ (if width == 1920 then hd else uhd))

hd_descriptor : (e : List ℕ) × (sdi_capabilities 1920 1080 60 ≡ some e) × IsDescriptor 1920 e
unfolding sdi_capabilities is_valid_edid starts_with
hd_descriptor = (_, refl, (refl, refl, refl))

uhd_descriptor : (e : List ℕ) × (sdi_capabilities 3840 2160 60 ≡ some e) × IsDescriptor 3840 e
unfolding sdi_capabilities is_valid_edid starts_with
uhd_descriptor = (_, refl, (refl, refl, refl))

-- The two sizes.
size-cases :
    (width height : ℕ)
    → sdi_size width height ≡ true
    → ((width ≡ 1920) × (height ≡ 1080)) ⊎ ((width ≡ 3840) × (height ≡ 2160))
unfolding sdi_size
size-cases width height h = ground arith

accepted :
    (width height fps : ℕ)
    → sdi_size width height ≡ true
    → fps ≡ 60
    → (e : List ℕ) × (sdi_capabilities width height fps ≡ some e) × IsDescriptor width e
accepted width height fps s r = elim (size-cases width height s) [
  | inl hd' ↦ rw (hd'.0, hd'.1, r) hd_descriptor
  | inr uhd' ↦ rw (uhd'.0, uhd'.1, r) uhd_descriptor
]

refused :
    (width height fps : ℕ)
    → sdi_size width height ≡ false ⊎ (fps ≡ 60 → ⊥)
    → sdi_capabilities width height fps ≡ none
unfolding sdi_capabilities
refused width height fps (inl s) = rw s refl
refused width height fps (inr r) = elim (Bool-cases (fps == 60)) [
  | inl yes' ↦ absurd (r ((==_iff fps 60).0 yes'))
  | inr no' ↦ elim (Bool-cases (sdi_size width height)) [
    | inl y ↦ rw (y, no') refl
    | inr n ↦ rw n refl
  ]
]

-- At a size of the SDI output and 60 frames a second there is a descriptor: 256 bytes that the EDID
-- test of the receiver accepts, with the timing of that size as its first detailed timing. At any
-- other size or rate there is none.
pub sdi_capabilities_lem :
    (width height fps : ℕ)
    → (sdi_size width height ≡ true
        → fps ≡ 60
        → (e : List ℕ) × (sdi_capabilities width height fps ≡ some e) × IsDescriptor width e)
      × (sdi_size width height ≡ false ⊎ (fps ≡ 60 → ⊥) → sdi_capabilities width height fps ≡ none)
sdi_capabilities_lem width height fps = (accepted width height fps, refused width height fps)
