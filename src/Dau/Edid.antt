-- ===== src/Dau/Edid.antt =====
-- The EDID that the receiver answers with.
use qcap_demos.Prelude.{
  ℕ, zero, suc, ap, &&-elim, ◌-◌, ◌%◌, ◌/◌, ◌≤◌, ◌≡◌, refl, Bool, true, false, List, [], ◌∷◌, ◌++◌,
  Option, none, some, min, length, take, replicate, arith, ltb, ◌==◌, ==_iff, Option-cases,
  append-nil, Bool-cases, inl, inr, subst, sym, ◌∙◌, length-append, length-take, length-replicate,
}
use qcap_demos.Text.{starts_with}
use qcap_demos.Text.Match.{starts_with_iff}
use qcap_demos.RxOutput.{
  is_valid_edid, blocks_valid, sum_of, edid_header, sdi_capabilities, sdi_size,
}
use qcap_demos.RxOutput.Edid.{sdi_capabilities_lem}
use qcap_demos.Dau.{
  edid_len, g_fallback_edid, read_connector_edid, Fixed, sdi_edid, or_fallback, dau_get_edid,
}

-- 256 bytes whose first block has the header and a right checksum.
abbrev pub IsAnswer : Option (List ℕ) → Type 0
IsAnswer none = Unit {0}
IsAnswer (some e) = (length e ≡ edid_len) × (is_valid_edid (take 128 e) ≡ true)

take-take-append : (n : ℕ) (e z : List ℕ) → n ≤ length e → take n (take n (e ++ z)) ≡ take n e
take-take-append zero e z h = refl
take-take-append (suc n) [] z h = absurd (omega arith)
take-take-append (suc n) (x ∷ e) z h = ap (λ l. x ∷ l) (take-take-append n e z (omega arith))

first_sum :
    (n : ℕ) (e : List ℕ) → 1 ≤ n → blocks_valid n e ≡ true → (sum_of (take 128 e) % 256 == 0) ≡ true
unfolding blocks_valid
first_sum zero e h b = absurd (omega arith)
first_sum (suc n) e h b = (&&-elim _ _ b).0

header-kept :
    (e z : List ℕ)
    → starts_with e edid_header ≡ true
    → starts_with (take 128 (e ++ z)) edid_header ≡ true
unfolding starts_with
header-kept e z h =
    let (rest, split) = (starts_with_iff e edid_header).0 h in
    subst (λ x. starts_with (take 128 (x ++ z)) edid_header ≡ true) (sym split) refl

-- A valid EDID stays valid with anything behind it and only its first block read.
first_block_valid :
    (e z : List ℕ) → is_valid_edid e ≡ true → is_valid_edid (take 128 (e ++ z)) ≡ true
unfolding is_valid_edid
first_block_valid e z v =
    let long : 128 ≤ length e = ground arith in
    let header : starts_with e edid_header ≡ true = ground arith in
    let sums : blocks_valid (min 2 (length e / 128)) e ≡ true = ground arith in
    let block = take 128 (e ++ z) in
    let size : length block ≡ 128 = length-take 128 (e ++ z) ∙ (omega (arith, length-append e z)) in
    let sum : (sum_of (take 128 block) % 256 == 0) ≡ true =
      rw (take-take-append 128 e z long)
        (first_sum (min 2 (length e / 128)) e (omega arith) sums) in
    rw (size, header-kept e z header) (rw sum refl)

fallback-IsAnswer : IsAnswer (some g_fallback_edid)
unfolding g_fallback_edid is_valid_edid starts_with
fallback-IsAnswer = (refl, refl)

read-IsAnswer : (blob : Option (List ℕ)) → IsAnswer (read_connector_edid blob)
unfolding read_connector_edid
read-IsAnswer none = tt
read-IsAnswer (some blob) =
    let n = min (length blob) edid_len in
    let copied = take n blob in
    elim (Bool-cases (ltb (length blob) 128)) [
      | inl short ↦ rw short tt
      | inr long ↦ elim (Bool-cases (is_valid_edid copied)) [
        | inl valid ↦
            let zeros = replicate (edid_len - n) 0 in
            let size : length (copied ++ zeros) ≡ edid_len = omega (
              arith,
              length-append copied zeros,
              length-take n blob,
              length-replicate {A = ℕ} (edid_len - n) 0,
            ) in
            rw (long, valid) (size, first_block_valid copied zeros valid)
        | inr bad ↦ rw (long, bad) tt
      ]
    ]

or_fallback-IsAnswer : (o : Option (List ℕ)) → IsAnswer o → IsAnswer (some (or_fallback o))
unfolding or_fallback
or_fallback-IsAnswer none h = fallback-IsAnswer
or_fallback-IsAnswer (some e) h = h

abbrev IsWhole : Option (List ℕ) → Type 0
IsWhole none = Unit {0}
IsWhole (some e) = (is_valid_edid e ≡ true) × (length e ≡ 256)

described :
    (width height fps : ℕ) (e : List ℕ)
    → sdi_capabilities width height fps ≡ some e
    → (is_valid_edid e ≡ true) × (length e ≡ 256)
described width height fps e eq =
    let l = sdi_capabilities_lem width height fps in
    elim (Bool-cases (sdi_size width height)) [
      | inl y ↦ elim (Bool-cases (fps == 60)) [
        | inl sixty ↦
            let (x, found, d) = l.0 y ((==_iff fps 60).0 sixty) in
            let same : some x ≡ some e = sym found ∙ eq in subst IsWhole same (d.0, d.1)
        | inr other ↦ absurd (ground (arith, l.1 (inr (λ f. ground (arith, f))), eq))
      ]
      | inr n ↦ absurd (ground (arith, l.1 (inl n), eq))
    ]

sdi-IsAnswer : (fixed : Option Fixed) → IsAnswer (sdi_edid fixed)
unfolding sdi_edid
sdi-IsAnswer none = tt
sdi-IsAnswer (some f) = elim (Option-cases (sdi_capabilities f.width f.height f.fps)) [
  | inl no' ↦ rw no' tt
  | inr (e, eq) ↦
      let d = described f.width f.height f.fps e eq in
      rw eq (
        d.1,
        subst (λ x. is_valid_edid x ≡ true) (rw (append-nil e) refl) (first_block_valid e [] d.0),
      )
]

-- Whatever the display gives, an EDID that the receiver answers with, be it the SDI output's, the
-- display's or the fallback, has 256 bytes, and its first block has the header and the checksum of
-- an EDID. At the HDMI output there is always one.
pub dau_get_edid_lem :
    (is_sdi : Bool) (fixed : Option Fixed) (blob : Option (List ℕ))
    → IsAnswer (dau_get_edid is_sdi fixed blob)
      × (is_sdi ≡ false → dau_get_edid is_sdi fixed blob ≡ none → ⊥)
unfolding dau_get_edid
dau_get_edid_lem is_sdi fixed blob = elim (Bool-cases is_sdi) [
  | inl s ↦ rw s (sdi-IsAnswer fixed, λ f. absurd (ground arith))
  | inr h ↦ rw h (
    or_fallback-IsAnswer (read_connector_edid blob) (read-IsAnswer blob),
    λ f e. absurd (ground arith),
  )
]
