-- ===== src/RxOutput/Card.antt =====
-- The names of the ALSA cards that belong to the SDI output.
use qcap_demos.Prelude.{
  ℕ, ◌≡◌, refl, true, List, [], ◌∷◌, ◌++◌, arith, ◌↔◌, length, drop, Bool-cases, inl, inr,
}
use qcap_demos.Text.{starts_with}
use qcap_demos.Text.Match.{starts_with_iff}
use qcap_demos.Text.Decimal.{AreDigits}
use qcap_demos.RxOutput.{normalized, all_digits, sdi_card_id, card_prefix}

all_digits_iff : (cs : List ℕ) → (all_digits cs ≡ true) ↔ AreDigits cs
unfolding all_digits
all_digits_iff [] = (λ h. tt, λ h. refl)
all_digits_iff (c ∷ cs) =
    let rest = all_digits_iff cs in
    (
      λ h. (ground arith, ground arith, rest.0 (ground arith)),
      λ h. ground (arith, h.0, h.1, rest.1 h.2),
    )

drop-prefix : (a b : List ℕ) → drop (length a) (a ++ b) ≡ b
drop-prefix [] b = refl
drop-prefix (x ∷ xs) b = drop-prefix xs b

-- A card belongs to the SDI output exactly if its name, with `-` and `_` taken out, is `xlnxsdi`
-- and then digits only.
pub sdi_card_id_iff :
    (id : List ℕ)
    → (sdi_card_id id ≡ true)
      ↔ ((digits : List ℕ) × (normalized id ≡ card_prefix ++ digits) × AreDigits digits)
unfolding sdi_card_id
sdi_card_id_iff id =
    let is_prefix = starts_with_iff (normalized id) card_prefix in
    (
      λ h. elim (Bool-cases (starts_with (normalized id) card_prefix)) [
        | inl yes' ↦
            let (rest, split) = is_prefix.0 yes' in
            (rest, split, (all_digits_iff rest).0 (rw (yes', split) at h))
        | inr no' ↦ absurd (ground arith)
      ],
      λ (digits, split, d). rw (is_prefix.1 (digits, split), split) ((all_digits_iff digits).1 d),
    )
