-- ===== src/RxOutput/Tests.antt =====
-- Runs of the SDI output's tests, and the theorems at them.
use qcap_demos.Prelude.{ℕ, ◌≡◌, refl, true, List, [], ◌∷◌, ◌++◌}
use qcap_demos.Text.{starts_with}
use qcap_demos.RxOutput.{sdi, hdmi, all_digits, from_product, sdi_product, sdi_card_id, normalized}

products : (from_product (sdi_product ++ b'2' ∷ []) ≡ sdi) × (from_product [] ≡ hdmi)
unfolding from_product starts_with
products = (refl, refl)

-- "xlnx-sdi_0".
abbrev card : List ℕ
card = b'x' ∷ b'l' ∷ b'n' ∷ b'x' ∷ b'-' ∷ b's' ∷ b'd' ∷ b'i' ∷ b'_' ∷ b'0' ∷ []

is_card : sdi_card_id card ≡ true
unfolding sdi_card_id normalized all_digits starts_with
is_card = refl
