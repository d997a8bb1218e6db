-- ===== src/Pcm/Playback/Samples.antt =====
-- The sample conversion, byte by byte.
use qcap_demos.Prelude.{ℕ, zero, suc, ◌*◌, ◌/◌, ◌%◌, ◌<◌, ◌≡◌, refl, List, [], ◌∷◌, length, arith}
use qcap_demos.Pcm.Playback.{convert, load_32, shift_right_8}

abbrev pub AreBytes : List ℕ → Type 0
AreBytes [] = Unit {0}
AreBytes (b ∷ bs) = (b < 256) × AreBytes bs

-- What an S24_LE slot should hold of an S32LE sample: its three upper bytes, and no more.
abbrev pub upper_24 : List ℕ → List ℕ
upper_24 (b0 ∷ b1 ∷ b2 ∷ b3 ∷ rest) = b1 ∷ b2 ∷ b3 ∷ 0 ∷ upper_24 rest
upper_24 _ = []

slot :
    (b0 b1 b2 b3 : ℕ)
    → b0 < 256
    → b1 < 256
    → b2 < 256
    → b3 < 256
    → let w = shift_right_8 (load_32 b0 b1 b2 b3) in
      (w % 256 ≡ b1) × (w / 256 % 256 ≡ b2) × (w / 65536 % 256 ≡ b3)
slot b0 b1 b2 b3 h0 h1 h2 h3 = ground arith

-- On bytes, the arithmetic shift and the three stores move each sample's upper 24 bits, sign
-- included, to the low end of its slot, and clear the fourth byte.
pub convert-eq-upper_24 : (xs : List ℕ) → AreBytes xs → convert xs ≡ upper_24 xs
unfolding convert
convert-eq-upper_24 (b0 ∷ b1 ∷ b2 ∷ b3 ∷ rest) h =
    let s = slot b0 b1 b2 b3 h.0 h.1.0 h.1.1.0 h.1.1.1.0 in
    let ih = convert-eq-upper_24 rest h.1.1.1.1 in cc
convert-eq-upper_24 _ h = refl

-- The length of what is converted, for whole samples.
pub length-convert : (k : ℕ) (xs : List ℕ) → length xs ≡ 4 * k → length (convert xs) ≡ 4 * k
unfolding convert
length-convert zero [] h = omega arith
length-convert zero (b ∷ bs) h = absurd (omega arith)
length-convert (suc k) (b0 ∷ b1 ∷ b2 ∷ b3 ∷ rest) h =
    omega (arith, length-convert k rest (omega arith))
length-convert (suc k) _ h = absurd (omega arith)
