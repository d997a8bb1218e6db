-- ===== src/Zz/FourCc.antt =====
-- src/zzlab/ZzUtils.h, src/zzlab/ZzUtils_string.cpp: codes of four characters. The characters are below 128,
-- so that their bits do not overlap and `|` adds; the hexadecimal digits of a number are an argument.
use qcap_demos.Prelude.{
  ℕ, ◌+◌, ◌*◌, ◌/◌, ◌%◌, ◌≤◌, ◌≡◌, refl, ap, ◌∙◌, Bool, true, false, ◌||◌, ◌&&◌, List, [], ◌∷◌,
  ◌++◌, leb, ◌==◌, if◌then◌else◌, arith,
}

unfoldable pub fourcc : ℕ → ℕ → ℕ → ℕ → ℕ
fourcc a b c d = a + b * 256 + c * 65536 + d * 16777216

abbrev pub is_alphanumeric : ℕ → Bool
is_alphanumeric a = (leb 97 a && leb a 122) || ((leb 65 a && leb a 90) || (leb 48 a && leb a 57))

-- Others are shown as `#`.
unfoldable pub fourcc_char : ℕ → ℕ
fourcc_char a = if is_alphanumeric a then a else 35

-- What stands before the number in parentheses.
unfoldable pub fourcc_name : ℕ → List ℕ
fourcc_name v =
    if v == 0
    then 82 ∷ 71 ∷ 66 ∷ 50 ∷ 52 ∷ []
    else (if v == 1
        then 66 ∷ 71 ∷ 82 ∷ 50 ∷ 52 ∷ []
        else (if v == 2
            then 65 ∷ 82 ∷ 71 ∷ 66 ∷ 51 ∷ 50 ∷ []
            else (if v == 3
                then 65 ∷ 66 ∷ 71 ∷ 82 ∷ 51 ∷ 50 ∷ []
                else fourcc_char (v % 256)
                  ∷ fourcc_char (v / 256 % 256)
                  ∷ fourcc_char (v / 65536 % 256)
                  ∷ fourcc_char (v / 16777216 % 256)
                  ∷ [])))

-- `(0x%08X)` after it.
unfoldable pub fourcc_to_str : (ℕ → List ℕ) → ℕ → List ℕ
fourcc_to_str hex v = fourcc_name v ++ (40 ∷ 48 ∷ 120 ∷ (hex v ++ (41 ∷ [])))

alphanumeric_bounds :
    (a : ℕ) → is_alphanumeric a ≡ true → (48 ≤ a) × (a ≤ 122) × (fourcc_char a ≡ a)
unfolding fourcc_char
alphanumeric_bounds a h = ground arith

fourcc_name-other :
    (v : ℕ)
    → 4 ≤ v
    → fourcc_name v
      ≡ fourcc_char (v % 256)
        ∷ fourcc_char (v / 256 % 256)
        ∷ fourcc_char (v / 65536 % 256)
        ∷ fourcc_char (v / 16777216 % 256)
        ∷ []
unfolding fourcc_name
fourcc_name-other v h =
    let not_0 : (v == 0) ≡ false = ground arith in
    let not_1 : (v == 1) ≡ false = ground arith in
    let not_2 : (v == 2) ≡ false = ground arith in
    let not_3 : (v == 3) ≡ false = ground arith in rw (not_0, not_1, not_2, not_3) refl

-- A code of four letters or digits is shown as these four.
fourcc_round :
    (a b c d : ℕ)
    → is_alphanumeric a ≡ true
    → is_alphanumeric b ≡ true
    → is_alphanumeric c ≡ true
    → is_alphanumeric d ≡ true
    → fourcc_name (fourcc a b c d) ≡ a ∷ b ∷ c ∷ d ∷ []
unfolding fourcc
fourcc_round a b c d ha hb hc hd =
    let (a_low, a_high, a_shown) = alphanumeric_bounds a ha in
    let (b_low, b_high, b_shown) = alphanumeric_bounds b hb in
    let (c_low, c_high, c_shown) = alphanumeric_bounds c hc in
    let (d_low, d_high, d_shown) = alphanumeric_bounds d hd in
    let v = fourcc a b c d in
    let first : v % 256 ≡ a = omega arith in
    let second : v / 256 % 256 ≡ b = omega arith in
    let third : v / 65536 % 256 ≡ c = omega arith in
    let fourth : v / 16777216 % 256 ≡ d = omega arith in
    fourcc_name-other v (omega arith) ∙ (λ i.
      (ap fourcc_char first ∙ a_shown) i
      ∷ (ap fourcc_char second ∙ b_shown) i
      ∷ (ap fourcc_char third ∙ c_shown) i
      ∷ (ap fourcc_char fourth ∙ d_shown) i
      ∷ [])
