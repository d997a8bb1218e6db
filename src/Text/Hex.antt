-- ===== src/Text/Hex.antt =====
-- Hexadecimal numbers: `atoulx` never wraps, but it refuses numbers that fit.
use qcap_demos.Prelude.{
  ℕ, ◌+◌, ◌*◌, ◌%◌, ◌≤◌, ◌<◌, ◌≡◌, refl, true, false, ◌&&◌, List, [], ◌∷◌, ◌++◌, arith, ltb, ◌↔◌,
  Bool-cases, inl, inr, &&-elim, ltb→lt, lt→ltb, sym, ◌∙◌,
}
use native.Mathlib.Decide.{dec_lt}
use qcap_demos.Text.{is_hex, to_upper, hex_digit, hex_limit, atoulx_from, atoulx, max_32}

abbrev pub AreHex : List ℕ → Type 0
AreHex [] = Unit {0}
AreHex (c ∷ cs) = (is_hex (to_upper c) ≡ true) × AreHex cs

abbrev pub hexadecimal : ℕ → List ℕ → ℕ
hexadecimal acc [] = acc
hexadecimal acc (c ∷ cs) = hexadecimal (acc * 16 + hex_digit (to_upper c)) cs

hex_digit_small : (c : ℕ) → is_hex c ≡ true → hex_digit c < 16
unfolding is_hex hex_digit
hex_digit_small c h = ground arith

hexadecimal-ge : (acc : ℕ) (cs : List ℕ) → acc ≤ hexadecimal acc cs
hexadecimal-ge acc [] = omega arith
hexadecimal-ge acc (c ∷ cs) = omega (arith, hexadecimal-ge (acc * 16 + hex_digit (to_upper c)) cs)

-- Below the limit there is room for one more digit.
no_wrap :
    (acc d : ℕ) → acc < hex_limit max_32 → d < 16 → (acc * 16 + d) % (max_32 + 1) ≡ acc * 16 + d
no_wrap acc d h k = omega arith

sound :
    (acc : ℕ) (cs : List ℕ)
    → (atoulx_from max_32 acc cs).1 ≡ true
    → AreHex cs × ((atoulx_from max_32 acc cs).0 ≡ hexadecimal acc cs)
unfolding atoulx_from
sound acc [] h = (tt, refl)
sound acc (c ∷ cs) h = elim (Bool-cases (is_hex (to_upper c) && ltb acc (hex_limit max_32))) [
  | inl taken ↦
      let hex = &&-elim (is_hex (to_upper c)) (ltb acc (hex_limit max_32)) taken in
      let small = hex_digit_small (to_upper c) hex.0 in
      let e = no_wrap acc (hex_digit (to_upper c)) (ltb→lt _ _ hex.1) small in
      let rest = sound (acc * 16 + hex_digit (to_upper c)) cs (rw (taken, e) at h) in
      ((hex.0, rest.0), rw (taken, e) (rest.1))
  | inr refused ↦ absurd (ground arith)
]

-- A number that has reached the limit takes no further digit.
refuses :
    (acc : ℕ) (cs : List ℕ) (d : ℕ) (rest : List ℕ)
    → hex_limit max_32 ≤ hexadecimal acc cs
    → (atoulx_from max_32 acc (cs ++ d ∷ rest)).1 ≡ false
unfolding atoulx_from
refuses acc [] d rest h = ground arith
refuses acc (c ∷ cs) d rest h =
    elim (Bool-cases (is_hex (to_upper c) && ltb acc (hex_limit max_32))) [
      | inl taken ↦
          let hex = &&-elim (is_hex (to_upper c)) (ltb acc (hex_limit max_32)) taken in
          let small = hex_digit_small (to_upper c) hex.0 in
          let e = no_wrap acc (hex_digit (to_upper c)) (ltb→lt _ _ hex.1) small in
          rw (taken, e) (refuses (acc * 16 + hex_digit (to_upper c)) cs d rest h)
      | inr refused ↦ rw refused
    ]

takes :
    (acc : ℕ) (cs : List ℕ) (d : ℕ)
    → AreHex (cs ++ d ∷ [])
    → hexadecimal acc cs < hex_limit max_32
    → (atoulx_from max_32 acc (cs ++ d ∷ [])).1 ≡ true
unfolding atoulx_from
takes acc [] d a h = rw (a.0, lt→ltb acc (hex_limit max_32) h)
takes acc (c ∷ cs) d a h =
    let small = hex_digit_small (to_upper c) a.0 in
    let ge = hexadecimal-ge (acc * 16 + hex_digit (to_upper c)) cs in
    let below : acc < hex_limit max_32 = omega arith in
    let e = no_wrap acc (hex_digit (to_upper c)) below small in
    rw (a.0, lt→ltb acc (hex_limit max_32) below, e)
      (takes (acc * 16 + hex_digit (to_upper c)) cs d a.1 h)

-- At 32 bits: a string that `atoulx` reads with success is all hexadecimal digits, and what is
-- stored is its value, with no wrap-around.
pub atoulx_sound :
    (cs : List ℕ)
    → (atoulx max_32 cs).1 ≡ true
    → AreHex cs × ((atoulx max_32 cs).0 ≡ hexadecimal 0 cs)
unfolding atoulx
atoulx_sound cs h = sound 0 cs h

-- At 32 bits: digits are refused exactly if those before the last have the value 0x7ffffff or more.
-- So every number from 0x7ffffff0 on is refused, although those below 0x100000000 fit the type.
pub atoulx_refuses :
    (cs : List ℕ) (d : ℕ)
    → AreHex (cs ++ d ∷ [])
    → ((atoulx max_32 (cs ++ d ∷ [])).1 ≡ false) ↔ (0x7ffffff ≤ hexadecimal 0 cs)
unfolding atoulx
atoulx_refuses cs d a = (
  λ e. elim (dec_lt (hexadecimal 0 cs) 0x7ffffff) [
    | yes small ↦ absurd (ne (sym (takes 0 cs d a small) ∙ e))
    | no large ↦ omega arith
  ],
  λ h. refuses 0 cs d [] h,
)
  where
    ne : true ≡ false → ⊥
    ne e = cc
