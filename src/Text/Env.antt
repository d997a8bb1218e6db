-- ===== src/Text/Env.antt =====
-- src/zzlab/ZzUtils_env.cpp: parameters from the environment. What `getenv` gives, and `atoi`, are
-- arguments.
use qcap_demos.Prelude.{
  ℕ, ◌-◌, ◌^◌, ◌≤◌, ◌≡◌, refl, Bool, false, not, List, [], ◌∷◌, ◌++◌, Option, none, some, ltb, ◌==◌,
  if◌then◌else◌, ◌&&◌, ◌||◌, inl, inr, Bool-cases, ℤ, pos, negsuc, eqb_ℤ,
}
use qcap_demos.Text.{str_to_number, atoul, max_32}
use qcap_demos.Text.Decimal.{AreDigits, decimal, atoul_lem}
use qcap_demos.Text.Hex.{AreHex, hexadecimal, atoulx_refuses}

-- `InitEnvParam` for strings.
unfoldable pub init_string : Option (List ℕ) → List ℕ → List ℕ
init_string none default = default
init_string (some value) default = value

-- For uint32_t.
unfoldable pub init_u32 : Option (List ℕ) → ℕ → ℕ
init_u32 none default = default
init_u32 (some text) default =
    let (value, done) = str_to_number max_32 text 0 in if done then value else default

-- `(int)value` of a 32-bit pattern.
abbrev pub as_int : ℕ → ℤ
as_int w = if ltb w (2 ^ 31) then pos w else negsuc (2 ^ 32 - w - 1)

-- For int, and `qcap_get_env_int`.
unfoldable pub init_int : Option (List ℕ) → ℤ → ℤ
init_int none default = default
init_int (some text) default =
    let (value, done) = str_to_number max_32 text 0 in if done then as_int value else default

-- For bool.
unfoldable pub init_bool : (List ℕ → ℤ) → Option (List ℕ) → Bool → Bool
init_bool atoi none default = default
init_bool atoi (some text) default = not (eqb_ℤ (atoi text) (pos 0))

-- Text that does not begin with `0x` or `0X`.
abbrev pub IsPlain : List ℕ → Type 0
IsPlain [] = Unit {0}
IsPlain (a ∷ []) = Unit {0}
IsPlain (a ∷ b ∷ _) = a == b'0' && (b == b'x' || b == b'X') ≡ false

plain_atoul : (text : List ℕ) → IsPlain text → str_to_number max_32 text 0 ≡ atoul max_32 text
unfolding str_to_number
plain_atoul [] p = refl
plain_atoul (a ∷ []) p = refl
plain_atoul (a ∷ b ∷ []) p = rw p refl
plain_atoul (a ∷ b ∷ c ∷ cs) p = rw p refl

-- A text with no `0x` in front sets a uint32_t parameter to its value if it is all digits and its
-- value fits 32 bits, and to the default if not.
pub init_u32_lem :
    (text : List ℕ) (default : ℕ)
    → IsPlain text
    → (AreDigits text → decimal 0 text ≤ max_32 → init_u32 (some text) default ≡ decimal 0 text)
      × ((AreDigits text → decimal 0 text ≤ max_32 → ⊥) → init_u32 (some text) default ≡ default)
unfolding init_u32
init_u32_lem text default p =
    let read = atoul_lem 429496729 max_32 refl text in
    (
      λ d fits. rw (plain_atoul text p, read.1 d fits) refl,
      λ refused. elim (Bool-cases (atoul max_32 text).1) [
        | inl yes' ↦ let r = read.0 yes' in absurd (refused r.0 r.1)
        | inr no' ↦ rw (plain_atoul text p, no') refl
      ],
    )

-- A hexadecimal text sets a uint32_t parameter to the default exactly when the digits before its
-- last have the value 0x7ffffff or more, whatever the parameter: so `0xffffffff` is not read.
pub init_u32_hex :
    (first : ℕ) (mid : List ℕ) (last default : ℕ)
    → AreHex ((first ∷ mid) ++ last ∷ [])
    → 0x7ffffff ≤ hexadecimal 0 (first ∷ mid)
    → init_u32 (some (b'0' ∷ b'x' ∷ (first ∷ mid) ++ last ∷ [])) default ≡ default
unfolding init_u32 str_to_number
init_u32_hex first mid last default a h = rw ((atoulx_refuses (first ∷ mid) last a).1 h) refl
