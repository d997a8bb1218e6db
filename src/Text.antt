-- ===== src/Text.antt =====
-- src/zzlab/ZzUtils_string.cpp: numbers and searches in C strings. A string is the list of its bytes
-- before the terminator. `isdigit` and `toupper` are those of the C locale.
pub mod Decimal
pub mod Hex
pub mod Match
pub mod Env
mod Tests
use qcap_demos.Prelude.{
  ℕ, zero, suc, ◌+◌, ◌-◌, ◌*◌, ◌/◌, ◌%◌, ◌^◌, Bool, true, false, ◌&&◌, ◌||◌, not, List, [], ◌∷◌,
  Option, none, some, ltb, leb, ◌==◌, if◌then◌else◌,
}

unfoldable pub is_digit : ℕ → Bool
is_digit c = leb b'0' c && leb c b'9'

unfoldable pub to_upper : ℕ → ℕ
to_upper c = if leb b'a' c && leb c b'z' then c - 32 else c

unfoldable pub is_hex : ℕ → Bool
unfolding is_digit
is_hex c = is_digit c || (leb b'A' c && leb c b'F')

unfoldable pub hex_digit : ℕ → ℕ
hex_digit c = if leb c b'9' then c - b'0' else c - b'A' + 10

-- What a parse stores and whether it succeeds.
abbrev pub Parsed : Type 0
Parsed = ℕ × Bool

-- `atoul` at an unsigned type with the largest value `max`.
module _ (max : ℕ) where
  unfoldable pub atoul_from : ℕ → List ℕ → Parsed
  unfolding is_digit
  atoul_from result [] = (result, true)
  atoul_from result (c ∷ cs) =
      let rest = atoul_from ((result * 10 + c - 48) % (max + 1)) cs in
      if is_digit c && (ltb result (max / 10) || (result == max / 10 && ltb c b'6'))
      then rest
      else (result, false)

  unfoldable pub atoul : List ℕ → Parsed
  unfolding atoul_from
  atoul cs = atoul_from 0 cs

  -- `max >> 4 + 1` shifts by five.
  abbrev pub hex_limit : ℕ
  hex_limit = max / 2 ^ 5

  unfoldable pub atoulx_from : ℕ → List ℕ → Parsed
  unfolding is_hex to_upper hex_digit
  atoulx_from result [] = (result, true)
  atoulx_from result (c ∷ cs) =
      let rest = atoulx_from ((result * 16 + hex_digit (to_upper c)) % (max + 1)) cs in
      if is_hex (to_upper c) && ltb result hex_limit then rest else (result, false)

  unfoldable pub atoulx : List ℕ → Parsed
  unfolding atoulx_from
  atoulx cs = atoulx_from 0 cs

  -- `StrToNumber` and `StrToNumber64`: `before` is what the target holds.
  unfoldable pub str_to_number : List ℕ → ℕ → Parsed
  unfolding atoul atoulx
  str_to_number [] before = atoul []
  str_to_number (a ∷ []) before = atoul (a ∷ [])
  str_to_number (a ∷ b ∷ []) before =
      if a == b'0' && (b == b'x' || b == b'X') then (before, false) else atoul (a ∷ b ∷ [])
  str_to_number (a ∷ b ∷ c ∷ cs) before =
      if a == b'0' && (b == b'x' || b == b'X') then atoulx (c ∷ cs) else atoul (a ∷ b ∷ c ∷ cs)

  -- `ParseNumber` and `ParseNumber64`.
  unfoldable pub parse_number : List ℕ → ℕ → ℕ
  unfolding str_to_number
  parse_number cs default =
      let (value, done) = str_to_number cs 0 in if done then value else default

abbrev pub max_32 : ℕ
max_32 = 0xffff_ffff

abbrev pub max_64 : ℕ
max_64 = 0xffff_ffff_ffff_ffff

-- `StartsWith`: both strings are walked while neither has ended.
unfoldable pub starts_with : List ℕ → List ℕ → Bool
starts_with a [] = true
starts_with [] (y ∷ ys) = false
starts_with (x ∷ xs) (y ∷ ys) = x == y && starts_with xs ys

-- The inner loop of `strstri`: whether the rest of `sub` was used up.
unfoldable pub matches_here : List ℕ → List ℕ → Bool
unfolding to_upper
matches_here a [] = true
matches_here [] (y ∷ ys) = false
matches_here (x ∷ xs) (y ∷ ys) = to_upper x == to_upper y && matches_here xs ys

unfoldable pub strstri : List ℕ → List ℕ → Bool
strstri [] sub = false
strstri (x ∷ xs) sub = matches_here (x ∷ xs) sub || strstri xs sub
