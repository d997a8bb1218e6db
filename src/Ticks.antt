-- ===== src/Ticks.antt =====
-- src/utils/zdev-ticks-stat.cpp: the program that samples the four tick counters. This file is the text
-- of a counter and of a count, and one sample; `strtoull` is an argument.
pub mod Search
pub mod Stats
pub mod Loop
pub mod Totals
pub mod Main
mod Tests
use qcap_demos.Prelude.{
  ℕ, ◌+◌, ◌*◌, ◌/◌, ◌%◌, ◌^◌, Bool, true, false, ◌||◌, not, List, [], ◌∷◌, Option, none, some, ◌==◌,
  leb, if◌then◌else◌, add64, sub64,
}

-- `strtoull` in a base: the value, what follows it, whether anything was read, and ERANGE.
pub record Parsed : Type 0 where
  pub value : ℕ
  pub rest : List ℕ
  pub is_read : Bool
  pub is_out_of_range : Bool

abbrev pub is_blank : ℕ → Bool
is_blank c = c == 32 || (c == 9 || (c == 13 || c == 10))

unfoldable pub skip_blanks : List ℕ → List ℕ
skip_blanks [] = []
skip_blanks (c ∷ cs) = let rest = skip_blanks cs in if is_blank c then rest else c ∷ cs

abbrev pub is_end : List ℕ → Bool
is_end [] = true
is_end (c ∷ cs) = false

-- A text that goes on, and not with `-`.
abbrev pub is_unsigned : List ℕ → Bool
is_unsigned [] = false
is_unsigned (c ∷ cs) = not (c == 45)

-- `strtoull` in base 0 on what follows the blanks; `none` is `false`.
unfoldable pub parse_counter : (List ℕ → Parsed) → List ℕ → Option ℕ
parse_counter strtoull text =
    let begin = skip_blanks text in
    let p = strtoull begin in
    if is_unsigned begin
    then (if p.is_out_of_range || (not p.is_read || leb (2 ^ 32) p.value)
        then none
        else (if is_end (skip_blanks p.rest) then some p.value else none))
    else none

-- `strtoull` in base 10.
unfoldable pub parse_count : (List ℕ → Parsed) → List ℕ → Option ℕ
parse_count strtoull text =
    let p = strtoull text in
    if p.is_out_of_range || (not p.is_read || not (is_end p.rest)) then none else some p.value

pub record Sample : Type 0 where
  pub ticks : List ℕ
  pub timestamp_ns : ℕ

-- `read_clock_ns`, on what `clock_gettime` gives.
unfoldable pub read_clock_ns : Option (ℕ × ℕ) → Option ℕ
read_clock_ns none = none
read_clock_ns (some (sec, nsec)) = some (add64 (sec * 1000000000 % 2 ^ 64) nsec)

-- The line of each counter's file, if there is one.
unfoldable pub read_values : (List ℕ → Parsed) → List (Option (List ℕ)) → Option (List ℕ)
read_values strtoull [] = some []
read_values strtoull (none ∷ files) = none
read_values strtoull (some text ∷ files) = elim (parse_counter strtoull text) [
  | none ↦ none
  | some v ↦ elim (read_values strtoull files) [ none ↦ none | some vs ↦ some (v ∷ vs) ]
]

unfoldable pub midpoint : ℕ → ℕ → ℕ
midpoint before after = add64 before (sub64 after before / 2)

unfoldable pub read_sample :
    (List ℕ → Parsed) → Option (ℕ × ℕ) → List (Option (List ℕ)) → Option (ℕ × ℕ) → Option Sample
read_sample strtoull clock files clock' = elim (read_clock_ns clock) [
  | none ↦ none
  | some before ↦ elim (read_values strtoull files) [
    | none ↦ none
    | some values ↦ elim (read_clock_ns clock') [
      | none ↦ none
      | some after ↦ some (record { ticks = values; timestamp_ns = midpoint before after })
    ]
  ]
]
