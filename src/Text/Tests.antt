-- ===== src/Text/Tests.antt =====
-- Runs of the string functions on concrete texts, and the theorems at them.
use qcap_demos.Prelude.{ℕ, ◌≤◌, ◌≡◌, refl, true, false, List, [], ◌∷◌, none, some, pos, negsuc}
use qcap_demos.Text.{atoul, atoulx, str_to_number, parse_number, max_32, max_64}
use qcap_demos.Text.Decimal.{AreDigits, decimal, atoul_lem}
use qcap_demos.Text.Env.{init_string, init_int, init_bool}

-- "4294967295" and "4294967296".
abbrev largest_32 : List ℕ
largest_32 = b'4' ∷ b'2' ∷ b'9' ∷ b'4' ∷ b'9' ∷ b'6' ∷ b'7' ∷ b'2' ∷ b'9' ∷ b'5' ∷ []

abbrev too_large : List ℕ
too_large = b'4' ∷ b'2' ∷ b'9' ∷ b'4' ∷ b'9' ∷ b'6' ∷ b'7' ∷ b'2' ∷ b'9' ∷ b'6' ∷ []

abbrev seven_f : List ℕ
seven_f = b'F' ∷ b'F' ∷ b'F' ∷ b'F' ∷ b'F' ∷ b'F' ∷ b'F' ∷ []

reads_largest : (atoul max_32 largest_32 ≡ (max_32, true)) × ((atoul max_32 too_large).1 ≡ false)
unfolding atoul
reads_largest = (refl, refl)

reads_hex : atoulx max_32 (b'1' ∷ b'f' ∷ []) ≡ (31, true)
unfolding atoulx
reads_hex = refl

prefix_alone : str_to_number max_64 (b'0' ∷ b'x' ∷ []) 9 ≡ (9, false)
unfolding str_to_number
prefix_alone = refl

falls_back : parse_number max_64 (b'a' ∷ []) 5 ≡ 5
unfolding parse_number
falls_back = refl

environment_values :
    (init_string none [] ≡ [])
    × (init_int (some largest_32) (pos 7) ≡ negsuc 0)
    × (init_bool (λ text. pos 0) (some too_large) true ≡ false)
unfolding init_string init_int init_bool str_to_number
environment_values = (refl, refl, refl)

atoul_lem_example :
    ((atoul max_32 largest_32).1 ≡ true → AreDigits largest_32 × (decimal 0 largest_32 ≤ max_32))
    × (AreDigits largest_32
        → decimal 0 largest_32 ≤ max_32
        → atoul max_32 largest_32 ≡ (decimal 0 largest_32, true))
atoul_lem_example = atoul_lem 429496729 max_32 refl largest_32
