-- ===== src/Text/Decimal.antt =====
-- Decimal numbers: what `atoul` accepts, and what it stores.
use qcap_demos.Prelude.{
  ℕ, ◌+◌, ◌-◌, ◌*◌, ◌/◌, ◌%◌, ◌≤◌, ◌≡◌, refl, Bool, true, ◌&&◌, ◌||◌, List, [], ◌∷◌, arith, ltb,
  ◌==◌, ◌↔◌, Bool-cases, inl, inr,
}
use native.Mathlib.Nat.{mod-eq_of_lt}
use qcap_demos.Text.{is_digit, atoul_from, atoul}

abbrev pub AreDigits : List ℕ → Type 0
AreDigits [] = Unit {0}
AreDigits (c ∷ cs) = (b'0' ≤ c) × (c ≤ b'9') × AreDigits cs

-- The number that digits stand for, behind a number read already.
abbrev pub decimal : ℕ → List ℕ → ℕ
decimal acc [] = acc
decimal acc (c ∷ cs) = decimal (acc * 10 + (c - b'0')) cs

decimal-ge : (acc : ℕ) (cs : List ℕ) → acc ≤ decimal acc cs
decimal-ge acc [] = omega arith
decimal-ge acc (c ∷ cs) = omega (arith, decimal-ge (acc * 10 + (c - b'0')) cs)

-- Both widths have a largest value that ends in 5, which is what the test `< '6'` relies on.
module _ (tenth max : ℕ) (ends_in_5 : max ≡ 10 * tenth + 5) where
  abbrev accepts : ℕ → ℕ → Bool
  accepts acc c = is_digit c && (ltb acc (max / 10) || (acc == max / 10 && ltb c b'6'))

  -- The test before a digit is taken asks exactly whether the number with that digit still fits.
  accepts_iff :
      (acc c : ℕ)
      → (accepts acc c ≡ true) ↔ ((b'0' ≤ c) × (c ≤ b'9') × (acc * 10 + (c - b'0') ≤ max))
  unfolding is_digit
  accepts_iff acc c = (λ h. ground arith, λ h. ground arith)

  no_wrap :
      (acc c : ℕ)
      → b'0' ≤ c
      → acc * 10 + (c - b'0') ≤ max
      → (acc * 10 + c - 48) % (max + 1) ≡ acc * 10 + (c - b'0')
  no_wrap acc c d h =
      let e : acc * 10 + c - 48 ≡ acc * 10 + (c - b'0') = omega arith in
      rw e (mod-eq_of_lt (omega arith))

  reads :
      (acc : ℕ) (cs : List ℕ)
      → AreDigits cs
      → decimal acc cs ≤ max
      → atoul_from max acc cs ≡ (decimal acc cs, true)
  unfolding atoul_from
  reads acc [] d h = refl
  reads acc (c ∷ cs) d h =
      let next = acc * 10 + (c - b'0') in
      let below = decimal-ge next cs in
      rw ((accepts_iff acc c).1 (d.0, d.1, omega arith), no_wrap acc c d.0 (omega arith))
        (reads next cs d.2 h)

  only :
      (acc : ℕ) (cs : List ℕ)
      → acc ≤ max
      → (atoul_from max acc cs).1 ≡ true
      → AreDigits cs × (decimal acc cs ≤ max)
  unfolding atoul_from
  only acc [] l h = (tt, l)
  only acc (c ∷ cs) l h = elim (Bool-cases (accepts acc c)) [
    | inl yes' ↦
        let fits = (accepts_iff acc c).0 yes' in
        let rest =
          only (acc * 10 + (c - b'0')) cs fits.2 (rw (yes', no_wrap acc c fits.0 fits.2) at h) in
        ((fits.0, fits.1, rest.0), rest.1)
    | inr no' ↦ absurd (ground arith)
  ]

  -- At 32 and at 64 bits: a string is read as a number, with success, exactly if it is all digits
  -- and its value fits the type, and then its value is what is stored. So the digit by digit
  -- overflow test neither wraps nor refuses a number that fits.
  pub atoul_lem :
      (cs : List ℕ)
      → ((atoul max cs).1 ≡ true → AreDigits cs × (decimal 0 cs ≤ max))
        × (AreDigits cs → decimal 0 cs ≤ max → atoul max cs ≡ (decimal 0 cs, true))
  unfolding atoul
  atoul_lem cs = (only 0 cs (omega arith), reads 0 cs)
