-- ===== src/Prelude/Strings.antt =====
-- Strings as lists of bytes: what `strcmp` and `strncmp` test.
use Prim.Native.Nat.{ℕ}
use mathlib.Core.Bool.{Bool, true, false, ◌&&◌}
use mathlib.Core.List.{List, [], ◌∷◌}
use mathlib.Core.Path.{◌≡◌, refl, ap₂}
use native.Mathlib.Omega.{arith}
use qcap_demos.Prelude.Tests.{◌==◌}

-- `strcmp` gives 0.
abbrev pub is_text : List ℕ → List ℕ → Bool
is_text [] [] = true
is_text [] (b ∷ bs) = false
is_text (a ∷ cs) [] = false
is_text (a ∷ cs) (b ∷ bs) = a == b && is_text cs bs

pub is_text→≡ : (xs ys : List ℕ) → is_text xs ys ≡ true → xs ≡ ys
is_text→≡ [] [] h = refl
is_text→≡ [] (y ∷ ys) h = absurd (ground arith)
is_text→≡ (x ∷ xs) [] h = absurd (ground arith)
is_text→≡ (x ∷ xs) (y ∷ ys) h =
    let same : x ≡ y = ground arith in
    let rest : is_text xs ys ≡ true = ground arith in
    ap₂ (λ z zs. z ∷ zs) same (is_text→≡ xs ys rest)

-- `strncmp(text, prefix, length)` gives 0.
abbrev pub has_prefix : List ℕ → List ℕ → Bool
has_prefix [] text = true
has_prefix (p ∷ ps) [] = false
has_prefix (p ∷ ps) (c ∷ cs) = p == c && has_prefix ps cs
