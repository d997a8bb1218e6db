-- ===== src/Modeset/Choice/Largest.antt =====
-- The fallback mode has the most pixels.
use qcap_demos.Prelude.{
  ◌≤◌, ◌≡◌, refl, Bool, true, false, ◌&&◌, List, [], ◌∷◌, Option, none, some, arith, if◌then◌else◌,
  inl, inr, Bool-cases, &&-elim, sym, subst,
}
use mathlib.Core.List.{Memᴰ}
use mathlib.Core.List.Memᴰ
use qcap_demos.Modeset.{Mode, Rates, compatible, area, improves, best_of, choose_from}

module _ {F : Type 0} (rates : Rates F) where
  improves-le : (best m : Mode) → improves rates (some best) m ≡ true → area best ≤ area m
  unfolding improves
  improves-le best m h = ground arith

  improves-ge : (best m : Mode) → improves rates (some best) m ≡ false → area m ≤ area best
  unfolding improves
  improves-ge best m h = ground arith

  -- The best mode only grows.
  best_of-grows :
      (is_sdi : Bool) (best : Mode) (ms : List Mode)
      → (b : Mode) × (best_of rates is_sdi (some best) ms ≡ some b) × (area best ≤ area b)
  unfolding best_of
  best_of-grows is_sdi best [] = (best, refl, omega arith)
  best_of-grows is_sdi best (m ∷ ms) =
      elim (Bool-cases (compatible rates is_sdi m && improves rates (some best) m)) [
        | inl better ↦
            let (b, e, le) = best_of-grows is_sdi m ms in
            (b, rw better e, omega (arith, improves-le best m (&&-elim _ _ better).1))
        | inr worse ↦ rw worse (best_of-grows is_sdi best ms)
      ]

  best_of-largest :
      (is_sdi : Bool) (best : Option Mode) (ms : List Mode) (x : Mode)
      → Memᴰ x ms
      → compatible rates is_sdi x ≡ true
      → (b : Mode) × (best_of rates is_sdi best ms ≡ some b) × (area x ≤ area b)
  unfolding best_of
  best_of-largest is_sdi best [] x i c = absurd (Memᴰ.not-nil i)
  best_of-largest is_sdi best (m ∷ ms) x (Memᴰ.tail i) c =
      best_of-largest is_sdi
        (if compatible rates is_sdi m && improves rates best m then some m else best) ms x i c
  best_of-largest is_sdi none (m ∷ ms) x (Memᴰ.head e) c =
      let taken : compatible rates is_sdi m ≡ true =
        subst (λ y. compatible rates is_sdi y ≡ true) e c in
      let (b, eq, le) = best_of-grows is_sdi m ms in
      (b, rw taken eq, subst (λ y. area y ≤ area b) (sym e) le)
  best_of-largest is_sdi (some best) (m ∷ ms) x (Memᴰ.head e) c =
      let taken : compatible rates is_sdi m ≡ true =
        subst (λ y. compatible rates is_sdi y ≡ true) e c in
      elim (Bool-cases (improves rates (some best) m)) [
        | inl better ↦
            let (b, eq, le) = best_of-grows is_sdi m ms in
            (b, rw (taken, better) eq, subst (λ y. area y ≤ area b) (sym e) le)
        | inr worse ↦
            let (b, eq, le) = best_of-grows is_sdi best ms in
            let smaller = improves-ge best m worse in
            (b, rw (taken, worse) eq, subst (λ y. area y ≤ area b) (sym e) (omega arith))
      ]

  -- When the display has no mode of the picture's size, one is chosen if any is compatible, and no
  -- compatible mode has more pixels.
  pub choose_from_largest :
      (is_sdi : Bool) (modes : List Mode) (x : Mode)
      → Memᴰ x modes
      → compatible rates is_sdi x ≡ true
      → (b : Mode) × (choose_from rates is_sdi modes none ≡ some b) × (area x ≤ area b)
  unfolding choose_from
  choose_from_largest is_sdi modes x i c = best_of-largest is_sdi none modes x i c
