-- ===== src/Text/Match.antt =====
-- Prefixes and substrings.
use qcap_demos.Prelude.{
  ℕ, ◌≡◌, refl, ap, ap₂, sym, ◌∙◌, true, ◌&&◌, List, [], ◌∷◌, ◌++◌, map, arith, ◌==◌, ==_iff, ◌↔◌,
  Bool-cases, inl, inr, &&-elim, subst,
}
use qcap_demos.Text.{to_upper, starts_with, matches_here, strstri}

finds : (a b : List ℕ) → starts_with a b ≡ true → (rest : List ℕ) × (a ≡ b ++ rest)
unfolding starts_with
finds a [] h = (a, refl)
finds [] (y ∷ ys) h = absurd (cc)
finds (x ∷ xs) (y ∷ ys) h =
    let parts = &&-elim (x == y) (starts_with xs ys) h in
    let (rest, e) = finds xs ys parts.1 in (rest, ap₂ ◌∷◌ ((==_iff x y).0 parts.0) e)

starts_with-append : (b rest : List ℕ) → starts_with (b ++ rest) b ≡ true
unfolding starts_with
starts_with-append [] rest = refl
starts_with-append (y ∷ ys) rest = ground (arith, starts_with-append ys rest)

-- `StartsWith` holds exactly of a string and one that it begins with.
pub starts_with_iff :
    (a b : List ℕ) → (starts_with a b ≡ true) ↔ ((rest : List ℕ) × (a ≡ b ++ rest))
starts_with_iff a b = (
  finds a b,
  λ (rest, e). subst (λ t. starts_with t b ≡ true) (sym e) (starts_with-append b rest),
)

-- The comparison in the loop is that of the strings in upper case.
matches_here-starts_with :
    (a b : List ℕ) → matches_here a b ≡ starts_with (map to_upper a) (map to_upper b)
unfolding matches_here starts_with
matches_here-starts_with a [] = refl
matches_here-starts_with [] (y ∷ ys) = refl
matches_here-starts_with (x ∷ xs) (y ∷ ys) =
    ap (λ t. to_upper x == to_upper y && t) (matches_here-starts_with xs ys)

-- `sub` stands in `src`, upper and lower case alike, at a place before its end.
pub record Contains (src sub : List ℕ) : Type 0 where
  pub before : List ℕ
  pub first : ℕ
  pub others : List ℕ
  pub split : src ≡ before ++ first ∷ others
  pub after : List ℕ
  pub match : map to_upper (first ∷ others) ≡ map to_upper sub ++ after

strstri_sound : (src sub : List ℕ) → strstri src sub ≡ true → Contains src sub
unfolding strstri
strstri_sound [] sub h = absurd (cc)
strstri_sound (x ∷ xs) sub h = elim (Bool-cases (matches_here (x ∷ xs) sub)) [
  | inl here ↦
      let (after, e) =
        finds (map to_upper (x ∷ xs)) (map to_upper sub)
          (sym (matches_here-starts_with (x ∷ xs) sub) ∙ here) in
      record { before = []; first = x; others = xs; split = refl; after = after; match = e }
  | inr later ↦
      let c = strstri_sound xs sub (rw later at h) in
      record {
        before = x ∷ c.before;
        first = c.first;
        others = c.others;
        split = ap (λ t. x ∷ t) c.split;
        after = c.after;
        match = c.match;
      }
]

strstri-append :
    (before : List ℕ) (x : ℕ) (xs sub : List ℕ)
    → matches_here (x ∷ xs) sub ≡ true
    → strstri (before ++ x ∷ xs) sub ≡ true
unfolding strstri
strstri-append [] x xs sub h = ground arith
strstri-append (y ∷ ys) x xs sub h = ground (arith, strstri-append ys x xs sub h)

-- `strstri` finds exactly the strings that stand in the other, whatever the case of their letters;
-- an empty string is found in every string but the empty one.
pub strstri_iff : (src sub : List ℕ) → (strstri src sub ≡ true) ↔ Contains src sub
strstri_iff src sub = (
  strstri_sound src sub,
  λ c.
      subst (λ t. strstri t sub ≡ true) (sym c.split)
        (strstri-append c.before c.first c.others sub (
          matches_here-starts_with (c.first ∷ c.others) sub
          ∙ subst (λ t. starts_with t (map to_upper sub) ≡ true) (sym c.match)
              (starts_with-append (map to_upper sub) c.after))),
)
