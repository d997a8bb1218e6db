-- ===== src/Nal/Search.antt =====
-- The searches against the definition of a NAL unit by its three-byte start code.
use qcap_demos.Prelude.{
  ℕ, zero, suc, ◌+◌, ◌-◌, ◌%◌, ◌≤◌, ◌<◌, ◌≡◌, refl, min, Bool, true, false, ◌||◌, List, Option,
  none, some, ◌==◌, length, arith, ◌⊎◌, inl, inr, ◌↔◌, Bool-cases, Option-cases, ==_iff, subst, ap,
  sym, ◌∙◌,
}
use native.Mathlib.Decide.{dec_lt}
use qcap_demos.Nal.{
  byte, nal_at, Found, nothing_found, note_nal, classify_from, classify, has_idr_from, has_idr,
}

-- The bytes 0 0 1 stand at `i`, and a header of type `t` follows them.
pub record NalAt (xs : List ℕ) (t i : ℕ) : Type 0 where
  pub in_range : i + 3 < length xs
  pub first : byte xs i ≡ 0
  pub second : byte xs (i + 1) ≡ 0
  pub third : byte xs (i + 2) ≡ 1
  pub header : byte xs (i + 3) % 32 ≡ t

abbrev pub HasNal : List ℕ → ℕ → Type 0
HasNal xs t = (i : ℕ) × NalAt xs t i

-- A unit behind a four-byte code is one behind the three-byte code that ends it.
nal_at-NalAt :
    (xs : List ℕ) (i t : ℕ)
    → i + 3 < length xs
    → nal_at xs i ≡ some t
    → NalAt xs t i ⊎ NalAt xs t (i + 1)
unfolding nal_at
nal_at-NalAt xs i t h e = elim (Bool-cases (byte xs (i + 2) == 1)) [
  | inl three ↦ inl (ground arith)
  | inr four ↦ inr (ground arith)
]

NalAt-nal_at : (xs : List ℕ) (i t : ℕ) → NalAt xs t i → nal_at xs i ≡ some t
unfolding nal_at
NalAt-nal_at xs i t h = ground arith

-- A flag of `Found`, raised by the types that `hits` accepts.
module _ (flag : Found → Bool) (hits : ℕ → Bool)
    (skips : (f : Found) → flag (note_nal none f) ≡ flag f)
    (raises : (t : ℕ) (f : Found) → flag (note_nal (some t) f) ≡ (hits t || flag f)) where
  -- What raised the flag.
  Raised : List ℕ → Type 0
  Raised xs = (t : ℕ) × (hits t ≡ true) × HasNal xs t

  found-Raised :
      (xs : List ℕ) (i t : ℕ) → hits t ≡ true → NalAt xs t i ⊎ NalAt xs t (i + 1) → Raised xs
  unfolding Raised
  found-Raised xs i t h (inl a) = (t, h, (i, a))
  found-Raised xs i t h (inr a) = (t, h, (i + 1, a))

  classify_from_sound :
      (xs : List ℕ) (i n : ℕ) (f : Found)
      → (0 < n → i + n + 3 ≤ length xs)
      → flag (classify_from xs i n f) ≡ true
      → (flag f ≡ true) ⊎ Raised xs
  unfolding classify_from
  classify_from_sound xs i zero f h e = inl e
  classify_from_sound xs i (suc n) f h e =
      elim (classify_from_sound xs (i + 1) n (note_nal (nal_at xs i) f)
        (λ k. let b = h (omega arith) in omega arith) e) [
          | inr r ↦ inr r
          | inl now ↦ elim (Option-cases (nal_at xs i)) [
            | inl none_here ↦ inl (rw (← skips f) (rw none_here at now))
            | inr (t, here) ↦ elim (Bool-cases (hits t)) [
              | inl hit ↦ inr (
                  found-Raised xs i t hit
                    (nal_at-NalAt xs i t (let b = h (omega arith) in omega arith) here))
              | inr miss ↦ inl (ground (arith, raises t f))
            ]
          ]
        ]

  classify_from-kept :
      (xs : List ℕ) (i n : ℕ) (f : Found) → flag f ≡ true → flag (classify_from xs i n f) ≡ true
  unfolding classify_from
  classify_from-kept xs i zero f h = h
  classify_from-kept xs i (suc n) f h = classify_from-kept xs (i + 1) n _ (kept (nal_at xs i))
    where
      kept : (o : Option ℕ) → flag (note_nal o f) ≡ true
      kept none = rw (skips f) h
      kept (some t) = ground (arith, raises t f)

  classify_from_complete :
      (xs : List ℕ) (t j i n : ℕ) (f : Found)
      → hits t ≡ true
      → NalAt xs t j
      → i ≤ j
      → j < i + n
      → flag (classify_from xs i n f) ≡ true
  unfolding classify_from
  classify_from_complete xs t j i zero f h a l r = absurd (omega arith)
  classify_from_complete xs t j i (suc n) f h a l r = elim (dec_lt i j) [
    | yes later ↦
        classify_from_complete xs t j (i + 1) n (note_nal (nal_at xs i) f) h a (omega arith)
          (omega arith)
    | no now ↦
        let e : j ≡ i = omega arith in
        classify_from-kept xs (i + 1) n (note_nal (nal_at xs i) f)
          (rw (NalAt-nal_at xs i t (subst (NalAt xs t) e a), raises t f, h))
  ]

-- What the sink's search of the first 4096 bytes reports for one flag.
abbrev pub Reports : List ℕ → Bool → (ℕ → Bool) → Type 0
Reports xs b hits =
    (b ≡ true → (t : ℕ) × (hits t ≡ true) × HasNal xs t)
    × ((t j : ℕ) → hits t ≡ true → NalAt xs t j → j + 3 < 4096 → b ≡ true)

classify-Reports :
    (xs : List ℕ) (flag : Found → Bool) (hits : ℕ → Bool)
    → flag nothing_found ≡ false
    → ((f : Found) → flag (note_nal none f) ≡ flag f)
    → ((t : ℕ) (f : Found) → flag (note_nal (some t) f) ≡ (hits t || flag f))
    → Reports xs (flag (classify xs)) hits
unfolding classify Raised
classify-Reports xs flag hits z skips raises = (
  (λ e.
      elim (classify_from_sound flag hits skips raises xs 0 (min (length xs) 4096 - 3) nothing_found
        (λ k. omega arith) e) [ inl bad ↦ absurd (cc) | inr r ↦ r ]),
  (λ t j h a l.
      let b = a.in_range in
      classify_from_complete flag hits skips raises xs t j 0 (min (length xs) 4096 - 3)
        nothing_found h a (omega arith) (omega arith)),
)

skip_any : (f : Found) → (note_nal none f).any ≡ f.any
unfolding note_nal
skip_any f = refl

raise_any : (t : ℕ) (f : Found) → (note_nal (some t) f).any ≡ (true || f.any)
unfolding note_nal
raise_any t f = ground arith

skip_sps : (f : Found) → (note_nal none f).sps_pps ≡ f.sps_pps
unfolding note_nal
skip_sps f = refl

raise_sps : (t : ℕ) (f : Found) → (note_nal (some t) f).sps_pps ≡ ((t == 7 || t == 8) || f.sps_pps)
unfolding note_nal
raise_sps t f = ground arith

skip_idr : (f : Found) → (note_nal none f).idr ≡ f.idr
unfolding note_nal
skip_idr f = refl

raise_idr : (t : ℕ) (f : Found) → (note_nal (some t) f).idr ≡ ((t == 5) || f.idr)
unfolding note_nal
raise_idr t f = ground arith

skip_non : (f : Found) → (note_nal none f).non_idr ≡ f.non_idr
unfolding note_nal
skip_non f = refl

raise_non : (t : ℕ) (f : Found) → (note_nal (some t) f).non_idr ≡ ((t == 1) || f.non_idr)
unfolding note_nal
raise_non t f = ground arith

-- Each flag of the sink's search means what it says: if it is raised, the unit holds a NAL unit of
-- its types (7 or 8 for parameter sets, 5 for an IDR slice, 1 for another slice, any for `any`); and
-- if such a NAL unit's start code ends before byte 4096, the flag is raised.
pub classify_lem :
    (xs : List ℕ)
    → let f = classify xs in
      Reports xs f.any (λ t. true)
      × Reports xs f.sps_pps (λ t. t == 7 || t == 8)
      × Reports xs f.idr (λ t. t == 5)
      × Reports xs f.non_idr (λ t. t == 1)
classify_lem xs = (
  classify-Reports xs (λ f. f.any) (λ t. true) refl (λ f. skip_any f) (λ t f. raise_any t f),
  classify-Reports xs (λ f. f.sps_pps) (λ t. t == 7 || t == 8) refl (λ f. skip_sps f)
      (λ t f. raise_sps t f),
  classify-Reports xs (λ f. f.idr) (λ t. t == 5) refl (λ f. skip_idr f) (λ t f. raise_idr t f),
  classify-Reports xs (λ f. f.non_idr) (λ t. t == 1) refl (λ f. skip_non f) (λ t f. raise_non t f),
)

-- The feed's loop is the sink's, for one flag and without the bound.
has_idr_from-classify :
    (xs : List ℕ) (i n : ℕ) (f : Found) → has_idr_from xs i n f.idr ≡ (classify_from xs i n f).idr
unfolding has_idr_from classify_from
has_idr_from-classify xs i zero f = refl
has_idr_from-classify xs i (suc n) f =
    ap (has_idr_from xs (i + 1) n) (same (nal_at xs i))
    ∙ has_idr_from-classify xs (i + 1) n (note_nal (nal_at xs i) f)
  where
    same : (o : Option ℕ) → elim o [ none ↦ f.idr | some t ↦ t == 5 || f.idr ] ≡ (note_nal o f).idr
    same none = sym (skip_idr f)
    same (some t) = sym (raise_idr t f)

-- The decoder feed finds an IDR exactly if the unit holds a NAL unit of type 5.
pub has_idr_iff : (xs : List ℕ) → (has_idr xs ≡ true) ↔ HasNal xs 5
unfolding has_idr Raised
has_idr_iff xs =
    let n = length xs - 3 in
    let idr = λ (f : Found). f.idr in
    let five = λ (t : ℕ). t == 5 in
    (
      (λ e.
          elim (classify_from_sound idr five skip_idr raise_idr xs 0 n nothing_found
            (λ k. omega arith) (sym (has_idr_from-classify xs 0 n nothing_found) ∙ e)) [
              | inl bad ↦ absurd (cc)
              | inr (t, h, a) ↦ subst (HasNal xs) ((==_iff t 5).0 h) a
            ]),
      (λ (i, a).
          let b = a.in_range in
          has_idr_from-classify xs 0 n nothing_found
          ∙ classify_from_complete idr five skip_idr raise_idr xs 5 i 0 n nothing_found refl a
              (omega arith) (omega arith)),
    )
