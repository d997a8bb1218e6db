-- ===== src/Modeset/Choice.antt =====
-- What the choice of a mode promises.
pub mod Largest
use qcap_demos.Prelude.{
  ℕ, ◌≤◌, ◌≡◌, refl, Bool, true, false, ◌&&◌, ◌||◌, not, List, [], ◌∷◌, Option, none, some, arith,
  ltb, if◌then◌else◌, inl, inr, Bool-cases, &&-elim, sym, subst,
}
use mathlib.Core.List.{Memᴰ}
use mathlib.Core.List.Memᴰ
use qcap_demos.RxOutput.{sdi_size}
use qcap_demos.Modeset.{
  Mode, Rates, or_else, is_sdi_mode, has_shape, refresh_matched, is_preferred, first_loop,
  second_loop, find_matching_mode, compatible, area, improves, best_of, choose_from, choose_mode,
}

abbrev Holds : (Mode → Type 0) → Option Mode → Type 0
Holds q none = Unit {0}
Holds q (some m) = q m

or_else-Holds :
    (q : Mode → Type 0) (a b : Option Mode) → Holds q a → Holds q b → Holds q (or_else a b)
or_else-Holds q none b ha hb = hb
or_else-Holds q (some m) b ha hb = ha

module _ {F : Type 0} (rates : Rates F) where
  -- What holds of every mode that a loop may take holds of the one it returns.
  first_loop-Holds :
      (q : Mode → Type 0) (width height : ℕ) (framerate : F) (interlaced : Bool)
      (fallback : Option Mode) (ms : List Mode)
      → Holds q fallback
      → ((m : Mode) → Memᴰ m ms → has_shape rates width height interlaced m ≡ true → q m)
      → Holds q (first_loop rates width height framerate interlaced fallback ms)
  unfolding first_loop
  first_loop-Holds q width height framerate interlaced fallback [] f all = f
  first_loop-Holds q width height framerate interlaced fallback (m ∷ ms) f all =
      let later : (x : Mode) → Memᴰ x ms → has_shape rates width height interlaced x ≡ true → q x =
        λ x i s. all x (Memᴰ.tail i) s in
      elim (Bool-cases
        (has_shape rates width height interlaced m && refresh_matched rates framerate m)) [
          | inl hit ↦
              let mine = all m (Memᴰ.head refl) (&&-elim _ _ hit).0 in
              elim (Bool-cases (is_preferred rates width height interlaced m)) [
                | inl best ↦ rw (hit, best) mine
                | inr other ↦
                    rw (hit, other)
                      (first_loop-Holds q width height framerate interlaced
                        (or_else fallback (some m)) ms (or_else-Holds q fallback (some m) f mine)
                        later)
              ]
          | inr miss ↦
              rw miss (first_loop-Holds q width height framerate interlaced fallback ms f later)
        ]

  second_loop-Holds :
      (q : Mode → Type 0) (width height : ℕ) (interlaced : Bool) (ms : List Mode)
      → ((m : Mode) → Memᴰ m ms → has_shape rates width height interlaced m ≡ true → q m)
      → Holds q (second_loop rates width height interlaced ms)
  unfolding second_loop
  second_loop-Holds q width height interlaced [] all = tt
  second_loop-Holds q width height interlaced (m ∷ ms) all =
      elim (Bool-cases (has_shape rates width height interlaced m)) [
        | inl hit ↦ rw hit (all m (Memᴰ.head refl) hit)
        | inr miss ↦
            rw miss
              (second_loop-Holds q width height interlaced ms (λ x i s. all x (Memᴰ.tail i) s))
      ]

  best_of-Holds :
      (q : Mode → Type 0) (is_sdi : Bool) (best : Option Mode) (ms : List Mode)
      → Holds q best
      → ((m : Mode) → Memᴰ m ms → compatible rates is_sdi m ≡ true → q m)
      → Holds q (best_of rates is_sdi best ms)
  unfolding best_of
  best_of-Holds q is_sdi best [] f all = f
  best_of-Holds q is_sdi best (m ∷ ms) f all =
      let later : (x : Mode) → Memᴰ x ms → compatible rates is_sdi x ≡ true → q x =
        λ x i s. all x (Memᴰ.tail i) s in
      elim (Bool-cases (compatible rates is_sdi m && improves rates best m)) [
        | inl better ↦ rw better (
            best_of-Holds q is_sdi (some m) ms (all m (Memᴰ.head refl) (&&-elim _ _ better).0)
              later)
        | inr worse ↦ rw worse (best_of-Holds q is_sdi best ms f later)
      ]

  -- What the display pipeline takes: a progressive mode of the display's list, of at most 3840 by
  -- 2160 pixels, at most 594 MHz and at most 60.5 frames a second; and at the SDI output one of its
  -- exact timings.
  pub record IsUsable (is_sdi : Bool) (modes : List Mode) (m : Mode) : Type 0 where
    pub listed : Memᴰ m modes
    pub progressive : m.interlaced ≡ false
    pub width_fits : m.hdisplay ≤ 3840
    pub height_fits : m.vdisplay ≤ 2160
    pub clock_fits : m.clock ≤ 594000
    pub rate_fits : rates.above_60_5 (rates.mode_vrefresh m) ≡ false
    pub sdi_timing : is_sdi ≡ true → is_sdi_mode rates m ≡ true

  compatible-IsUsable :
      (is_sdi : Bool) (modes : List Mode) (m : Mode)
      → Memᴰ m modes
      → compatible rates is_sdi m ≡ true
      → IsUsable is_sdi modes m
  unfolding compatible
  compatible-IsUsable is_sdi modes m i c = record {
    listed = i;
    progressive = ground arith;
    width_fits = ground arith;
    height_fits = ground arith;
    clock_fits = ground arith;
    rate_fits = ground arith;
    sdi_timing = λ s. ground arith;
  }

  abbrev IsMatch : List Mode → ℕ → ℕ → Mode → Type 0
  IsMatch modes width height m = Memᴰ m modes × (has_shape rates width height false m ≡ true)

  find_matching_mode-Holds :
      (modes : List Mode) (width height : ℕ) (fps : F)
      → Holds (IsMatch modes width height) (find_matching_mode rates modes width height fps false)
  unfolding find_matching_mode
  find_matching_mode-Holds modes width height fps =
      let q = IsMatch modes width height in
      or_else-Holds q (first_loop rates width height fps false none modes)
        (second_loop rates width height false modes)
        (first_loop-Holds q width height fps false none modes tt (λ m i s. (i, s)))
        (second_loop-Holds q width height false modes (λ m i s. (i, s)))

  abbrev accepts : Bool → Mode → Bool
  accepts is_sdi m =
      not (is_sdi && not (is_sdi_mode rates m))
      && not (ltb 594000 m.clock || rates.above_60_5 (rates.mode_vrefresh m))

  match-IsUsable :
      (is_sdi : Bool) (modes : List Mode) (width height : ℕ) (m : Mode)
      → width ≤ 3840
      → height ≤ 2160
      → IsMatch modes width height m
      → accepts is_sdi m ≡ true
      → IsUsable is_sdi modes m
  unfolding has_shape
  match-IsUsable is_sdi modes width height m w h g a =
      let shape = g.1 in
      record {
        listed = g.0;
        progressive = ground arith;
        width_fits = ground arith;
        height_fits = ground arith;
        clock_fits = ground arith;
        rate_fits = ground arith;
        sdi_timing = λ s. ground arith;
      }

  choose_from-Holds :
      (is_sdi : Bool) (modes : List Mode) (width height : ℕ) (o : Option Mode)
      → width ≤ 3840
      → height ≤ 2160
      → Holds (IsMatch modes width height) o
      → Holds (IsUsable is_sdi modes) (choose_from rates is_sdi modes o)
  unfolding choose_from
  choose_from-Holds is_sdi modes width height none w h g =
      best_of-Holds (IsUsable is_sdi modes) is_sdi none modes tt (compatible-IsUsable is_sdi modes)
  choose_from-Holds is_sdi modes width height (some m) w h g =
      elim (Bool-cases (accepts is_sdi m)) [
        | inl a ↦ rw a (match-IsUsable is_sdi modes width height m w h g a)
        | inr r ↦ rw r (
            best_of-Holds (IsUsable is_sdi modes) is_sdi none modes tt
              (compatible-IsUsable is_sdi modes))
      ]

  -- For a picture of at most 3840 by 2160: the mode that is chosen is one that the display pipeline
  -- takes.
  pub choose_mode-IsUsable :
      (is_sdi : Bool) (modes : List Mode) (width height : ℕ) (fps : F) (m : Mode)
      → width ≤ 3840
      → height ≤ 2160
      → choose_mode rates is_sdi modes width height fps ≡ some m
      → IsUsable is_sdi modes m
  unfolding choose_mode
  choose_mode-IsUsable is_sdi modes width height fps m w h e =
      elim (Bool-cases (is_sdi && (not (sdi_size width height) || not (rates.sixty fps)))) [
        | inl refused ↦ absurd (ground arith)
        | inr tried ↦ subst (Holds (IsUsable is_sdi modes)) (rw tried at e) (
            choose_from-Holds is_sdi modes width height
              (find_matching_mode rates modes width height fps false) w h
              (find_matching_mode-Holds modes width height fps))
      ]
