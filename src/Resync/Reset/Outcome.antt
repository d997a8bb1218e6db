-- ===== src/Resync/Reset/Outcome.antt =====
-- src/tests/sc6f0-dante-rx.cpp, `reinitialize_sdi_output`: what becomes of the output and of the blob.
use qcap_demos.Prelude.{
  ℕ, suc, ◌≡◌, refl, Bool, true, false, ◌&&◌, List, [], ◌∷◌, ◌++◌, Option, none, some, ◌==◌,
  if◌then◌else◌, arith, Bool-cases, either, inl, inr, ◌⊎◌,
}
use qcap_demos.Modeset.{Mode}
use qcap_demos.Resync.Reset.{
  Output, Known, Answers, Done, Call, create_blob, destroy_blob, test, commit, apply, as_expected,
  has_own_mode, roll_back, off_and_on, with_blob, reinitialize_sdi_output,
}

-- The output in the same mode, from another blob.
abbrev pub in_blob : ℕ → Output → Output
in_blob blob o = record o { mode_id = blob }

-- The output switched off, and otherwise as it was.
abbrev pub switched_off : Output → Output
switched_off o = record o { is_active = false }

-- A reset that succeeds from a new blob; one that fails with the output as it was; and one that is stuck between the
-- commit that switches the output off and a rollback that is not accepted.
abbrev pub Succeeds : ℕ → Output → Done → Type 0
Succeeds blob o r = (r.ok ≡ true) × (r.output ≡ in_blob blob o)

abbrev pub FailsAsItWas : Output → Done → Type 0
FailsAsItWas o r = (r.ok ≡ false) × (r.output ≡ o)

abbrev pub FailsDark : Answers → Output → Done → Type 0
FailsDark a o r =
    (r.ok ≡ false)
    × (r.output ≡ switched_off o)
    × (a.commits_off ≡ true)
    × (a.commits_on ≡ false)
    × (a.restores_mode && a.commits_back ≡ false)

abbrev pub Ends : Answers → ℕ → Output → Done → Type 0
Ends a blob o r = Succeeds blob o r ⊎ (FailsAsItWas o r ⊎ FailsDark a o r)

off_and_on-Ends :
    (a : Answers) (blob : ℕ) (o : Output) → o.is_active ≡ true → Ends a blob o (off_and_on a blob o)
unfolding off_and_on roll_back apply
off_and_on-Ends a blob o h = elim (Bool-cases a.commits_off) [
  | inl off ↦ elim (Bool-cases a.commits_on) [
    | inl on ↦ inl (ground arith, ground arith)
    | inr refused ↦ elim (Bool-cases (a.restores_mode && a.commits_back)) [
      | inl back ↦ inr (inl (ground arith, ground arith))
      | inr dark ↦ inr (inr (ground arith, ground arith, off, refused, dark))
    ]
  ]
  | inr kept ↦ inr (inl (ground arith, ground arith))
]

-- How often a blob is created, and destroyed.
abbrev pub created : ℕ → List Call → ℕ
created id [] = 0
created id (create_blob b ∷ rest) =
    let later = created id rest in if b == id then suc later else later
created id (destroy_blob b ∷ rest) = created id rest
created id (test r ∷ rest) = created id rest
created id (commit r ∷ rest) = created id rest

abbrev pub destroyed : ℕ → List Call → ℕ
destroyed id [] = 0
destroyed id (destroy_blob b ∷ rest) =
    let later = destroyed id rest in if b == id then suc later else later
destroyed id (create_blob b ∷ rest) = destroyed id rest
destroyed id (test r ∷ rest) = destroyed id rest
destroyed id (commit r ∷ rest) = destroyed id rest

-- What a result says of the output it found.
abbrev pub IsSettled : Answers → Output → ℕ → Done → Type 0
IsSettled a o id r =
    (((blob : ℕ) × (a.new_blob ≡ some blob) × (r.ok ≡ true) × (r.output ≡ in_blob blob o))
      ⊎ (FailsAsItWas o r ⊎ FailsDark a o r))
    × (created id r.calls ≡ destroyed id r.calls)

off_and_on-calls :
    (a : Answers) (blob id : ℕ) (o : Output)
    → (created id ((off_and_on a blob o).calls ++ (destroy_blob blob ∷ [])) ≡ 0)
      × (destroyed id ((off_and_on a blob o).calls ++ (destroy_blob blob ∷ []))
          ≡ (if blob == id then 1 else 0))
unfolding off_and_on roll_back
off_and_on-calls a blob id o = ground arith

with_blob-calls :
    (a : Answers) (blob id : ℕ) (o : Output)
    → created id (with_blob a blob o).calls ≡ destroyed id (with_blob a blob o).calls
unfolding with_blob
with_blob-calls a blob id o = let calls = off_and_on-calls a blob id o in ground arith

with_blob-Ends :
    (a : Answers) (blob : ℕ) (o : Output) → o.is_active ≡ true → Ends a blob o (with_blob a blob o)
unfolding with_blob
with_blob-Ends a blob o h =
    either (Ends a blob o) a.prepared
      (λ (_ : a.prepared ≡ true).
        either (Ends a blob o) (a.tests_on && a.tests_off)
          (λ (_ : (a.tests_on && a.tests_off) ≡ true). off_and_on-Ends a blob o h)
          (λ (_ : (a.tests_on && a.tests_off) ≡ false). inr (inl (refl, refl))))
      (λ (_ : a.prepared ≡ false). inr (inl (refl, refl)))

with_blob-IsSettled :
    (a : Answers) (blob id : ℕ) (o : Output)
    → o.is_active ≡ true
    → a.new_blob ≡ some blob
    → IsSettled a o id (with_blob a blob o)
with_blob-IsSettled a blob id o h hb = (
  elim (with_blob-Ends a blob o h) [
    | inl done ↦ inl (blob, hb, done.0, done.1)
    | inr failed ↦ inr failed
  ],
  with_blob-calls a blob id o,
)

as_expected-is_active :
    (k : Known) (a : Answers) (o : Output) (own : Bool)
    → as_expected k a o && own ≡ true
    → o.is_active ≡ true
unfolding as_expected
as_expected-is_active k a o own h = ground arith

settled :
    (a : Answers) (o : Output) (id : ℕ) (expected : Bool) (new : Option ℕ)
    → (expected ≡ true → o.is_active ≡ true)
    → a.new_blob ≡ new
    → let untouched : Done = record { ok = false; output = o; calls = [] } in
      IsSettled a o id (
        if expected
        then elim new [ none ↦ untouched | some blob ↦ with_blob a blob o ]
        else untouched)
settled a o id false new h hb = (inr (inl (refl, refl)), refl)
settled a o id true none h hb = (inr (inl (refl, refl)), refl)
settled a o id true (some blob) h hb = with_blob-IsSettled a blob id o (h refl) hb

module _ (same_mode : Mode → Mode → Bool) (is_sdi_mode : Mode → Bool) where
  -- Whatever the kernel answers, the reset ends in one of three ways: it succeeds, and the output is as it was, active
  -- and in the same mode, but from the new blob; it fails, and the output is as it was; or it fails with the output
  -- switched off and otherwise as it was, and this only if the kernel switches it off, refuses to switch it on, and the
  -- rollback cannot be made or is refused too. In each case every blob is destroyed as often as it was created.
  pub reinitialize-IsSettled :
      (k : Known) (a : Answers) (o : Output) (id : ℕ)
      → IsSettled a o id (reinitialize_sdi_output same_mode is_sdi_mode k a o)
  unfolding reinitialize_sdi_output
  reinitialize-IsSettled k a o id =
      settled a o id (as_expected k a o && has_own_mode same_mode is_sdi_mode k a o) a.new_blob
        (as_expected-is_active k a o (has_own_mode same_mode is_sdi_mode k a o)) refl
