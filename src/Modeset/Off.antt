-- ===== src/Modeset/Off.antt =====
-- src/tests/sc6f0-dante-rx.cpp: `apply_drm_modeset` without the overlay, which routes the mixer to its own picture.
use qcap_demos.Prelude.{
  ℕ, ◌≡◌, refl, false, ◌&&◌, ◌||◌, not, List, Option, none, some, ◌==◌, ◌⊎◌, inl, inr, Bool-cases,
}
use qcap_demos.Modeset.{Mode, Rates, Rect, choose_mode, fit_rect}
use qcap_demos.Modeset.Kernel.{Display, Settings, Answers, Done}
use qcap_demos.Modeset.Apply.{
  Buffers, Fresh, commit_fresh, with_primary, with_blob, with_rect, with_mode, with_modes,
  apply_drm_modeset, is_refused, is_ready, create_dumb_fb, with_overlay, overlay_buffers,
}

module _ {F : Type 0} (rates : Rates F) (settings : Settings) (a : Answers) (d : Display) where
  -- Nothing is changed, or the overlay is off.
  abbrev pub IsOff : Done → Type 0
  IsOff done = ((done.ok ≡ false) × (done.display ≡ d)) ⊎ (done.display.overlay_active ≡ false)

  commit_fresh-IsOff :
      (mode : Mode) (rect : Rect) (width height : ℕ) (f : Fresh)
      → f.enable ≡ false
      → IsOff (commit_fresh rates settings a d mode rect width height f)
  unfolding commit_fresh
  commit_fresh-IsOff mode rect width height f off =
      elim (Bool-cases
        (not a.request || (not (d.overlay_plane_id == 0) && not a.source_property))) [
          | inl early ↦ rw early (inl (refl, refl))
          | inr built ↦ elim (Bool-cases (not (is_ready rates settings a mode && a.commits))) [
            | inl failed ↦ rw (built, failed) (inl (refl, refl))
            | inr done ↦ rw (built, done) (inr off)
          ]
        ]

  with_overlay-off : (plane : ℕ) (made : Option Buffers) → (with_overlay false plane made).1 ≡ false
  with_overlay-off plane none = refl
  with_overlay-off plane (some made) = refl

  with_rect-IsOff :
      (mode : Mode) (width height : ℕ) (rect : Option Rect)
      → IsOff (with_rect rates settings a d mode width height false rect)
  unfolding with_rect with_blob with_primary
  with_rect-IsOff mode width height none = inl (refl, refl)
  with_rect-IsOff mode width height (some rect) =
      elim a.blob as (λ b. IsOff (with_blob rates settings a d mode rect width height false b)) [
        | none ↦ inl (refl, refl)
        | some blob ↦
            elim (create_dumb_fb a.primary.handle a.primary.fb).0
              as (λ p.
                IsOff (with_primary rates settings a d mode rect width height false blob p)) [
                  | none ↦ inl (refl, refl)
                  | some primary ↦
                      commit_fresh-IsOff mode rect width height _
                        (with_overlay-off d.overlay_plane_id (overlay_buffers a d false).0)
                ]
      ]

  with_mode-IsOff :
      (width height : ℕ) (mode : Option Mode)
      → IsOff (with_mode rates settings a d width height false mode)
  unfolding with_mode
  with_mode-IsOff width height none = inl (refl, refl)
  with_mode-IsOff width height (some mode) =
      with_rect-IsOff mode width height (fit_rect width height mode.hdisplay mode.vdisplay)

  with_modes-IsOff :
      (width height : ℕ) (fps : F) (connector : Option (List Mode))
      → IsOff (with_modes rates settings a d width height fps false connector)
  unfolding with_modes
  with_modes-IsOff width height fps none = inl (refl, refl)
  with_modes-IsOff width height fps (some modes) =
      with_mode-IsOff width height (choose_mode rates settings.is_sdi modes width height fps)

  -- A modeset without the overlay fails and leaves the display as it was, or turns the overlay off.
  pub apply_drm_modeset-IsOff :
      (width height : ℕ) (fps : F)
      → IsOff (apply_drm_modeset rates settings a d width height fps false)
  unfolding apply_drm_modeset
  apply_drm_modeset-IsOff width height fps = elim (Bool-cases (is_refused d width height)) [
    | inl r ↦ rw r (inl (refl, refl))
    | inr g ↦ rw g (with_modes-IsOff width height fps a.connector)
  ]
