-- ===== src/Modeset/Outcome.antt =====
-- What a modeset leaves behind.
use qcap_demos.Prelude.{
  ℕ, ◌≤◌, ◌≡◌, refl, sym, Bool, true, false, ◌&&◌, ◌||◌, not, List, Option, none, some, arith, ◌==◌,
  ◌⊎◌, inl, inr, Bool-cases, either, ◌∷◌, subst,
}
use qcap_demos.Modeset.{Mode, Rates, Rect, choose_mode, fit_rect}
use qcap_demos.Modeset.Choice.{IsUsable, choose_mode-IsUsable}
use qcap_demos.Modeset.Kernel.{Call, create, mode_blob, Display, Settings, Answers, Done}
use qcap_demos.Modeset.Apply.{
  Fresh, commit_fresh, with_primary, with_blob, with_rect, with_mode, with_modes, apply_drm_modeset,
  is_refused, is_ready, create_dumb_fb, Buffers, behind, overlay_buffers, request_of,
}
use qcap_demos.Modeset.Harmless.{
  all_harmless, all_harmless-append, create-harmless, create_dumb_fb-harmless,
  overlay_buffers-harmless, discard-harmless, refused-harmless, blob-harmless,
}

module _ {F : Type 0} (rates : Rates F) (settings : Settings) (a : Answers) (d : Display) where
  -- Failed, with the display as it was and nothing done but what is harmless.
  abbrev pub Fails : Done → Type 0
  Fails done = (done.ok ≡ false) × (done.display ≡ d) × (all_harmless settings a done.calls ≡ true)

  -- Failed, or committed with `mode` as the display's mode.
  abbrev pub Outcome : Mode → Done → Type 0
  Outcome mode done =
      Fails done
      ⊎ ((done.display.current_mode ≡ mode)
          × (done.display.modeset_active ≡ true)
          × (a.commits ≡ true))

  commit_fresh-Outcome :
      (mode : Mode) (rect : Rect) (width height : ℕ) (f : Fresh)
      → Outcome mode (commit_fresh rates settings a d mode rect width height f)
  unfolding commit_fresh
  commit_fresh-Outcome mode rect width height f =
      let early = not a.request || (not (d.overlay_plane_id == 0) && not a.source_property) in
      let ready = is_ready rates settings a mode in
      either (Outcome mode) early
        (λ (_ : early ≡ true). inl (refl, refl, discard-harmless settings a f))
        (λ (_ : early ≡ false).
          either (Outcome mode) (not (ready && a.commits))
            (λ (failed : not (ready && a.commits) ≡ true). inl (
              refl,
              refl,
              refused-harmless settings a ready (request_of d f mode rect width height) f
                  (ground (arith, failed)),
            ))
            (λ (done : not (ready && a.commits) ≡ false). inr (refl, refl, ground (arith, done))))

  -- Harmless calls before.
  behind-Outcome :
      (mode : Mode) (before : List Call) (done : Done)
      → all_harmless settings a before ≡ true
      → Outcome mode done
      → Outcome mode (behind before done)
  behind-Outcome mode before done hb (inl f) =
      inl (f.0, f.1, all_harmless-append settings a before done.calls hb f.2)
  behind-Outcome mode before done hb (inr c) = inr c

  with_primary-Outcome :
      (mode : Mode) (rect : Rect) (width height : ℕ) (enable : Bool) (blob : ℕ)
      (primary : Option Buffers)
      → Outcome mode (with_primary rates settings a d mode rect width height enable blob primary)
  unfolding with_primary
  with_primary-Outcome mode rect width height enable blob none =
      inl (refl, refl, blob-harmless settings a blob)
  with_primary-Outcome mode rect width height enable blob (some primary) =
      behind-Outcome mode (overlay_buffers a d enable).1 _
        (overlay_buffers-harmless settings a d enable)
        (commit_fresh-Outcome mode rect width height _)

  with_rect-Outcome :
      (mode : Mode) (width height : ℕ) (enable : Bool) (rect : Option Rect)
      → Outcome mode (with_rect rates settings a d mode width height enable rect)
  unfolding with_rect with_blob all_harmless
  with_rect-Outcome mode width height enable none = inl (refl, refl, refl)
  with_rect-Outcome mode width height enable (some rect) =
      elim a.blob
        as (λ b. Outcome mode (with_blob rates settings a d mode rect width height enable b)) [
          | none ↦ inl (refl, refl, refl)
          | some blob ↦
              behind-Outcome mode
                (create mode_blob blob ∷ (create_dumb_fb a.primary.handle a.primary.fb).1)
                (with_primary rates settings a d mode rect width height enable blob
                  (create_dumb_fb a.primary.handle a.primary.fb).0)
                (create-harmless settings a mode_blob blob
                  (create_dumb_fb a.primary.handle a.primary.fb).1
                  (create_dumb_fb-harmless settings a a.primary.handle a.primary.fb))
                (with_primary-Outcome mode rect width height enable blob
                  (create_dumb_fb a.primary.handle a.primary.fb).0)
        ]

  with_mode-Outcome :
      (q : Mode → Type 0) (width height : ℕ) (enable : Bool) (mode : Option Mode)
      → ((m : Mode) → mode ≡ some m → q m)
      → let done = with_mode rates settings a d width height enable mode in
        Fails done
        ⊎ (q done.display.current_mode × (done.display.modeset_active ≡ true) × (a.commits ≡ true))
  unfolding with_mode all_harmless
  with_mode-Outcome q width height enable none usable = inl (refl, refl, refl)
  with_mode-Outcome q width height enable (some mode) usable =
      elim (with_rect-Outcome mode width height enable
        (fit_rect width height mode.hdisplay mode.vdisplay)) [
          | inl failed ↦ inl failed
          | inr done ↦ inr (subst q (sym done.0) (usable mode refl), done.1, done.2)
        ]

  with_modes-Outcome :
      (width height : ℕ) (fps : F) (enable : Bool) (connector : Option (List Mode))
      → width ≤ 3840
      → height ≤ 2160
      → let done = with_modes rates settings a d width height fps enable connector in
        Fails done
        ⊎ ((modes : List Mode) × (connector ≡ some modes)
            × IsUsable rates settings.is_sdi modes done.display.current_mode
            × (done.display.modeset_active ≡ true)
            × (a.commits ≡ true))
  unfolding with_modes all_harmless
  with_modes-Outcome width height fps enable none w h = inl (refl, refl, refl)
  with_modes-Outcome width height fps enable (some modes) w h =
      elim (with_mode-Outcome (IsUsable rates settings.is_sdi modes) width height enable
        (choose_mode rates settings.is_sdi modes width height fps)
        (λ m. choose_mode-IsUsable rates settings.is_sdi modes width height fps m w h)) [
          | inl failed ↦ inl failed
          | inr done ↦ inr (modes, refl, done.0, done.1, done.2)
        ]

  pub apply_drm_modeset_outcome :
      (width height : ℕ) (fps : F) (enable : Bool)
      → let done = apply_drm_modeset rates settings a d width height fps enable in
        Fails done
        ⊎ ((modes : List Mode) × (a.connector ≡ some modes)
            × IsUsable rates settings.is_sdi modes done.display.current_mode
            × (done.display.modeset_active ≡ true)
            × (a.commits ≡ true))
  unfolding apply_drm_modeset all_harmless
  apply_drm_modeset_outcome width height fps enable =
      elim (Bool-cases (is_refused d width height)) [
        | inl r ↦ rw r (inl (refl, refl, refl))
        | inr g ↦
            rw g
              (with_modes-Outcome width height fps enable a.connector (ground arith) (ground arith))
      ]
