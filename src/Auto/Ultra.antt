-- ===== src/Auto/Ultra.antt =====
-- src/tests/sc6f0-dante-rx.cpp: the mixer of the main loop is the direct output of Ultra, whose display
-- `apply_drm_modeset`, `restore_ultra_output` and `dau_set_video_format` change.
use qcap_demos.Prelude.{
  ℕ, ◌≡◌, refl, Bool, true, false, Option, none, some, arith, inl, inr, Bool-cases,
}
use qcap_demos.Modeset.{Rates}
use qcap_demos.Modeset.Kernel.{Display, Settings, Answers, Done}
use qcap_demos.Modeset.Apply.{apply_drm_modeset}
use qcap_demos.Modeset.Off.{apply_drm_modeset-IsOff}
use qcap_demos.Modeset.Format.{
  Ultra, VideoFormat, dau_set_video_format, restore_ultra_output, follow, noted, remembered,
  outside_contract,
}
use qcap_demos.Auto.{Mixer}

-- The kernel's answers to the modesets, and the format that is notified.
pub record Given : Type 0 where
  pub first : Answers
  pub second : Answers
  pub format : Option VideoFormat

module _ {F : Type 0} (rates : Rates F) (of_int : ℕ → F) (equal : F → F → Bool)
    (settings : Settings) (fixed_fps : F) where
  -- The display after a modeset.
  unfoldable pub with_display : Ultra → Done → Bool × Ultra
  with_display u done = (done.ok, record u { display = done.display })

  unfoldable pub turn_off : Given → ℕ → ℕ → Ultra → Bool × Ultra
  turn_off g w h u =
      with_display u (apply_drm_modeset rates settings g.first u.display w h fixed_fps false)

  unfoldable pub restore : Given → Ultra → Bool × Ultra
  restore g u = with_display u (restore_ultra_output rates of_int equal settings g.first u)

  unfoldable pub notify : Bool → Given → Ultra → Ultra
  notify active g u =
      (dau_set_video_format rates of_int equal settings g.first g.second
        (record u { avh_active = active }) g.format).ultra

  turned_off :
      (g : Given) (w h : ℕ) (u : Ultra)
      → (turn_off g w h u).0 ≡ true
      → (turn_off g w h u).1.display.overlay_active ≡ false
  unfolding turn_off with_display
  turned_off g w h u ok =
      elim (apply_drm_modeset-IsOff rates settings g.first u.display w h fixed_fps) [
        | inl failed ↦ ground (arith, ok, failed.0)
        | inr off ↦ off
      ]

  off-hidden :
      (a : Answers) (w h : ℕ) (fps : F) (d : Display)
      → d.overlay_active ≡ false
      → (apply_drm_modeset rates settings a d w h fps false).display.overlay_active ≡ false
  off-hidden a w h fps d hidden = elim (apply_drm_modeset-IsOff rates settings a d w h fps) [
    | inl failed ↦ rw failed.1 hidden
    | inr off ↦ off
  ]

  remembered-active : (u : Ultra) (f : VideoFormat) → (remembered u f).avh_active ≡ u.avh_active
  remembered-active u f = ground arith

  remembered-display : (u : Ultra) (f : VideoFormat) → (remembered u f).display ≡ u.display
  remembered-display u f = ground arith

  follow-display :
      (g : Given) (rgb : Bool) (u : Ultra) (f : VideoFormat)
      → u.avh_active ≡ true
      → (follow rates of_int equal settings g.first g.second rgb u f).ultra.display ≡ u.display
  unfolding follow
  follow-display g rgb u f e = rw e refl

  told :
      (g : Given) (u : Ultra) (f : VideoFormat)
      → u.avh_active ≡ true
      → u.display.overlay_active ≡ false
      → (dau_set_video_format rates of_int equal settings g.first g.second u
          (some f)).ultra.display.overlay_active
        ≡ false
  unfolding dau_set_video_format
  told g u f e hidden =
      let v : Ultra = noted u f in
      elim (Bool-cases (outside_contract settings v f)) [
        | inl outside ↦
            rw outside (
              off-hidden g.first v.fixed_width v.fixed_height (of_int v.fixed_fps) v.display hidden)
        | inr inside ↦
            rw
              (
                inside,
                follow-display g v.overlay_is_rgb (remembered v f) f (rw (remembered-active v f) e),
                remembered-display v f,
              )
              hidden
      ]

  notified-hidden :
      (g : Given) (u : Ultra)
      → u.display.overlay_active ≡ false
      → (notify true g u).display.overlay_active ≡ false
  unfolding notify dau_set_video_format
  notified-hidden g u hidden =
      elim g.format
        as (λ f.
          (dau_set_video_format rates of_int equal settings g.first g.second
            (record u { avh_active = true }) f).ultra.display.overlay_active
          ≡ false) [
            | none ↦ hidden
            | some format ↦ told g (record u { avh_active = true }) format refl hidden
          ]

  pub ultra_mixer : Mixer Ultra Given
  ultra_mixer = record {
    turn_off = turn_off;
    restore = restore;
    notify = notify;
    is_shown = λ (u : Ultra). u.display.overlay_active;
    size = λ (u : Ultra). (u.display.current_mode.hdisplay, u.display.current_mode.vdisplay);
    turn_off-hides = turned_off;
    notify-hidden = notified-hidden;
  }
