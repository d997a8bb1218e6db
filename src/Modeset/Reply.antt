-- ===== src/Modeset/Reply.antt =====
-- What the reply to a format notification says about the display.
use qcap_demos.Prelude.{
  ℕ, ◌+◌, ◌≡◌, sym, ap, ◌∙◌, Bool, true, false, ◌&&◌, ◌||◌, not, List, Option, none, some, arith,
  ◌==◌, inl, inr, Bool-cases,
}
use qcap_demos.Modeset.{Rates}
use qcap_demos.Modeset.Kernel.{Kind, Call, Display, Settings, Answers}
use qcap_demos.Modeset.Apply.{apply_drm_modeset}
use qcap_demos.Modeset.Ledger.{
  created, destroyed, held, total-append, makes, frees, apply_drm_modeset_balanced,
}
use qcap_demos.Modeset.Outcome.{apply_drm_modeset_outcome}
use qcap_demos.Modeset.Format.{
  VideoFormat, is_rgb, Ultra, Reply, success, failure, Answered, outside_contract, noted,
  remembered, is_unchanged, give_way, switch, follow, dau_set_video_format, target_w, target_h,
  target_fps,
}

remembered-display : (u : Ultra) (format : VideoFormat) → (remembered u format).display ≡ u.display
remembered-display u format = ground arith

remembered-avh :
    (u : Ultra) (format : VideoFormat) → (remembered u format).avh_active ≡ u.avh_active
remembered-avh u format = ground arith

abbrev is_failure : Reply → Bool
is_failure success = false
is_failure failure = true

failure_ne_success : failure ≡ success → ⊥
failure_ne_success e = ground (arith, ap is_failure e)

module _ {F : Type 0} (rates : Rates F) (of_int : ℕ → F) (equal : F → F → Bool)
    (settings : Settings) where
  abbrev is_kept : Bool → Ultra → VideoFormat → Bool
  is_kept p u format =
      u.avh_active
      || (u.force_dante_source && not format.locked)
      || is_unchanged rates of_int equal settings p u format

  module _ (weight : Kind → ℕ → ℕ) (no_object : (kind : Kind) → weight kind 0 ≡ 0) where
    abbrev Balanced : Ultra → Answered → Type 0
    Balanced u done =
        created weight done.calls + held weight u.display
        ≡ destroyed weight done.calls + held weight done.ultra.display

    give_way-Balanced :
        (second : Answers) (locked : Bool) (before : Display) (u : Ultra) (calls : List Call)
        → created weight calls + held weight before ≡ destroyed weight calls + held weight u.display
        → let done = give_way rates of_int equal settings second locked u calls in
          created weight done.calls + held weight before
          ≡ destroyed weight done.calls + held weight done.ultra.display
    unfolding give_way
    give_way-Balanced second locked before u calls h =
        let mode = u.display.current_mode in
        let off =
          apply_drm_modeset rates settings second u.display mode.hdisplay mode.vdisplay
            (rates.mode_vrefresh mode) false in
        let b =
          apply_drm_modeset_balanced weight no_object rates settings second u.display mode.hdisplay
            mode.vdisplay (rates.mode_vrefresh mode) false in
        elim (Bool-cases (locked && not (mode.hdisplay == 0))) [
          | inl yes' ↦ rw yes' (
              omega (
                arith,
                h,
                b,
                total-append (makes weight) calls off.calls,
                total-append (frees weight) calls off.calls,
              ))
          | inr no' ↦ rw no' h
        ]

    follow-Balanced :
        (first second : Answers) (p : Bool) (u : Ultra) (format : VideoFormat)
        → Balanced u (follow rates of_int equal settings first second p u format)
    unfolding follow switch
    follow-Balanced first second p u format =
        let done =
          apply_drm_modeset rates settings first u.display
            (target_w rates of_int equal settings u format)
            (target_h rates of_int equal settings u format)
            (target_fps rates of_int equal settings u format) format.locked in
        let b =
          apply_drm_modeset_balanced weight no_object rates settings first u.display
            (target_w rates of_int equal settings u format)
            (target_h rates of_int equal settings u format)
            (target_fps rates of_int equal settings u format) format.locked in
        elim (Bool-cases (is_kept p u format)) [
          | inl kept ↦ rw kept (omega arith)
          | inr set' ↦ elim (Bool-cases done.ok) [
            | inl fine ↦ rw (set', fine) b
            | inr failed ↦
                rw (set', failed)
                  (give_way-Balanced second format.locked u.display
                    (record u { display = done.display }) done.calls b)
          ]
        ]

    -- Whatever the kernel answers, a format notification loses and frees twice no kernel object,
    -- with one modeset and with the second that follows a failed one.
    pub dau_set_video_format_balanced :
        (first second : Answers) (u : Ultra) (format : Option VideoFormat)
        → let done = dau_set_video_format rates of_int equal settings first second u format in
          created weight done.calls + held weight u.display
          ≡ destroyed weight done.calls + held weight done.ultra.display
    unfolding dau_set_video_format
    dau_set_video_format_balanced first second u none = omega arith
    dau_set_video_format_balanced first second u (some format) =
        let v = noted u format in
        elim (Bool-cases (outside_contract settings v format)) [
          | inl out ↦ rw out (
              apply_drm_modeset_balanced weight no_object rates settings first v.display
                v.fixed_width v.fixed_height (of_int v.fixed_fps) false)
          | inr in' ↦
              let b = follow-Balanced first second v.overlay_is_rgb (remembered v format) format in
              rw in' (omega (arith, b, ap (held weight) (remembered-display v format)))
        ]

  give_way-reply :
      (second : Answers) (locked : Bool) (u : Ultra) (calls : List Call)
      → (give_way rates of_int equal settings second locked u calls).reply ≡ failure
  unfolding give_way
  give_way-reply second locked u calls = ground arith

  follow-active :
      (first second : Answers) (p : Bool) (u : Ultra) (format : VideoFormat)
      → (follow rates of_int equal settings first second p u format).reply ≡ success
      → format.locked ≡ true
      → u.avh_active ≡ false
      → (follow rates of_int equal settings first second p u format).ultra.display.modeset_active
        ≡ true
  unfolding follow switch
  follow-active first second p u format s l v =
      let done =
        apply_drm_modeset rates settings first u.display
          (target_w rates of_int equal settings u format)
          (target_h rates of_int equal settings u format)
          (target_fps rates of_int equal settings u format) format.locked in
      elim (Bool-cases (is_kept p u format)) [
        | inl kept ↦ rw kept (ground arith)
        | inr set' ↦ elim (Bool-cases done.ok) [
          | inl fine ↦
              elim (apply_drm_modeset_outcome rates settings first u.display
                (target_w rates of_int equal settings u format)
                (target_h rates of_int equal settings u format)
                (target_fps rates of_int equal settings u format) format.locked) [
                  | inl failed ↦ absurd (ground arith)
                  | inr active ↦ rw (set', fine) active.3
                ]
          | inr failed ↦
              let gave =
                give_way-reply second format.locked (record u { display = done.display })
                  done.calls in
              absurd (failure_ne_success (sym gave ∙ (rw (set', failed) at s)))
        ]
      ]

  -- When a locked format is answered with success while the AVH source does not own the display,
  -- the display is active; and at the SDI output the format is then the configured size and rate,
  -- progressive and RGB.
  pub dau_set_video_format_success :
      (first second : Answers) (u : Ultra) (format : VideoFormat)
      → format.locked ≡ true
      → u.avh_active ≡ false
      → (dau_set_video_format rates of_int equal settings first second u (some format)).reply
        ≡ success
      → let done = dau_set_video_format rates of_int equal settings first second u (some format) in
        (done.ultra.display.modeset_active ≡ true)
        × (settings.is_sdi ≡ true
            → (format.width ≡ u.fixed_width)
              × (format.height ≡ u.fixed_height)
              × (format.framerate ≡ u.fixed_fps)
              × (format.interlaced ≡ false)
              × (is_rgb format.colorformat ≡ true))
  unfolding dau_set_video_format
  dau_set_video_format_success first second u format l v s =
      let n = noted u format in
      elim (Bool-cases (outside_contract settings n format)) [
        | inl out ↦ absurd (failure_ne_success (rw out at s))
        | inr in' ↦ (
          rw in' (
              follow-active first second n.overlay_is_rgb (remembered n format) format (rw in' at s)
                l (remembered-avh n format ∙ v)),
          λ sdi. (ground arith, ground arith, ground arith, ground arith, ground arith),
        )
      ]
