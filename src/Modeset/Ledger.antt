-- ===== src/Modeset/Ledger.antt =====
-- The kernel objects that a modeset makes and frees.
mod Counts
pub use Counts.{total-append, makes, frees, created, destroyed, held}
use Counts.{
  Moves, Balanced, of_buffers, discard-Moves, release-Moves, after_commit-Moves, switched-Moves,
  committed-Moves,
}
use qcap_demos.Prelude.{
  ℕ, ◌+◌, ◌≡◌, refl, Bool, true, false, ◌&&◌, ◌||◌, not, List, [], ◌∷◌, ◌++◌, Option, none, some,
  arith, ◌==◌, if◌then◌else◌, ==_iff, inl, inr, Bool-cases,
}
use qcap_demos.Modeset.{Mode, Rates, Rect, choose_mode, fit_rect}
use qcap_demos.Modeset.Kernel.{
  Kind, frame_buffer, buffer_object, mode_blob, Request, Call, create, destroy, commit, passthrough,
  configure_vtpg, set_vmix_layer1_opaque, Display, Settings, Answers, Done,
}
use qcap_demos.Modeset.Apply.{
  Buffers, Fresh, create_dumb_fb, destroy_dumb_fb, discard, release, after_commit, commit_fresh,
  with_primary, with_blob, with_rect, with_mode, with_modes, apply_drm_modeset,
  cleanup_ultra_direct_drm, is_refused, request_of, is_ready, overlay_buffers, with_overlay,
  wants_overlay,
}

module _ (weight : Kind → ℕ → ℕ) where
  module _ (no_object : (kind : Kind) → weight kind 0 ≡ 0) where
    commit_fresh-Balanced :
        {F : Type 0} (rates : Rates F) (settings : Settings) (a : Answers) (d : Display)
        (mode : Mode) (rect : Rect) (width height : ℕ) (f : Fresh)
        → Balanced weight
            (of_buffers weight f.primary + of_buffers weight f.overlay + weight mode_blob f.blob)
            d
            (commit_fresh rates settings a d mode rect width height f)
    unfolding commit_fresh
    commit_fresh-Balanced rates settings a d mode rect width height f =
        let request = request_of d f mode rect width height in
        let sw = if settings.is_sdi then passthrough false ∷ [] else [] in
        let ready = is_ready rates settings a mode in
        let co = if ready then commit request ∷ [] else [] in
        let after = after_commit settings a mode f.enable in
        let s = switched-Moves weight no_object settings.is_sdi false in
        let c = committed-Moves weight no_object ready request in
        let x = discard-Moves weight no_object f in
        let r = release-Moves weight no_object d in
        let z = after_commit-Moves weight no_object settings a mode f.enable in
        elim (Bool-cases
          (not a.request || (not (d.overlay_plane_id == 0) && not a.source_property))) [
            | inl early ↦ rw early (omega (arith, x.0, x.1))
            | inr built ↦ elim (Bool-cases (not (ready && a.commits))) [
              | inl failed ↦
                  rw (built, failed)
                    (omega (
                      arith,
                      total-append (makes weight) sw (co ++ discard f),
                      total-append (makes weight) co (discard f),
                      total-append (frees weight) sw (co ++ discard f),
                      total-append (frees weight) co (discard f),
                      s.0,
                      s.1,
                      c.0,
                      c.1,
                      x.0,
                      x.1,
                    ))
              | inr done ↦
                  rw (built, done)
                    (omega (
                      arith,
                      total-append (makes weight) sw (commit request ∷ (release d ++ after.1)),
                      total-append (makes weight) (release d) after.1,
                      total-append (frees weight) sw (commit request ∷ (release d ++ after.1)),
                      total-append (frees weight) (release d) after.1,
                      s.0,
                      s.1,
                      r.0,
                      r.1,
                      z.0,
                      z.1,
                    ))
            ]
          ]

    abbrev given : Option Buffers → ℕ
    given none = 0
    given (some b) = of_buffers weight b

    create_dumb_fb-total :
        (handle fb : Option ℕ)
        → created weight (create_dumb_fb handle fb).1
          ≡ destroyed weight (create_dumb_fb handle fb).1 + given (create_dumb_fb handle fb).0
    unfolding create_dumb_fb
    create_dumb_fb-total none fb = omega arith
    create_dumb_fb-total (some bo) none = omega arith
    create_dumb_fb-total (some bo) (some fb) = omega arith

    overlay_buffers-total :
        (a : Answers) (d : Display) (enable : Bool)
        → created weight (overlay_buffers a d enable).1
          ≡ destroyed weight (overlay_buffers a d enable).1 + given (overlay_buffers a d enable).0
    overlay_buffers-total a d enable = elim (Bool-cases (wants_overlay d enable)) [
      | inl yes' ↦ rw yes' (create_dumb_fb-total a.overlay.handle a.overlay.fb)
      | inr no' ↦ rw no' (omega arith)
    ]

    with_overlay-given :
        (enable : Bool) (plane : ℕ) (made : Option Buffers)
        → of_buffers weight (with_overlay enable plane made).0 ≡ given made
    with_overlay-given enable plane none =
        rw (no_object frame_buffer, no_object buffer_object) (omega arith)
    with_overlay-given enable plane (some b) = refl

    module _ {F : Type 0} (rates : Rates F) (settings : Settings) (a : Answers) (d : Display) where
      with_primary-Balanced :
          (mode : Mode) (rect : Rect) (width height : ℕ) (enable : Bool) (blob : ℕ)
          (primary : Option Buffers)
          → Balanced weight
              (given primary + weight mode_blob blob)
              d
              (with_primary rates settings a d mode rect width height enable blob primary)
      unfolding with_primary
      with_primary-Balanced mode rect width height enable blob none = omega arith
      with_primary-Balanced mode rect width height enable blob (some primary) =
          let made = overlay_buffers a d enable in
          let put = with_overlay enable d.overlay_plane_id made.0 in
          let fresh : Fresh = record {
            blob = blob;
            primary = primary;
            overlay = put.0;
            enable = put.1;
          } in
          let done = commit_fresh rates settings a d mode rect width height fresh in
          omega (
            arith,
            commit_fresh-Balanced rates settings a d mode rect width height fresh,
            overlay_buffers-total a d enable,
            with_overlay-given enable d.overlay_plane_id made.0,
            total-append (makes weight) made.1 done.calls,
            total-append (frees weight) made.1 done.calls,
          )

      with_blob-Balanced :
          (mode : Mode) (rect : Rect) (width height : ℕ) (enable : Bool) (blob : Option ℕ)
          → Balanced weight 0 d (with_blob rates settings a d mode rect width height enable blob)
      unfolding with_blob
      with_blob-Balanced mode rect width height enable none = omega arith
      with_blob-Balanced mode rect width height enable (some blob) =
          let made = create_dumb_fb a.primary.handle a.primary.fb in
          let done = with_primary rates settings a d mode rect width height enable blob made.0 in
          omega (
            arith,
            with_primary-Balanced mode rect width height enable blob made.0,
            create_dumb_fb-total a.primary.handle a.primary.fb,
            total-append (makes weight) made.1 done.calls,
            total-append (frees weight) made.1 done.calls,
          )

      with_rect-Balanced :
          (mode : Mode) (width height : ℕ) (enable : Bool) (rect : Option Rect)
          → Balanced weight 0 d (with_rect rates settings a d mode width height enable rect)
      unfolding with_rect
      with_rect-Balanced mode width height enable none = omega arith
      with_rect-Balanced mode width height enable (some rect) =
          with_blob-Balanced mode rect width height enable a.blob

      with_mode-Balanced :
          (width height : ℕ) (enable : Bool) (mode : Option Mode)
          → Balanced weight 0 d (with_mode rates settings a d width height enable mode)
      unfolding with_mode
      with_mode-Balanced width height enable none = omega arith
      with_mode-Balanced width height enable (some mode) =
          with_rect-Balanced mode width height enable
            (fit_rect width height mode.hdisplay mode.vdisplay)

      with_modes-Balanced :
          (width height : ℕ) (fps : F) (enable : Bool) (modes : Option (List Mode))
          → Balanced weight 0 d (with_modes rates settings a d width height fps enable modes)
      unfolding with_modes
      with_modes-Balanced width height fps enable none = omega arith
      with_modes-Balanced width height fps enable (some modes) =
          with_mode-Balanced width height enable
            (choose_mode rates settings.is_sdi modes width height fps)

      -- Whatever the kernel answers, a modeset loses and frees twice no kernel object: counted by
      -- any weight that is 0 at the identifier 0, what it makes and what the display held before
      -- are what it frees and what the display holds after.
      pub apply_drm_modeset_balanced :
          (width height : ℕ) (fps : F) (enable : Bool)
          → let done = apply_drm_modeset rates settings a d width height fps enable in
            created weight done.calls + held weight d
            ≡ destroyed weight done.calls + held weight done.display
      unfolding apply_drm_modeset
      apply_drm_modeset_balanced width height fps enable =
          elim (Bool-cases (is_refused d width height)) [
            | inl r ↦ rw r (omega arith)
            | inr g ↦ rw g (omega (arith, with_modes-Balanced width height fps enable a.connector))
          ]

    -- The cleanup of an open display frees every object that it held, and makes none; of a closed
    -- display, it does nothing.
    pub cleanup_balanced :
        (settings : Settings) (d : Display)
        → let done = cleanup_ultra_direct_drm settings d in
          (d.is_open ≡ true
            → (created weight done.1 ≡ 0)
              × (destroyed weight done.1 ≡ held weight d)
              × (held weight done.0 ≡ 0)
              × (done.0.is_open ≡ false))
          × (d.is_open ≡ false → done ≡ (d, []))
    unfolding cleanup_ultra_direct_drm
    cleanup_balanced settings d = (
      λ o.
          let sw = if settings.is_sdi then passthrough false ∷ [] else [] in
          let s = switched-Moves weight no_object settings.is_sdi false in
          let r = release-Moves weight no_object d in
          rw o (
            omega (arith, total-append (makes weight) sw (release d), s.0, r.0),
            omega (arith, total-append (frees weight) sw (release d), s.1, r.1),
            omega (arith, no_object frame_buffer, no_object buffer_object, no_object mode_blob),
            refl,
          ),
      λ c. rw c refl,
    )
