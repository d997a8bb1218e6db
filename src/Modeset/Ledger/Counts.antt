-- ===== src/Modeset/Ledger/Counts.antt =====
-- The kernel objects that calls make and free. A weight counts objects: with the weight that is
-- 1 at one object and 0 elsewhere, the sums below say how often that object is made, freed and held.
use qcap_demos.Prelude.{
  ℕ, ◌+◌, ◌≡◌, refl, Bool, true, false, List, [], ◌∷◌, ◌++◌, arith, ◌==◌, if◌then◌else◌, ==_iff,
  inl, inr, Bool-cases,
}
use qcap_demos.Modeset.{Mode}
use qcap_demos.Modeset.Kernel.{
  Kind, frame_buffer, buffer_object, mode_blob, Request, Call, create, destroy, commit, passthrough,
  configure_vtpg, set_vmix_layer1_opaque, Display, Settings, Answers, Done,
}
use qcap_demos.Modeset.Apply.{Buffers, Fresh, destroy_dumb_fb, discard, release, after_commit}

abbrev pub total : (Call → ℕ) → List Call → ℕ
total f [] = 0
total f (c ∷ cs) = f c + total f cs

pub total-append : (f : Call → ℕ) (a b : List Call) → total f (a ++ b) ≡ total f a + total f b
total-append f [] b = omega arith
total-append f (c ∷ a) b = omega (arith, total-append f a b)

module _ (weight : Kind → ℕ → ℕ) where
  abbrev pub makes : Call → ℕ
  makes (create kind id) = weight kind id
  makes (destroy kind id) = 0
  makes (commit request) = 0
  makes (passthrough on) = 0
  makes (configure_vtpg w h) = 0
  makes set_vmix_layer1_opaque = 0

  abbrev pub frees : Call → ℕ
  frees (create kind id) = 0
  frees (destroy kind id) = weight kind id
  frees (commit request) = 0
  frees (passthrough on) = 0
  frees (configure_vtpg w h) = 0
  frees set_vmix_layer1_opaque = 0

  abbrev pub created : List Call → ℕ
  created calls = total makes calls

  abbrev pub destroyed : List Call → ℕ
  destroyed calls = total frees calls

  abbrev pub held : Display → ℕ
  held d =
      weight frame_buffer d.primary_fb_id
      + weight buffer_object d.primary_bo_handle
      + weight frame_buffer d.overlay_fb_id
      + weight buffer_object d.overlay_bo_handle
      + weight mode_blob d.mode_blob_id

  -- How often a list of calls makes and frees.
  abbrev pub Moves : List Call → ℕ → ℕ → Type 0
  Moves calls made freed = (created calls ≡ made) × (destroyed calls ≡ freed)

  Moves-append :
      (a b : List Call) (m n m' n' : ℕ)
      → Moves a m n
      → Moves b m' n'
      → Moves (a ++ b) (m + m') (n + n')
  Moves-append a b m n m' n' x y = (
    omega (arith, total-append makes a b, x.0, y.0),
    omega (arith, total-append frees a b, x.1, y.1),
  )

  -- `before` are objects that the caller owns.
  abbrev pub Balanced : ℕ → Display → Done → Type 0
  Balanced before d done =
      created done.calls + before + held d ≡ destroyed done.calls + held done.display

  abbrev pub of_buffers : Buffers → ℕ
  of_buffers b = weight frame_buffer b.0 + weight buffer_object b.1

  module _ (no_object : (kind : Kind) → weight kind 0 ≡ 0) where
    free-Moves :
        (kind : Kind) (id : ℕ)
        → Moves (if id == 0 then [] else destroy kind id ∷ []) 0 (weight kind id)
    free-Moves kind id = elim (Bool-cases (id == 0)) [
      | inl none' ↦ let e = (==_iff id 0).0 none' in rw (none', e, no_object kind) (refl, refl)
      | inr some' ↦ rw some' (omega arith, omega arith)
    ]

    destroy_dumb_fb-Moves :
        (fb bo : ℕ)
        → Moves (destroy_dumb_fb fb bo) 0 (weight frame_buffer fb + weight buffer_object bo)
    unfolding destroy_dumb_fb
    destroy_dumb_fb-Moves fb bo =
        Moves-append _ _ 0 _ 0 _ (free-Moves frame_buffer fb) (free-Moves buffer_object bo)

    destroy-Moves : (kind : Kind) (id : ℕ) → Moves (destroy kind id ∷ []) 0 (weight kind id)
    destroy-Moves kind id = (omega arith, omega arith)

    pub discard-Moves :
        (f : Fresh)
        → Moves
            (discard f)
            0
            (of_buffers f.primary + (of_buffers f.overlay + weight mode_blob f.blob))
    unfolding discard
    discard-Moves f =
        let p = destroy_dumb_fb f.primary.0 f.primary.1 in
        let o = destroy_dumb_fb f.overlay.0 f.overlay.1 in
        let m = destroy mode_blob f.blob ∷ [] in
        Moves-append p (o ++ m) 0 (of_buffers f.primary) 0
          (of_buffers f.overlay + weight mode_blob f.blob)
          (destroy_dumb_fb-Moves f.primary.0 f.primary.1)
          (Moves-append o m 0 (of_buffers f.overlay) 0 (weight mode_blob f.blob)
            (destroy_dumb_fb-Moves f.overlay.0 f.overlay.1) (destroy-Moves mode_blob f.blob))

    pub release-Moves : (d : Display) → Moves (release d) 0 (held d)
    unfolding release
    release-Moves d =
        let p = destroy_dumb_fb d.primary_fb_id d.primary_bo_handle in
        let o = destroy_dumb_fb d.overlay_fb_id d.overlay_bo_handle in
        let m = if d.mode_blob_id == 0 then [] else destroy mode_blob d.mode_blob_id ∷ [] in
        let x = destroy_dumb_fb-Moves d.primary_fb_id d.primary_bo_handle in
        let y = destroy_dumb_fb-Moves d.overlay_fb_id d.overlay_bo_handle in
        let z = free-Moves mode_blob d.mode_blob_id in
        (
          omega (arith, total-append makes p (o ++ m), total-append makes o m, x.0, y.0, z.0),
          omega (arith, total-append frees p (o ++ m), total-append frees o m, x.1, y.1, z.1),
        )

    pub after_commit-Moves :
        (settings : Settings) (a : Answers) (mode : Mode) (enable : Bool)
        → Moves (after_commit settings a mode enable).1 0 0
    unfolding after_commit
    after_commit-Moves settings a mode enable = ground arith

    pub switched-Moves : (b : Bool) (c : Bool) → Moves (if b then passthrough c ∷ [] else []) 0 0
    switched-Moves true c = (omega arith, omega arith)
    switched-Moves false c = (omega arith, omega arith)

    pub committed-Moves : (b : Bool) (r : Request) → Moves (if b then commit r ∷ [] else []) 0 0
    committed-Moves true r = (omega arith, omega arith)
    committed-Moves false r = (omega arith, omega arith)
