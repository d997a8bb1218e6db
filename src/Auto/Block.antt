-- ===== src/Auto/Block.antt =====
-- src/tests/sc6f0-dante-rx.cpp: the switch to the decoder does not change whether a retry is blocked.
use qcap_demos.Prelude.{ℕ, ◌≡◌, refl, Bool, true, false, if◌then◌else◌, arith, ◌==◌}
use qcap_demos.Auto.{
  Mixer, State, Round, start_audio, stop_drm_output, start_drm_output, select, switch_over,
}

module _ {D A : Type 0} (mixer : Mixer D A) (is_sdi : Bool) (fixed_w fixed_h : ℕ) where
  start_drm_output-blocked :
      (r : Round A) (s : State D)
      → (start_drm_output is_sdi r s).1.avh_retry_blocked ≡ s.avh_retry_blocked
  unfolding start_drm_output start_audio stop_drm_output
  start_drm_output-blocked r s = ground arith

  select-blocked :
      (r : Round A) (s : State D)
      → (select mixer is_sdi fixed_w fixed_h r s).avh_retry_blocked ≡ s.avh_retry_blocked
  unfolding select
  select-blocked r s = ground arith

  -- A test decides between two states that agree with a third on a blocked retry.
  branches :
      (b : Bool) (x y : State D) (z : Bool)
      → x.avh_retry_blocked ≡ z
      → y.avh_retry_blocked ≡ z
      → (if b then x else y).avh_retry_blocked ≡ z
  branches true x y z hx hy = hx
  branches false x y z hx hy = hy

  switched-blocked :
      (r : Round A) (s : State D)
      → (if (start_drm_output is_sdi r s).0
          then select mixer is_sdi fixed_w fixed_h r (start_drm_output is_sdi r s).1
          else (start_drm_output is_sdi r s).1).avh_retry_blocked
        ≡ s.avh_retry_blocked
  switched-blocked r s =
      branches (start_drm_output is_sdi r s).0
        (select mixer is_sdi fixed_w fixed_h r (start_drm_output is_sdi r s).1)
        (start_drm_output is_sdi r s).1 s.avh_retry_blocked
        (rw (select-blocked r (start_drm_output is_sdi r s).1) (start_drm_output-blocked r s))
        (start_drm_output-blocked r s)

  pub switch_over-blocked :
      (r : Round A) (s : State D)
      → (switch_over mixer is_sdi fixed_w fixed_h r s).avh_retry_blocked ≡ s.avh_retry_blocked
  unfolding switch_over
  switch_over-blocked r s =
      let w : ℕ = (mixer.size s.display).0 in
      let w' : ℕ = if w == 0 then fixed_w else w in
      let height : ℕ = (mixer.size s.display).1 in
      let height' : ℕ = if height == 0 then fixed_h else height in
      let off : Bool × D = mixer.turn_off r.off w' height' s.display in
      branches off.0 _ (record s { display = off.1 }) s.avh_retry_blocked
        (switched-blocked r (record s { display = off.1 })) refl
