-- ===== src/Pcm/Bounds.antt =====
-- Sizes and counters of `drain`, whatever the device answers.
use qcap_demos.Prelude.{
  ℕ, zero, suc, ◌+◌, ◌-◌, ◌*◌, ◌/◌, ◌≤◌, ◌≡◌, Bool, List, refl, min, arith, length, length-drop, ℤ,
  pos_part,
}
use qcap_demos.Pcm.{
  no_stats, frame_bytes, max_frames, Draining, Pass, leave, again_with, trim, starved, requested,
  answer, pass, drain_loop, drain,
}

-- The state that a pass hands on, whether or not it leaves the loop.
abbrev pub outcome : {W : Type 0} → Pass W → Draining W
outcome (leave s) = s
outcome (again_with s) = s

-- What every pass keeps: with `total` the bytes that were queued and `lost` the frames
-- dropped, the queue and the accepted frames account for all of them.
pub record Accounts {W : Type 0} (total lost : ℕ) (s : Draining W) : Type 0 where
  pub conserved : length s.pending + frame_bytes * s.stats.accepted ≡ total
  pub kept : s.stats.dropped ≡ lost
  pub recovered : s.stats.recovery_errors ≤ s.stats.xruns + s.stats.suspended
  pub classed : s.stats.xruns + s.stats.suspended ≤ s.stats.errors

module _ {W : Type 0} (write : W → List ℕ → ℕ → ℤ × W) (prepare : W → ℤ × W) where
  -- A property that each pass keeps holds after the loop.
  pub drain_loop_inv {κ} :
      (P : Draining W → Type κ)
      → ((s : Draining W) → P s → P (outcome (pass write prepare s)))
      → (n : ℕ) (s : Draining W) → P s
      → P (drain_loop write prepare n s)
  unfolding drain_loop
  drain_loop_inv P keep zero s h = h
  drain_loop_inv P keep (suc n) s h =
      (elim (pass write prepare s)
          as (λ p.
            P (outcome p)
            → P (elim p [ leave t ↦ t | again_with t ↦ drain_loop write prepare n t ])) [
              | leave t ↦ λ h'. h'
              | again_with t ↦ λ h'. drain_loop_inv P keep n t h'
            ])
        (keep s h)

  answer-Accounts :
      (total lost : ℕ) (s : Draining W) (n : ℕ) (r : ℤ)
      → n * frame_bytes ≤ length s.pending
      → Accounts total lost s
      → Accounts total lost (outcome (answer write prepare s n r))
  unfolding answer
  answer-Accounts total lost s n r h a =
      ground (arith, length-drop (pos_part r * frame_bytes) s.pending)

  pass-Accounts :
      (total lost : ℕ) (s : Draining W)
      → Accounts total lost s
      → Accounts total lost (outcome (pass write prepare s))
  unfolding pass starved requested
  pass-Accounts total lost s a =
      let n = requested s in
      let (r, w) = write s.device s.pending n in
      ground (arith, answer-Accounts total lost (record s { device = w }) n r (omega arith))

  trim-Accounts :
      (s : Draining W)
      → s.stats ≡ no_stats
      → Accounts
          (min (length s.pending) (max_frames * frame_bytes))
          ((length s.pending - max_frames * frame_bytes) / frame_bytes)
          (trim s)
  unfolding trim
  trim-Accounts s e =
      ground (arith, length-drop (length s.pending - max_frames * frame_bytes) s.pending)

  -- Whatever the device answers: the bytes still queued and the frames that the device accepted
  -- add up to what was queued, cut at 7680 frames; the frames counted as dropped are the excess
  -- over that; a failed recovery is counted only with an underrun or a suspend, and those only
  -- with an error.
  pub drain_accounts :
      (pending : List ℕ) (short_tail : Bool) (device : W)
      → let t = drain write prepare pending short_tail device in
        (length t.pending + frame_bytes * t.stats.accepted
          ≡ min (length pending) (max_frames * frame_bytes))
        × (t.stats.dropped ≡ (length pending - max_frames * frame_bytes) / frame_bytes)
        × (t.stats.recovery_errors ≤ t.stats.xruns + t.stats.suspended)
        × (t.stats.xruns + t.stats.suspended ≤ t.stats.errors)
  unfolding drain
  drain_accounts pending short_tail device =
      let s : Draining W = record {
        pending = pending;
        short_tail = short_tail;
        stats = no_stats;
        device = device;
      } in
      let a =
        drain_loop_inv (Accounts _ _) (pass-Accounts _ _) 16 (trim s) (trim-Accounts s refl) in
      (a.conserved, a.kept, a.recovered, a.classed)
