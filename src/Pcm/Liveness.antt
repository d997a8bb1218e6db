-- ===== src/Pcm/Liveness.antt =====
-- Progress: a device that takes what it is given empties the queue.
use qcap_demos.Prelude.{
  ℕ, zero, suc, ◌-◌, ◌*◌, ◌/◌, ◌≤◌, ◌<◌, ◌≡◌, refl, Bool, List, arith, length, length-drop, min, ℤ,
  pos,
}
use qcap_demos.Pcm.{
  frame_bytes, max_frames, no_stats, chunk, Draining, Pass, leave, again_with, trim, requested,
  answer, pass, drain_loop, drain,
}

module _ {W : Type 0} (write : W → List ℕ → ℕ → ℤ × W) (prepare : W → ℤ × W)
    (takes_all : (w : W) (bytes : List ℕ) (n : ℕ) → (write w bytes n).0 ≡ pos n) where
  abbrev frames : Draining W → ℕ
  frames s = length s.pending / frame_bytes

  abbrev Emptied : Draining W → Draining W → Type 0
  Emptied s t =
      (frames t < chunk)
      × (t.stats.errors ≡ s.stats.errors)
      × (t.stats.again ≡ s.stats.again)
      × (t.stats.short_writes ≡ s.stats.short_writes)

  abbrev Advances : Draining W → Pass W → Type 0
  Advances s (leave t) = Emptied s t
  Advances s (again_with t) =
      (frames t ≡ frames s - min (frames s) chunk)
      × (0 < frames s)
      × (t.stats.errors ≡ s.stats.errors)
      × (t.stats.again ≡ s.stats.again)
      × (t.stats.short_writes ≡ s.stats.short_writes)

  pass-Advances : (s : Draining W) → Advances s (pass write prepare s)
  unfolding pass answer
  pass-Advances s = ground (
    arith,
    takes_all s.device s.pending (requested s),
    length-drop (requested s * frame_bytes) s.pending,
  )

  loop_empties :
      (n : ℕ) (s : Draining W) → frames s ≤ chunk * n → Emptied s (drain_loop write prepare n s)
  unfolding drain_loop
  loop_empties zero s h = omega arith
  loop_empties (suc n) s h =
      (elim (pass write prepare s)
          as (λ p.
            Advances s p
            → Emptied s (elim p [ leave t ↦ t | again_with t ↦ drain_loop write prepare n t ])) [
              | leave t ↦ λ a. a
              | again_with t ↦ λ a. omega (arith, loop_empties n t (omega arith))
            ])
        (pass-Advances s)

  trim_small :
      (s : Draining W)
      → s.stats ≡ no_stats
      → let t = trim s in
        (frames t ≤ max_frames)
        × (t.stats.errors ≡ 0)
        × (t.stats.again ≡ 0)
        × (t.stats.short_writes ≡ 0)
  unfolding trim
  trim_small s e =
      ground (arith, length-drop (length s.pending - max_frames * frame_bytes) s.pending)

  -- If the device takes all that each write offers, one call of `drain` leaves less than one period
  -- of 960 frames in the queue, whatever was queued, with no error, refusal or short write counted.
  -- So the 16 passes are enough for a full queue.
  pub drain_empties :
      (pending : List ℕ) (short_tail : Bool) (device : W)
      → let t = drain write prepare pending short_tail device in
        (length t.pending / frame_bytes < chunk)
        × (t.stats.errors ≡ 0)
        × (t.stats.again ≡ 0)
        × (t.stats.short_writes ≡ 0)
  unfolding drain
  drain_empties pending short_tail device =
      let s : Draining W = record {
        pending = pending;
        short_tail = short_tail;
        stats = no_stats;
        device = device;
      } in
      let small = trim_small s refl in omega (arith, loop_empties 16 (trim s) (omega arith), small)
