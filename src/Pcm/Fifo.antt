-- ===== src/Pcm/Fifo.antt =====
-- Order: what the device plays is the queue, in order, and nothing twice.
use qcap_demos.Prelude.{
  ℕ, zero, suc, ◌+◌, ◌-◌, ◌*◌, ◌≤◌, ◌≡◌, refl, ◌∙◌, Bool, List, ◌++◌, append_assoc, arith, length,
  take, drop, take-append-drop, ℤ, pos_part, if◌then◌else◌,
}
use qcap_demos.Pcm.{
  frame_bytes, max_frames, no_stats, Draining, Pass, leave, again_with, trim, requested,
  is_progress, answer, pass, drain_loop, drain,
}
use qcap_demos.Pcm.Bounds.{outcome, drain_loop_inv}

-- A device beside what it has played, and how often it was called.
pub record Logged (W : Type 0) : Type 0 where
  pub inner : W
  pub played : List ℕ
  pub writes : ℕ
  pub prepares : ℕ

-- The device takes the frames that it says it took, and no other.
abbrev pub log_write :
    {W : Type 0} → (W → List ℕ → ℕ → ℤ × W) → Logged W → List ℕ → ℕ → ℤ × Logged W
log_write write d bytes n =
    let (r, w) = write d.inner bytes n in
    (
      r,
      record {
        inner = w;
        played =
            if is_progress n r then d.played ++ take (pos_part r * frame_bytes) bytes else d.played;
        writes = d.writes + 1;
        prepares = d.prepares;
      },
    )

abbrev pub log_prepare : {W : Type 0} → (W → ℤ × W) → Logged W → ℤ × Logged W
log_prepare prepare d =
    let (r, w) = prepare d.inner in (r, record d { inner = w; prepares = d.prepares + 1 })

module _ {W : Type 0} (write : W → List ℕ → ℕ → ℤ × W) (prepare : W → ℤ × W) where
  -- The device's output followed by the queue.
  abbrev stream : Draining (Logged W) → List ℕ
  stream s = s.device.played ++ s.pending

  stream-pass :
      (s : Draining (Logged W))
      → stream (outcome (pass (log_write write) (log_prepare prepare) s)) ≡ stream s
  unfolding pass answer
  stream-pass s = ground (
    arith,
    take-append-drop (pos_part (write s.device.inner s.pending (requested s)).0 * frame_bytes)
        s.pending,
    append_assoc s.device.played
        (take (pos_part (write s.device.inner s.pending (requested s)).0 * frame_bytes) s.pending)
        (drop (pos_part (write s.device.inner s.pending (requested s)).0 * frame_bytes) s.pending),
  )

  drop_none : (n : ℕ) (xs : List ℕ) → n ≡ 0 → drop n xs ≡ xs
  drop_none zero xs e = refl
  drop_none (suc n) xs e = absurd (omega arith)

  trim-stream :
      (pending : List ℕ) (short_tail : Bool) (device : Logged W)
      → stream (
          trim (record {
            pending = pending;
            short_tail = short_tail;
            stats = no_stats;
            device = device;
          }))
        ≡ device.played ++ drop (length pending - max_frames * frame_bytes) pending
  unfolding trim
  trim-stream pending short_tail device =
      ground (arith, drop_none (length pending - max_frames * frame_bytes) pending)

  -- Whatever the device answers: what it has played, followed by what is still queued, is what it
  -- had played before followed by the queue without the bytes of the overflow rule. So no frame is
  -- lost, repeated or reordered.
  pub drain_fifo :
      (pending : List ℕ) (short_tail : Bool) (device : Logged W)
      → let t = drain (log_write write) (log_prepare prepare) pending short_tail device in
        t.device.played ++ t.pending
        ≡ device.played ++ drop (length pending - max_frames * frame_bytes) pending
  unfolding drain trim
  drain_fifo pending short_tail device =
      drain_loop_inv (log_write write) (log_prepare prepare)
        (λ s. stream s ≡ device.played ++ drop (length pending - max_frames * frame_bytes) pending)
        (λ s e. stream-pass s ∙ e) 16
        (trim (record {
          pending = pending;
          short_tail = short_tail;
          stats = no_stats;
          device = device;
        }))
        (trim-stream pending short_tail device)

  abbrev CallsWithin : Draining (Logged W) → Draining (Logged W) → ℕ → Type 0
  CallsWithin s t n =
      (t.device.writes ≤ s.device.writes + n)
      × (t.device.prepares + s.stats.xruns + s.stats.suspended
          ≡ s.device.prepares + t.stats.xruns + t.stats.suspended)
      × (t.stats.errors + t.stats.again ≤ s.stats.errors + s.stats.again + 1)

  -- A pass that goes round again has met neither an error nor backpressure.
  abbrev PassCalls : Draining (Logged W) → Pass (Logged W) → Type 0
  PassCalls s (leave t) = CallsWithin s t 1
  PassCalls s (again_with t) =
      CallsWithin s t 1 × (t.stats.errors + t.stats.again ≡ s.stats.errors + s.stats.again)

  pass-PassCalls :
      (s : Draining (Logged W)) → PassCalls s (pass (log_write write) (log_prepare prepare) s)
  unfolding pass answer
  pass-PassCalls s = ground arith

  loop-CallsWithin :
      (n : ℕ) (s : Draining (Logged W))
      → CallsWithin s (drain_loop (log_write write) (log_prepare prepare) n s) n
  unfolding drain_loop
  loop-CallsWithin zero s = omega arith
  loop-CallsWithin (suc n) s =
      (elim (pass (log_write write) (log_prepare prepare) s)
          as (λ p.
            PassCalls s p
            → CallsWithin s
                (elim p [
                  | leave t ↦ t
                  | again_with t ↦ drain_loop (log_write write) (log_prepare prepare) n t
                ])
                (suc n)) [
                  | leave t ↦ λ h. omega arith
                  | again_with t ↦ λ h. omega (arith, loop-CallsWithin n t)
                ])
        (pass-PassCalls s)

  -- Whatever the device answers: one call of `drain` makes at most 16 writes, one recovery for each
  -- underrun or suspend and no other, and ends with the first error or refusal, so that it never
  -- spins while it holds the audio mutex.
  pub drain_calls_bounded :
      (pending : List ℕ) (short_tail : Bool) (device : Logged W)
      → let t = drain (log_write write) (log_prepare prepare) pending short_tail device in
        (t.device.writes ≤ device.writes + 16)
        × (t.device.prepares ≡ device.prepares + t.stats.xruns + t.stats.suspended)
        × (t.stats.errors + t.stats.again ≤ 1)
  unfolding drain trim
  drain_calls_bounded pending short_tail device =
      let s = trim (record {
        pending = pending;
        short_tail = short_tail;
        stats = no_stats;
        device = device;
      }) in
      ground (arith, loop-CallsWithin 16 s)
