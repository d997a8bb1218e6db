-- ===== src/Pcm.antt =====
-- src/tests/sc6f0-pcm-write-queue.h: the bounded PCM queue that is drained into a nonblocking
-- ALSA device. The two callables of the template are parameters: a call takes the device's state
-- and gives its answer with the next state.
pub mod Bounds
pub mod Fifo
pub mod Liveness
pub mod Playback
pub mod Sink
mod Tests
use qcap_demos.Prelude.{
  ℕ, zero, suc, ◌+◌, ◌-◌, ◌*◌, ◌/◌, ◌<◌, min, Bool, true, false, ◌&&◌, ◌||◌, not, List, ltb, leb,
  ◌==◌, if◌then◌else◌, length, drop, ℤ, pos, negsuc, pos_part, ltb_ℤ, eqb_ℤ,
}

-- The error codes of Linux that the loop tells apart, as the negative results of a write.
abbrev pub neg_again : ℤ
neg_again = negsuc 10

abbrev pub neg_intr : ℤ
neg_intr = negsuc 3

abbrev pub neg_pipe : ℤ
neg_pipe = negsuc 31

abbrev pub neg_strpipe : ℤ
neg_strpipe = negsuc 85

-- Stereo S24_LE in 32-bit slots.
abbrev pub frame_bytes : ℕ
frame_bytes = 8

abbrev pub chunk : ℕ
chunk = 960

abbrev pub max_frames : ℕ
max_frames = 7680

-- The counters are uint64_t; one call adds at most 15360 to each, so they stay exact.
pub record WriteStats : Type 0 where
  pub accepted : ℕ
  pub again : ℕ
  pub short_writes : ℕ
  pub xruns : ℕ
  pub suspended : ℕ
  pub errors : ℕ
  pub recovery_errors : ℕ
  pub dropped : ℕ

abbrev pub no_stats : WriteStats
no_stats = record {
  accepted = 0;
  again = 0;
  short_writes = 0;
  xruns = 0;
  suspended = 0;
  errors = 0;
  recovery_errors = 0;
  dropped = 0;
}

-- What a call of `drain` works on: the queue, the flag, the counters, and the device `W`.
pub record Draining (W : Type 0) : Type 0 where
  pub pending : List ℕ
  pub short_tail : Bool
  pub stats : WriteStats
  pub device : W

-- One pass through the loop either leaves it or goes round again.
pub data Pass (W : Type 0) : Type 0 where
  leave : Draining W → Pass W
  again_with : Draining W → Pass W

-- The overflow rule, ahead of the loop: only whole-queue excess over `max_frames` is dropped, from
-- the front.
unfoldable pub trim : {W : Type 0} → Draining W → Draining W
trim s =
    if ltb (max_frames * frame_bytes) (length s.pending)
    then (record s {
      pending = drop excess s.pending;
      stats = record (s.stats) { dropped = excess / frame_bytes };
      short_tail = false;
    })
    else s
  where
    excess : ℕ
    excess = length s.pending - max_frames * frame_bytes

-- The test that ends the loop before a write.
unfoldable pub starved : {W : Type 0} → Draining W → Bool
starved s =
    let available = length s.pending / frame_bytes in
    available == 0 || (not s.short_tail && ltb available chunk)

unfoldable pub requested : {W : Type 0} → Draining W → ℕ
requested s = min (length s.pending / frame_bytes) chunk

-- `written > 0 && static_cast<size_t>(written) <= requested`
unfoldable pub is_progress : ℕ → ℤ → Bool
is_progress requested written = ltb_ℤ (pos 0) written && leb (pos_part written) requested

unfoldable pub progress : {W : Type 0} → Draining W → ℕ → ℕ → Draining W
progress s requested written =
    let short = ltb written requested in
    record s {
      pending = drop (written * frame_bytes) s.pending;
      short_tail = short;
      stats = record (s.stats) {
        accepted = s.stats.accepted + written;
        short_writes = if short then s.stats.short_writes + 1 else s.stats.short_writes;
      };
    }

-- Nothing was written and nothing is wrong: the data stays for the next input callback.
unfoldable pub is_backpressure : ℤ → Bool
is_backpressure written =
    eqb_ℤ written (pos 0) || (eqb_ℤ written neg_again || eqb_ℤ written neg_intr)

module _ {W : Type 0} (write : W → List ℕ → ℕ → ℤ × W) (prepare : W → ℤ × W) where
  unfoldable pub recover : Draining W → ℤ → Draining W
  recover s written =
      let failed = record (s.stats) { errors = s.stats.errors + 1 } in
      let (ready, device) = prepare s.device in
      let counted = record failed {
        xruns = if eqb_ℤ written neg_pipe then failed.xruns + 1 else failed.xruns;
        suspended = if eqb_ℤ written neg_pipe then failed.suspended else failed.suspended + 1;
        recovery_errors =
            if ltb_ℤ ready (pos 0) then failed.recovery_errors + 1 else failed.recovery_errors;
      } in
      if eqb_ℤ written neg_pipe || eqb_ℤ written neg_strpipe
      then (record s { stats = counted; device = device })
      else (record s { stats = failed })

  -- The body of the loop after the write has answered.
  unfoldable pub answer : Draining W → ℕ → ℤ → Pass W
  unfolding is_progress progress is_backpressure recover
  answer s n written =
      if is_progress n written
      then again_with (progress s n (pos_part written))
      else if is_backpressure written
      then leave (record s {
        stats = record (s.stats) {
          again = if eqb_ℤ written neg_again then s.stats.again + 1 else s.stats.again;
        };
      })
      else leave (recover s written)

  unfoldable pub pass : Draining W → Pass W
  unfolding starved requested answer
  pass s =
      let n = requested s in
      let (written, device) = write s.device s.pending n in
      if starved s then leave s else answer (record s { device = device }) n written

  -- `attempts` counts the passes that the loop still has.
  unfoldable pub drain_loop : ℕ → Draining W → Draining W
  drain_loop zero s = s
  drain_loop (suc attempts) s = elim (pass s) [ leave t ↦ t | again_with t ↦ drain_loop attempts t ]

  unfoldable pub drain : List ℕ → Bool → W → Draining W
  unfolding trim pass drain_loop
  drain pending short_tail device = drain_loop 16 (
      trim
        (record { pending = pending; short_tail = short_tail; stats = no_stats; device = device }))
