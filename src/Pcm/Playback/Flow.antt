-- ===== src/Pcm/Playback/Flow.antt =====
-- The receiver's audio path as a whole: what arrives is played in order or still queued.
use qcap_demos.Prelude.{
  ℕ, ◌+◌, ◌-◌, ◌*◌, ◌/◌, ◌≡◌, refl, ap, Bool, true, false, ◌&&◌, List, ◌++◌, Option, some, length,
  min, drop, arith, if◌then◌else◌, ℤ, add64,
}
use qcap_demos.Pcm.{frame_bytes, max_frames, drain}
use qcap_demos.Pcm.Bounds.{drain_accounts}
use qcap_demos.Pcm.Fifo.{Logged, log_write, log_prepare, drain_fifo}
use qcap_demos.Pcm.Playback.{
  AudioFrame, Buffer, Audio, convert, describe, is_supported, queue_period, playback,
}
use qcap_demos.Pcm.Playback.Samples.{AreBytes, upper_24, convert-eq-upper_24}

-- A period reaches the queue exactly when the PCM is open and started and the period is supported.
abbrev pub is_playable : {W : Type 0} → ℕ → Audio W → Option AudioFrame → List ℕ → Bool
is_playable s32le a audio bytes =
    (a.pcm_open && a.pcm_started)
    && is_supported s32le (describe s32le audio (length bytes)) (length bytes)

module _ {W : Type 0} (write : W → List ℕ → ℕ → ℤ × W) (prepare : W → ℤ × W) where
  playback-queues :
      (s32le : ℕ) (a : Audio W) (buf : Buffer) (bytes : List ℕ) (audio : Option AudioFrame)
      → buf.bytes ≡ some bytes
      → is_playable s32le a audio bytes ≡ true
      → playback write prepare s32le a (some buf) audio ≡ queue_period write prepare a buf bytes
  unfolding playback
  playback-queues s32le a buf bytes audio e p = ground arith

  -- A period that is not playable leaves the queue, the device and the played frames alone; it is
  -- counted as unsupported if the PCM is open and started.
  pub playback_rejects :
      (s32le : ℕ) (a : Audio W) (buf : Buffer) (bytes : List ℕ) (audio : Option AudioFrame)
      → buf.bytes ≡ some bytes
      → is_playable s32le a audio bytes ≡ false
      → playback write prepare s32le a (some buf) audio ≡ record a {
        unsupported_periods =
            if a.pcm_open && a.pcm_started
            then add64 a.unsupported_periods 1
            else a.unsupported_periods;
      }
  unfolding playback
  playback_rejects s32le a buf bytes audio e p = ground arith

  queue_accounts :
      (a : Audio W) (buf : Buffer) (bytes : List ℕ)
      → let a' = queue_period write prepare a buf bytes in
        let queued = length (a.pending_frame ++ convert bytes) in
        (taken : ℕ) × (length a'.pending_frame + frame_bytes * taken
          ≡ min queued (max_frames * frame_bytes))
        × (a'.accepted_frames ≡ add64 a.accepted_frames taken)
        × (a'.queue_dropped
            ≡ add64 a.queue_dropped ((queued - max_frames * frame_bytes) / frame_bytes))
  unfolding queue_period
  queue_accounts a buf bytes =
      let queued = a.pending_frame ++ convert bytes in
      let h = drain_accounts write prepare queued a.short_tail a.device in
      (
        (drain write prepare queued a.short_tail a.device).stats.accepted,
        h.0,
        refl,
        ap (add64 a.queue_dropped) h.1,
      )

  -- A playable period: the queue stays within 7680 frames, and the frames newly
  -- accepted and the queue account for the old queue with the new period, cut at that bound. The
  -- receiver's counters advance by exactly those frames and by the frames dropped.
  pub playback_accounts :
      (s32le : ℕ) (a : Audio W) (buf : Buffer) (bytes : List ℕ) (audio : Option AudioFrame)
      → buf.bytes ≡ some bytes
      → is_playable s32le a audio bytes ≡ true
      → let a' = playback write prepare s32le a (some buf) audio in
        let queued = length (a.pending_frame ++ convert bytes) in
        (taken : ℕ) × (length a'.pending_frame + frame_bytes * taken
          ≡ min queued (max_frames * frame_bytes))
        × (a'.accepted_frames ≡ add64 a.accepted_frames taken)
        × (a'.queue_dropped
            ≡ add64 a.queue_dropped ((queued - max_frames * frame_bytes) / frame_bytes))
  playback_accounts s32le a buf bytes audio e p =
      rw (playback-queues s32le a buf bytes audio e p) (queue_accounts a buf bytes)

module _ {W : Type 0} (write : W → List ℕ → ℕ → ℤ × W) (prepare : W → ℤ × W) where
  queue-fifo :
      (a : Audio (Logged W)) (buf : Buffer) (bytes : List ℕ)
      → let a' = queue_period (log_write write) (log_prepare prepare) a buf bytes in
        let queued = a.pending_frame ++ convert bytes in
        a'.device.played ++ a'.pending_frame
        ≡ a.device.played ++ drop (length queued - max_frames * frame_bytes) queued
  unfolding queue_period
  queue-fifo a buf bytes =
      drain_fifo write prepare (a.pending_frame ++ convert bytes) a.short_tail a.device

  -- A playable period of bytes: the device's output followed by the queue grows by the upper 24 bits
  -- of each new sample, in order, less what the overflow rule drops from the front of the queue.
  pub playback_fifo :
      (s32le : ℕ) (a : Audio (Logged W)) (buf : Buffer) (bytes : List ℕ) (audio : Option AudioFrame)
      → buf.bytes ≡ some bytes
      → is_playable s32le a audio bytes ≡ true
      → AreBytes bytes
      → let a' = playback (log_write write) (log_prepare prepare) s32le a (some buf) audio in
        let queued = a.pending_frame ++ upper_24 bytes in
        a'.device.played ++ a'.pending_frame
        ≡ a.device.played ++ drop (length queued - max_frames * frame_bytes) queued
  playback_fifo s32le a buf bytes audio e p b =
      rw
        (
          playback-queues (log_write write) (log_prepare prepare) s32le a buf bytes audio e p,
          ← convert-eq-upper_24 bytes b,
        )
        (queue-fifo a buf bytes)
