-- ===== src/Pcm/Playback.antt =====
-- src/tests/sc6f0-dante-rx.cpp, `rx_audio_playback`: a period of S32LE samples is converted to
-- S24_LE slots, queued and drained. The lock is the caller's turn: a call runs as a whole.
pub mod Samples
pub mod Flow
use qcap_demos.Prelude.{
  ℕ, zero, suc, ◌+◌, ◌*◌, ◌/◌, ◌%◌, ◌^◌, ◌<◌, ◌≡◌, Bool, true, false, ◌&&◌, ◌||◌, not, List, [],
  ◌∷◌, ◌++◌, Option, none, some, ltb, leb, ◌==◌, if◌then◌else◌, length, ℤ, add64,
}
use qcap_demos.Pcm.{frame_bytes, WriteStats, Draining, drain}

-- `zst_audio_frame_t`, the fields that are read.
pub record AudioFrame : Type 0 where
  pub channels : ℕ
  pub sample_rate : ℕ
  pub format : ℕ
  pub nb_samples : ℕ

-- `zst_buffer_t`: the bytes at `memory.data` (`none` for a null pointer), and `pts`.
pub record Buffer : Type 0 where
  pub bytes : Option (List ℕ)
  pub pts : ℕ

-- The audio part of `zst_dante_rx_t`. `device` is the PCM behind `audio_pcm`.
pub record Audio (W : Type 0) : Type 0 where
  pub pcm_open : Bool
  pub pcm_started : Bool
  pub pending_frame : List ℕ
  pub short_tail : Bool
  pub pending_pts : ℕ
  pub accepted_frames : ℕ
  pub again : ℕ
  pub short_writes : ℕ
  pub xruns : ℕ
  pub recovery_errors : ℕ
  pub queue_dropped : ℕ
  pub playback_errors : ℕ
  pub unsupported_periods : ℕ
  pub device : W

-- The int32_t at four bytes, as its bit pattern, least significant byte first.
abbrev pub load_32 : ℕ → ℕ → ℕ → ℕ → ℕ
load_32 b0 b1 b2 b3 = b0 + 256 * b1 + 65536 * b2 + 16777216 * b3

-- `sample >>= 8` on a signed pattern keeps the sign.
abbrev pub shift_right_8 : ℕ → ℕ
shift_right_8 w = if ltb w (2 ^ 31) then w / 256 else w / 256 + 0xff000000

-- Each sample becomes the low 24 bits of the shifted value in a 32-bit slot.
unfoldable pub convert : List ℕ → List ℕ
convert (b0 ∷ b1 ∷ b2 ∷ b3 ∷ rest) =
    let sample = shift_right_8 (load_32 b0 b1 b2 b3) in
    sample % 256 ∷ sample / 256 % 256 ∷ sample / 65536 % 256 ∷ 0 ∷ convert rest
convert _ = []

-- `s32le` is zstreamer's ZST_AUDIO_FMT_S32LE.
module _ (s32le : ℕ) where
  -- What the period says of itself, with the defaults of a buffer that has no payload.
  unfoldable pub describe : Option AudioFrame → ℕ → AudioFrame
  describe none size = record {
    channels = 2;
    sample_rate = 48000;
    format = s32le;
    nb_samples = size / 8;
  }
  describe (some audio) size = audio

  unfoldable pub is_supported : AudioFrame → ℕ → Bool
  is_supported f size =
      f.channels == 2
      && (f.sample_rate == 48000
          && (f.format == s32le
              && (not (f.nb_samples == 0) && (leb f.nb_samples 48000 && size == f.nb_samples * 8))))

module _ {W : Type 0} (write : W → List ℕ → ℕ → ℤ × W) (prepare : W → ℤ × W) where
  -- The counters of one drain are added to those of the receiver.
  unfoldable pub note_drain : Audio W → Draining W → Audio W
  note_drain a t =
      let s = t.stats in
      let errors = add64 a.playback_errors (add64 s.errors s.recovery_errors) in
      record a {
        pending_frame = t.pending;
        short_tail = t.short_tail;
        device = t.device;
        accepted_frames = add64 a.accepted_frames s.accepted;
        again = add64 a.again s.again;
        short_writes = add64 a.short_writes s.short_writes;
        xruns = add64 a.xruns s.xruns;
        recovery_errors = add64 a.recovery_errors s.recovery_errors;
        queue_dropped = add64 a.queue_dropped s.dropped;
        playback_errors = if s.dropped == 0 then errors else add64 errors 1;
      }

  abbrev pub is_empty : List ℕ → Bool
  is_empty [] = true
  is_empty (_ ∷ _) = false

  unfoldable pub queue_period : Audio W → Buffer → List ℕ → Audio W
  unfolding note_drain
  queue_period a buf bytes =
      let queued = a.pending_frame ++ convert bytes in
      let stamped = record a {
        pending_pts = if is_empty a.pending_frame then buf.pts else a.pending_pts;
      } in
      note_drain stamped (drain write prepare queued a.short_tail a.device)

  unfoldable pub playback : ℕ → Audio W → Option Buffer → Option AudioFrame → Audio W
  unfolding describe is_supported queue_period
  playback s32le a none audio = a
  playback s32le a (some buf) audio = elim (buf.bytes) [
    | none ↦ a
    | some bytes ↦
        if not (a.pcm_open && a.pcm_started)
        then a
        else if is_supported s32le (describe s32le audio (length bytes)) (length bytes)
        then queue_period a buf bytes
        else (record a { unsupported_periods = add64 a.unsupported_periods 1 })
  ]
