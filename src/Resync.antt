-- ===== src/Resync.antt =====
-- src/tests/sc6f0-sdi-resync-policy.h: when the receiver may reinitialise a suspect SDI output.
pub mod Ring
pub mod RateLimit
pub mod Debounce
pub mod Watchdog
pub mod Reset
pub mod OptIn
mod Tests
use Prim.Native.Nat.{bit_and}
use qcap_demos.Prelude.{
  ℕ, zero, suc, ◌+◌, ◌*◌, ◌/◌, ◌%◌, ◌^◌, Bool, true, false, ◌&&◌, ◌||◌, not, List, [], ◌∷◌, ltb,
  leb, ◌==◌, if◌then◌else◌, set, add64, sub64, add32,
}

-- Milliseconds, as uint64_t.
abbrev pub sample_ms : ℕ
sample_ms = 500

abbrev pub debounce_ms : ℕ
debounce_ms = 2000

abbrev pub cooldown_ms : ℕ
cooldown_ms = 5000

abbrev pub attempt_window_ms : ℕ
attempt_window_ms = 60000

abbrev pub max_attempts : ℕ
max_attempts = 3

-- Bit 11 is set and the upper half is 12; all ones is what a dead bus reads as.
unfoldable pub has_suspect_alignment_history : ℕ → Bool
has_suspect_alignment_history status =
    not (status == 0xffffffff) && (not (bit_and status 0x800 == 0) && status / 65536 == 12)

-- `struct Policy`. `attempts_ms` has `max_attempts` entries; `samples` and `attempts` are 32 bits.
pub record Policy : Type 0 where
  pub next_sample_ms : ℕ
  pub suspect_ms : ℕ
  pub cooldown_until_ms : ℕ
  pub attempts_ms : List ℕ
  pub samples : ℕ
  pub attempts : ℕ
  pub failed : Bool

abbrev pub initial : Policy
initial = record {
  next_sample_ms = 0;
  suspect_ms = 0;
  cooldown_until_ms = 0;
  attempts_ms = 0 ∷ 0 ∷ 0 ∷ [];
  samples = 0;
  attempts = 0;
  failed = false;
}

-- The loop over the past attempts, from index `i`: how many lie within the window.
unfoldable pub recent_from : ℕ → ℕ → ℕ → List ℕ → ℕ
recent_from now attempts i [] = 0
recent_from now attempts i (t ∷ ts) =
    let rest = recent_from now attempts (i + 1) ts in
    if ltb i attempts then (if ltb (sub64 now t) attempt_window_ms then rest + 1 else rest) else 0

unfoldable pub recent : ℕ → Policy → ℕ
unfolding recent_from
recent now p = recent_from now p.attempts 0 p.attempts_ms

-- The accepted sample: the next time is set, and a gap in the polling restarts the count.
unfoldable pub sampled : ℕ → Policy → Policy
sampled now p = record p {
  samples =
      if not (p.next_sample_ms == 0) && ltb (add64 p.next_sample_ms (2 * sample_ms)) now
      then 0
      else p.samples;
  next_sample_ms = add64 now sample_ms;
}

-- The suspect sample is counted; the first one starts the clock.
unfoldable pub counted : ℕ → Policy → Policy
counted now p = record p {
  suspect_ms = if p.samples == 0 then now else p.suspect_ms;
  samples = add32 p.samples 1;
}

unfoldable pub attempt : ℕ → Policy → Policy
attempt now p = record p {
  attempts_ms = set p.attempts_ms (p.attempts % max_attempts) now;
  attempts = add32 p.attempts 1;
  cooldown_until_ms = add64 now cooldown_ms;
  samples = 0;
}

unfoldable pub observe : Policy → ℕ → ℕ → Bool → Policy × Bool
unfolding sampled counted attempt recent
observe p now status eligible =
    let q = sampled now p in
    let c = counted now q in
    if ltb now p.next_sample_ms
    then (p, false)
    else if q.failed
        || (not (eligible && has_suspect_alignment_history status) || ltb now q.cooldown_until_ms)
    then (record q { samples = 0 }, false)
    else if ltb c.samples 5 || ltb (sub64 now c.suspect_ms) debounce_ms
    then (c, false)
    else if leb max_attempts (recent now c)
    then (c, false)
    else (attempt now c, true)
