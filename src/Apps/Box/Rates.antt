-- ===== src/Apps/Box/Rates.antt =====
-- src/utils/sc6f0-dante-box.cpp: `OnTimer`, which turns the tick counters into rates.
use qcap_demos.Prelude.{
  ℕ, suc, ◌+◌, ◌*◌, ◌^◌, ◌<◌, ◌≡◌, List, [], ◌∷◌, ltb, ◌==◌, if◌then◌else◌, ℤ, sub_ℕ, ◌-ℤ◌,
  -ℤ_parts, eq_of_parts, arith,
}
use qcap_demos.Text.Env.{as_int}

pub record AvgTicks : Type 0 where
  pub last_ts : ℕ
  pub ticks : ℤ

-- What is printed for a counter: the ticks, and the microseconds that they took.
pub record Rate : Type 0 where
  pub total_ticks : ℤ
  pub diff_ts : ℤ

-- `UserMM::Read` at an offset, a 32-bit word, as an `int`.
unfoldable pub read_ticks : (ℕ → ℕ) → ℕ → ℤ
read_ticks read index = as_int (read (12 + index * 4))

unfoldable pub note_ticks : (ℕ → ℕ) → ℕ → ℕ → AvgTicks → Rate × AvgTicks
note_ticks read now index stats =
    let ticks = read_ticks read index in
    (
      record { total_ticks = ticks -ℤ stats.ticks; diff_ts = sub_ℕ now stats.last_ts },
      record { last_ts = now; ticks = ticks },
    )

unfoldable pub note_all : (ℕ → ℕ) → ℕ → ℕ → List AvgTicks → List Rate × List AvgTicks
unfolding note_ticks
note_all read now index [] = ([], [])
note_all read now index (s ∷ ss) =
    let (rate, s') = note_ticks read now index s in
    let (rates, ss') = note_all read now (suc index) ss in (rate ∷ rates, s' ∷ ss')

-- The code of `qcap2_timer_wait` comes first.
unfoldable pub on_timer : ℕ → (ℕ → ℕ) → ℕ → List AvgTicks → List Rate × List AvgTicks
unfolding note_all
on_timer wait_code read now stats =
    if wait_code == 0 then note_all read now 0 stats else ([], stats)

abbrev pub IsWord : ℕ → Type 0
IsWord w = w < 2 ^ 32

-- 2^32 for a word that is negative as an `int`.
abbrev pub excess : ℕ → ℕ
excess w = if ltb w (2 ^ 31) then 0 else 2 ^ 32

difference_total :
    (w old : ℕ)
    → IsWord w
    → IsWord old
    → as_int w -ℤ as_int old ≡ sub_ℕ (w + excess old) (old + excess w)
difference_total w old h ho =
    eq_of_parts (as_int w -ℤ as_int old) (sub_ℕ (w + excess old) (old + excess w))
      (let parts = -ℤ_parts (as_int w) (as_int old) in ground arith)

-- A counter that reads `old` at one expiry and `new` at the next is printed with the ticks `new - old`,
-- off by 2^32 when exactly one of the two words is 2^31 or more: a counter that passes 2^31 is printed
-- with a negative count.
pub note_ticks_total :
    (read old_read : ℕ → ℕ) (now earlier index : ℕ) (stats : AvgTicks)
    → IsWord (read (12 + index * 4))
    → IsWord (old_read (12 + index * 4))
    → (note_ticks read now index (note_ticks old_read earlier index stats).1).0.total_ticks
      ≡ sub_ℕ
          (read (12 + index * 4) + excess (old_read (12 + index * 4)))
          (old_read (12 + index * 4) + excess (read (12 + index * 4)))
unfolding note_ticks read_ticks
note_ticks_total read old_read now earlier index stats h ho =
    difference_total (read (12 + index * 4)) (old_read (12 + index * 4)) h ho
