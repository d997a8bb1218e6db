-- ===== src/Zz/Stats/Conserved.antt =====
-- src/zzlab/ZzStats.cpp: nothing that is counted is lost or reported twice, and how far apart the reports are.
use qcap_demos.Prelude.{
  ℕ, ◌+◌, ◌^◌, ◌<◌, ◌≡◌, refl, Bool, List, [], ◌∷◌, length, Option, none, some, arith, add32, add64,
}
use qcap_demos.Zz.Stats.{BitRate, Report, log_bits}

-- The reports that are made, each with its time.
abbrev pub Reports : Type 0
Reports = List (ℕ × Report)

abbrev pub keep : ℕ → Option Report → Reports → Reports
keep ts none rs = rs
keep ts (some r) rs = (ts, r) ∷ rs

-- Calls of `Log`, each with its bits and time.
unfoldable pub log_all : Bool → List (ℕ × ℕ) → BitRate → Reports × BitRate
log_all force [] s = ([], s)
log_all force ((bits, ts) ∷ rest) s =
    let (r, s') = log_bits force bits ts s in
    let (rs, s'') = log_all force rest s' in (keep ts r rs, s'')

abbrev pub sum_ticks : Reports → ℕ
sum_ticks [] = 0
sum_ticks ((t, r) ∷ rs) = r.ticks + sum_ticks rs

abbrev pub sum_amounts : Reports → ℕ
sum_amounts [] = 0
sum_amounts ((t, r) ∷ rs) = r.amount + sum_amounts rs

abbrev pub sum_bits : List (ℕ × ℕ) → ℕ
sum_bits [] = 0
sum_bits ((bits, ts) ∷ rest) = bits + sum_bits rest

-- Every report comes more than the duration after the one before, covers the time since it, and the last of them is the
-- one that the next will be measured from.
abbrev pub AreSpaced : ℕ → ℕ → Reports → ℕ → Type 0
AreSpaced d last [] end = last ≡ end
AreSpaced d last ((t, r) ∷ rs) end = (last + d < t) × (last + r.duration ≡ t) × AreSpaced d t rs end

abbrev pub IsConserved : BitRate → List (ℕ × ℕ) → Reports × BitRate → Type 0
IsConserved s calls (rs, s') =
    (sum_amounts rs + s'.acc_bits ≡ s.acc_bits + sum_bits calls)
    × (sum_ticks rs + s'.acc_ticks ≡ s.acc_ticks + length calls)
    × AreSpaced s.stats_duration s.last_ts rs s'.last_ts
    × (s'.stats_duration ≡ s.stats_duration)

fits64 : (a b : ℕ) → a + b < 2 ^ 63 → add64 a b ≡ a + b
fits64 a b h = ground arith

fits32 : (a b : ℕ) → a + b < 2 ^ 31 → add32 a b ≡ a + b
fits32 a b h = ground arith

-- Over any calls of `ZzStatBitRate::Log` whose bits and number fit in 63 and 31 bits: the reported bits and those still
-- held are all the bits, the reported calls and those still held are all the calls; and each report comes more than the
-- duration after the one before, or after the time at the start, and covers exactly the time since then.
pub log_all-IsConserved :
    (force : Bool) (calls : List (ℕ × ℕ)) (s : BitRate)
    → s.acc_bits + sum_bits calls < 2 ^ 63
    → s.acc_ticks + length calls < 2 ^ 31
    → IsConserved s calls (log_all force calls s)
unfolding log_all log_bits
log_all-IsConserved force [] s hb ht = (ground arith, ground arith, refl, refl)
log_all-IsConserved force ((bits, ts) ∷ rest) s hb ht =
    let wb = fits64 s.acc_bits bits (omega arith) in
    let wt = fits32 s.acc_ticks 1 (omega arith) in
    let next =
      log_all-IsConserved force rest (log_bits force bits ts s).1 (ground arith) (ground arith) in
    ground arith
