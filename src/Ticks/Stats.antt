-- ===== src/Ticks/Stats.antt =====
-- src/utils/zdev-ticks-stat.cpp: the statistics of one counter. The floating-point operations are an
-- argument.
use qcap_demos.Prelude.{ℕ, ◌-◌, Bool, ltb, add64, if◌then◌else◌}

pub record Arithmetic (F : Type 0) : Type 0 where
  pub of_nat : ℕ → F
  pub plus : F → F → F
  pub minus : F → F → F
  pub times : F → F → F
  pub over : F → F → F
  pub root : F → F
  pub is_less : F → F → Bool
  pub infinity : F
  pub minus_infinity : F

pub record CounterStats (F : Type 0) : Type 0 where
  pub samples : ℕ
  pub total_ticks : ℕ
  pub mean : F
  pub m2 : F
  pub minimum : F
  pub maximum : F

module _ {F : Type 0} (real : Arithmetic F) where
  unfoldable pub new_stats : CounterStats F
  new_stats = record {
    samples = 0;
    total_ticks = 0;
    mean = real.of_nat 0;
    m2 = real.of_nat 0;
    minimum = real.infinity;
    maximum = real.minus_infinity;
  }

  unfoldable pub add : ℕ → F → CounterStats F → CounterStats F
  add ticks seconds s =
      let rate = real.over (real.of_nat ticks) seconds in
      let samples = add64 s.samples 1 in
      let delta = real.minus rate s.mean in
      let mean = real.plus s.mean (real.over delta (real.of_nat samples)) in
      record {
        samples = samples;
        total_ticks = add64 s.total_ticks ticks;
        mean = mean;
        m2 = real.plus s.m2 (real.times delta (real.minus rate mean));
        minimum = if real.is_less rate s.minimum then rate else s.minimum;
        maximum = if real.is_less s.maximum rate then rate else s.maximum;
      }

  unfoldable pub standard_deviation : CounterStats F → F
  standard_deviation s =
      if ltb s.samples 2
      then real.of_nat 0
      else real.root (real.over s.m2 (real.of_nat (s.samples - 1)))
