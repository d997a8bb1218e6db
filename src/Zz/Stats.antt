-- ===== src/Zz/Stats.antt =====
-- src/zzlab/ZzStats.cpp, src/zzlab/ZzStats.h: what is counted between two reports. Times, bits and
-- durations are not negative; the sums wrap at the width of their types, of which the upper half stands
-- for negative sums. The printed rates are floating point and are left out.
pub mod Conserved
use qcap_demos.Prelude.{
  ℕ, ◌+◌, ◌-◌, ◌^◌, Bool, true, false, ◌&&◌, not, Option, none, some, ltb, leb, if◌then◌else◌,
  add32, add64,
}

-- What `shmat` gave: nothing yet, (void*)-1, or memory.
pub data Pointer : Type 0 where
  null invalid mapped : Pointer

pub record BitRate : Type 0 where
  pub stats_duration : ℕ
  pub cur_ts : ℕ
  pub last_ts : ℕ
  pub acc_ticks : ℕ
  pub acc_bits : ℕ
  pub max_bits : ℕ
  pub sh_mempos : ℕ
  pub shm_id : Option ℕ
  pub shm_ptr : Pointer

-- Where a report goes: the shared memory, or the log with a unit.
pub data Output : Type 0 where
  shared : Output
  log : ℕ → Output

pub record Report : Type 0 where
  pub output : Output
  pub ticks : ℕ
  pub amount : ℕ
  pub duration : ℕ

-- `shm_id >= 0 && shm_ptr`.
unfoldable pub is_attached : Option ℕ → Pointer → Bool
is_attached none p = false
is_attached (some id) null = false
is_attached (some id) invalid = true
is_attached (some id) mapped = true

-- The constructors; the fields that they do not set are what they were.
unfoldable pub new_bits : BitRate → BitRate
new_bits s = record s { stats_duration = 1000000; sh_mempos = 0; shm_id = none }

-- Also says whether the shared memory is written to and given back.
unfoldable pub reset_bits : BitRate → Bool × BitRate
unfolding is_attached
reset_bits s =
    let was = is_attached s.shm_id s.shm_ptr in
    let s' : BitRate = record s {
      last_ts = 0;
      cur_ts = 0;
      acc_ticks = 0;
      acc_bits = 0;
      max_bits = 0;
    } in
    (was, if was then record s' { sh_mempos = 0; shm_id = none } else s')

-- `shmget` gave an identifier or failed; `shmat` is called in both cases.
unfoldable pub share : ℕ → Option ℕ → Bool → BitRate → BitRate
share mempos id attaches s = record s {
  sh_mempos = mempos;
  shm_id = id;
  shm_ptr = if attaches then mapped else invalid;
}

-- The factor that the bits are divided by.
unfoldable pub unit_of : ℕ → ℕ
unit_of bits = if ltb bits (2 ^ 20) then 2 ^ 10 else (if ltb bits (2 ^ 30) then 2 ^ 20 else 2 ^ 30)

-- `Log`; `some` is `true`.
unfoldable pub log_bits : Bool → ℕ → ℕ → BitRate → Option Report × BitRate
unfolding is_attached unit_of
log_bits force_show bits ts s =
    let acc = add64 s.acc_bits bits in
    let ticks = add32 s.acc_ticks 1 in
    let max = if ltb s.max_bits bits then bits else s.max_bits in
    if ltb (s.last_ts + s.stats_duration) ts
    then (
      some (record {
        output =
            if is_attached s.shm_id s.shm_ptr && not force_show then shared else log (unit_of acc);
        ticks = ticks;
        amount = acc;
        duration = ts - s.last_ts;
      }),
      record s { max_bits = max; last_ts = ts; cur_ts = 0; acc_ticks = 0; acc_bits = 0 },
    )
    else (none, record s { max_bits = max; acc_ticks = ticks; acc_bits = acc })

pub record Counter : Type 0 where
  pub stats_duration : ℕ
  pub cur_ts : ℕ
  pub last_ts : ℕ
  pub acc_ticks : ℕ
  pub acc_counter : ℕ

unfoldable pub new_counter : Counter → Counter
new_counter s = record s { stats_duration = 1000000 }

unfoldable pub reset_counter : Counter → Counter
reset_counter s = record s { last_ts = 0; cur_ts = 0; acc_ticks = 0; acc_counter = 0 }

unfoldable pub log_counter : ℕ → ℕ → Counter → Option Report × Counter
log_counter count ts s =
    let acc = add64 s.acc_counter count in
    let ticks = add32 s.acc_ticks 1 in
    if ltb (s.last_ts + s.stats_duration) ts
    then (
      some (record { output = log 1; ticks = ticks; amount = acc; duration = ts - s.last_ts }),
      record s { last_ts = ts; cur_ts = 0; acc_ticks = 0; acc_counter = 0 },
    )
    else (none, record s { acc_ticks = ticks; acc_counter = acc })

pub record Events : Type 0 where
  pub stats_duration : ℕ
  pub events : ℕ
  pub last_ts : ℕ

unfoldable pub new_events : Events → Events
new_events s = record s { stats_duration = 1000000 }

unfoldable pub reset_events : Events → Events
reset_events s = record s { events = 0; last_ts = 0 }

-- The event itself is counted after the report.
unfoldable pub log_event : ℕ → Events → Option Report × Events
log_event ts s =
    if leb (s.last_ts + s.stats_duration) ts
    then (
      some (record {
        output = log 1;
        ticks = s.events;
        amount = s.events;
        duration = ts - s.last_ts;
      }),
      record s { events = 1; last_ts = ts },
    )
    else (none, record s { events = add32 s.events 1 })
