-- ===== src/Kit/Lock.antt =====
-- src/zzlab/testkit.h: the spin lock (`spinlock_lock`, `spinlock_unlock`), and what the transmitter guards by it:
-- a struct, here of two fields, that is assigned and copied a field at a time. Threads are interleaved in any
-- order; a step is one access to what they share.
pub mod Exclusion
mod Tests
use qcap_demos.Prelude.{
  ℕ, Bool, true, false, ◌≡◌, if◌then◌else◌, ◌==◌, List, [], ◌∷◌, Option, none, some,
}

-- The flag of the lock, and the struct.
pub record Shared : Type 0 where
  pub flag : Bool
  pub first : ℕ
  pub second : ℕ

-- `current = value`, or `copy = current`.
pub data Use : Type 0 where
  assign : (first second : ℕ) → Use
  copy : Use

-- Where a thread stands: before `test_and_set`, before `test`, before each field, before `clear`, and
-- after it with the copy.
pub data Pc : Type 0 where
  outside : Pc
  setting testing : Use → Pc
  storing_first storing_second : (first second : ℕ) → Pc
  stored : Pc
  loading_first : Pc
  loading_second : (first : ℕ) → Pc
  loaded returned : (first second : ℕ) → Pc

-- Behind the lock.
abbrev pub inside : Use → Pc
inside (assign v w) = storing_first v w
inside copy = loading_first

-- `test_and_set`: what the flag was, and the flag set.
unfoldable pub test_and_set : Shared → Bool × Shared
test_and_set m = (m.flag, record m { flag = true })

-- `spinlock_unlock`.
unfoldable pub clear : Shared → Shared
clear m = record m { flag = false }

-- One step of a thread: a call, the two loops of `spinlock_lock`, the fields, and `spinlock_unlock`. Only
-- values that pass a test are assigned.
pub data Move (valid : ℕ → ℕ → Bool) (m : Shared) : Pc → Shared → Pc → Type 0 where
  call_assign : {v w : ℕ} → valid v w ≡ true → Move valid m outside m (setting (assign v w))
  call_copy : Move valid m outside m (setting copy)
  win :
      {u : Use}
      → (test_and_set m).0 ≡ false
      → Move valid m (setting u) (test_and_set m).1 (inside u)
  lose :
      {u : Use}
      → (test_and_set m).0 ≡ true
      → Move valid m (setting u) (test_and_set m).1 (testing u)
  still : {u : Use} → m.flag ≡ true → Move valid m (testing u) m (testing u)
  retry : {u : Use} → m.flag ≡ false → Move valid m (testing u) m (setting u)
  store_first :
      {v w : ℕ} → Move valid m (storing_first v w) (record m { first = v }) (storing_second v w)
  store_second : {v w : ℕ} → Move valid m (storing_second v w) (record m { second = w }) stored
  load_first : Move valid m loading_first m (loading_second m.first)
  load_second : {a : ℕ} → Move valid m (loading_second a) m (loaded a m.second)
  unlock_stored : Move valid m stored (clear m) outside
  unlock_loaded : {a b : ℕ} → Move valid m (loaded a b) (clear m) (returned a b)
  finish : {a b : ℕ} → Move valid m (returned a b) m outside

pub record System : Type 0 where
  pub mem : Shared
  pub pc : ℕ → Pc

abbrev pub update : (ℕ → Pc) → ℕ → Pc → ℕ → Pc
update pc i p j = if i == j then p else pc j

pub data Step (valid : ℕ → ℕ → Bool) (s : System) : System → Type 0 where
  pick :
      (i : ℕ) {m : Shared} {p : Pc}
      → Move valid s.mem (s.pc i) m p
      → Step valid s (record { mem = m; pc = update s.pc i p })

-- `ATOMIC_FLAG_INIT`, and a struct with its first value.
abbrev pub init : ℕ → ℕ → System
init v w = record { mem = record { flag = false; first = v; second = w }; pc = λ i. outside }

pub data Reach (valid : ℕ → ℕ → Bool) (from : System) : System → Type 0 where
  start : Reach valid from from
  later : {s t : System} → Reach valid from s → Step valid s t → Reach valid from t
