-- ===== src/Zz/System.antt =====
-- src/zzlab/ZzUtils.cpp, src/zzlab/ZzUtils.h: wrappers of system calls, and guards that give back what they took. What
-- the system answers is an argument.
pub mod Flush
use qcap_demos.Prelude.{
  ℕ, zero, suc, ◌+◌, ◌%◌, ◌^◌, Bool, true, false, ◌&&◌, List, [], ◌∷◌, ◌++◌, Option, none, some,
  length, ◌==◌, if◌then◌else◌, ℤ, pos, negsuc, eqb_ℤ,
}

-- A call returns a number, or -1 with an errno.
pub data Answer : Type 0 where
  returned : ℕ → Answer
  failed : ℕ → Answer

-- The word that is written, and the line that is logged with an errno, which a write of 0 bytes leaves as it was.
unfoldable pub uio_enable_irq : Answer → ℕ → Bool → ℕ × Option ℕ
uio_enable_irq (returned n) errno enable =
    (if enable then 1 else 0, if n == 0 then some errno else none)
uio_enable_irq (failed e) errno enable = (if enable then 1 else 0, none)

-- `SetNextTimer` logs what `timerfd_settime` failed with.
unfoldable pub log_set_timer : Answer → Option ℕ
log_set_timer (returned n) = none
log_set_timer (failed e) = some e

-- `ReadAllBytes`: the result and `data`, which a file that cannot be opened leaves as it was.
unfoldable pub read_all_bytes : Option (List ℕ) → List ℕ → Bool × List ℕ
read_all_bytes none data_before = (false, data_before)
read_all_bytes (some bytes) data_before = (true, bytes)

-- `DMABuffer::BeginCpuAccess` and `EndCpuAccess`: 0 for a buffer without a descriptor.
unfoldable pub cpu_access : (ℤ → ℕ → ℤ) → ℤ → ℕ → ℤ
cpu_access access dmabuf_fd flags =
    if eqb_ℤ dmabuf_fd (negsuc 0) then pos 0 else access dmabuf_fd flags

-- `is_in_vector`.
unfoldable pub is_in_vector : {A : Type 0} → (A → A → Bool) → List A → A → Bool
is_in_vector same [] a = false
is_in_vector same (x ∷ xs) a =
    let later = is_in_vector same xs a in if same x a then true else later

-- `Epolls`: the constructor, and what the destructor closes.
unfoldable pub new_epolls : Answer → Option ℕ × Option ℕ
new_epolls (returned fd) = (some fd, none)
new_epolls (failed e) = (none, some e)

-- What `epoll_ctl` is asked for a descriptor.
pub data Interest : Type 0 where
  add : (fd events : ℕ) → Interest
  del : (fd : ℕ) → Interest

module _ {K : Type 0} (epoll_ctl : Option ℕ → Interest → K → Answer × K) where
  unfoldable pub epolls_add : Option ℕ → ℕ → ℕ → K → Answer × K
  epolls_add fd_epoll fd events k = epoll_ctl fd_epoll (add fd events) k

  unfoldable pub epolls_del : Option ℕ → ℕ → K → Answer × K
  epolls_del fd_epoll fd k = epoll_ctl fd_epoll (del fd) k

unfoldable pub close_epolls : Option ℕ → List ℕ
close_epolls none = []
close_epolls (some fd) = fd ∷ []

-- `FreeStack`, the top first; a function is known by a number.
pub record FreeStack (W : Type 0) : Type 0 where
  pub stack : List ℕ
  pub world : W

module _ {W : Type 0} where
  unfoldable pub push : ℕ → FreeStack W → FreeStack W
  push f s = record s { stack = f ∷ s.stack }

  unfoldable pub pop : FreeStack W → FreeStack W
  pop s = record s { stack = elim s.stack [ [] ↦ [] | f ∷ rest ↦ rest ] }

  -- `~FreeStack` logs the size of a stack that is not empty.
  unfoldable pub leftover : FreeStack W → Option ℕ
  leftover s = if length s.stack == 0 then none else some (length s.stack)

  -- `Flush`: `call` runs a function, which may push others. `none` is that it has not ended after `fuel` rounds.
  unfoldable pub flush : (ℕ → FreeStack W → FreeStack W) → ℕ → FreeStack W → Option (FreeStack W)
  flush call zero s = if length s.stack == 0 then some s else none
  flush call (suc fuel) s = elim s.stack [
    | [] ↦ some s
    | f ∷ rest ↦ flush call fuel (pop (call f s))
  ]

-- `ZzScopedLock` and `Scoped`: what is done between `Lock` and `Unlock`, and before the function of a scope.
pub record Guarded (W : Type 0) : Type 0 where
  pub lock : W → W
  pub unlock : W → W

unfoldable pub scoped_lock : {W R : Type 0} → Guarded W → (W → R × W) → W → R × W
scoped_lock g body w = let (r, w') = body (g.lock w) in (r, g.unlock w')

unfoldable pub scoped : {W R : Type 0} → (W → W) → (W → R × W) → W → R × W
scoped d body w = let (r, w') = body w in (r, d w')

-- `TLSSingleton::get`: the object of the thread, which is made by the first call.
unfoldable pub singleton : {T : Type 0} → T → Option T → T × Option T
singleton new none = (new, some new)
singleton new (some t) = (t, some t)
