-- ===== src/Kit/Monitor.antt =====
-- The rule that the cleanups are held to: what a log of calls still owes, with everything given back in
-- the reverse order of taking, exactly once.
use qcap_demos.Prelude.{
  ℕ, ◌≡◌, refl, Bool, true, false, ◌&&◌, List, [], ◌∷◌, ◌++◌, Option, none, some, ◌==◌,
  if◌then◌else◌, ==_iff,
}
use qcap_demos.Kit.{
  What, event, event_handlers, callback, video_sink, rcbuffer, timer, user_mm, array, event_running,
  handlers_running, sink_running, timer_running, handler_added, frame_buffer, cuda_buffer,
  cuda_host_buffer, cuda_managed_buffer, qdmabuf, nvbuf, Resource, Entry, took, gave, asked, World,
  flush_stack,
}

abbrev what_number : What → ℕ
what_number event = 0
what_number event_handlers = 1
what_number callback = 2
what_number video_sink = 3
what_number rcbuffer = 4
what_number timer = 5
what_number user_mm = 6
what_number array = 7
what_number event_running = 8
what_number handlers_running = 9
what_number sink_running = 10
what_number timer_running = 11
what_number handler_added = 12
what_number frame_buffer = 13
what_number cuda_buffer = 14
what_number cuda_host_buffer = 15
what_number cuda_managed_buffer = 16
what_number qdmabuf = 17
what_number nvbuf = 18

unfoldable pub same_resource : Resource → Resource → Bool
same_resource r s =
    what_number r.what == what_number s.what && r.owner == s.owner && r.other == s.other

same_resource_self : (r : Resource) → same_resource r r ≡ true
unfolding same_resource
same_resource_self r =
    rw
      (
        (==_iff (what_number r.what) (what_number r.what)).1 refl,
        (==_iff r.owner r.owner).1 refl,
        (==_iff r.other r.other).1 refl,
      )
      refl

-- `none` says that something was given back that was not the last thing taken.
abbrev pub pop : Resource → Option (List Resource) → Option (List Resource)
pop r none = none
pop r (some []) = none
pop r (some (s ∷ ss)) = if same_resource r s then some ss else none

abbrev pub push : Resource → Option (List Resource) → Option (List Resource)
push r none = none
push r (some ss) = some (r ∷ ss)

abbrev pub owed : List Entry → Option (List Resource)
owed [] = some []
owed (took r true ∷ es) = push r (owed es)
owed (took r false ∷ es) = owed es
owed (gave r ∷ es) = pop r (owed es)
owed (asked q code ∷ es) = owed es

-- The stack of cleanups is what the calls owe, before what others are to give back.
abbrev pub IsKept : List Resource → World → Type 0
IsKept base w = owed w.log ≡ some (w.stack ++ base)

pub flush_stack-owed :
    (rs base : List Resource) (log : List Entry)
    → owed log ≡ some (rs ++ base)
    → owed (flush_stack rs log) ≡ some base
unfolding flush_stack
flush_stack-owed [] base log h = h
flush_stack-owed (r ∷ rs) base log h =
    flush_stack-owed rs base (gave r ∷ log) (rw (h, same_resource_self r) refl)
