-- ===== src/Button/Demo/Batches.antt =====
-- tools/sc6f0_button_demo.c: the lines do not depend on how the events come in batches.
use qcap_demos.Prelude.{
  ℕ, zero, suc, ◌+◌, ◌≤◌, ◌≡◌, refl, sym, subst, ap, ◌∙◌, Bool, true, false, List, [], ◌∷◌, ◌++◌,
  append_assoc, append-nil, length, Option, none, some, arith,
}
use qcap_demos.Button.{
  InputEvent, ButtonEvent, Read, got, ready, timed_out, Answer, event, no_event, error, describe,
  button_of, read_loop, read_event,
}
use qcap_demos.Button.Events.{all_got, buttons}
use qcap_demos.Button.Demo.{Round, End, waiting, Watch, print_event, watch_loop, read_error}

-- Batches of events, each with what `poll` answers then: whether it is ready.
abbrev pub Batch : Type 0
Batch = Bool × List InputEvent

abbrev pub rounds_of : List Batch → List Round
rounds_of [] = []
rounds_of ((true, evs) ∷ rest) =
    record { is_running = true; poll = ready; arrived = all_got evs } ∷ rounds_of rest
rounds_of ((false, evs) ∷ rest) =
    record { is_running = true; poll = timed_out; arrived = all_got evs } ∷ rounds_of rest

-- All events of the batches, in order.
abbrev pub events_of : List Batch → List InputEvent
events_of [] = []
events_of ((is_ready, evs) ∷ rest) = evs ++ events_of rest

-- Rounds in which nothing comes.
abbrev pub quiet : ℕ → List Batch
quiet zero = []
quiet (suc n) = (true, []) ∷ quiet n

-- The lines for events of buttons, one after the other.
abbrev pub print_all : List ButtonEvent → Watch → Watch
print_all [] w = w
print_all (ev ∷ evs) w = print_all evs (print_event ev w)

all_got_append : (xs ys : List InputEvent) → all_got xs ++ all_got ys ≡ all_got (xs ++ ys)
all_got_append [] ys = refl
all_got_append (x ∷ xs) ys = ap (λ r. got x ∷ r) (all_got_append xs ys)

buttons_append : (xs ys : List InputEvent) → buttons (xs ++ ys) ≡ buttons xs ++ buttons ys
buttons_append [] ys = refl
buttons_append (x ∷ xs) ys = let rest = buttons_append xs ys in ground arith

-- The first event of a button, and what comes after it.
abbrev pub first_button : List InputEvent → Option ButtonEvent × List InputEvent
first_button [] = (none, [])
first_button (ev ∷ evs) =
    let later = first_button evs in
    elim (button_of ev) [ some id ↦ (some (describe ev id), evs) | none ↦ later ]

abbrev pub answer_of : Option ButtonEvent → Answer
answer_of none = no_event
answer_of (some ev) = event ev

read_loop-first :
    (evs : List InputEvent)
    → read_loop (all_got evs) ≡ (answer_of (first_button evs).0, all_got (first_button evs).1)
unfolding read_loop
read_loop-first [] = refl
read_loop-first (ev ∷ evs) = let later = read_loop-first evs in ground arith

buttons-first :
    (evs later : List InputEvent)
    → buttons (evs ++ later) ≡ elim (first_button evs).0 [
      | none ↦ buttons ((first_button evs).1 ++ later)
      | some ev ↦ ev ∷ buttons ((first_button evs).1 ++ later)
    ]
buttons-first [] later = refl
buttons-first (ev ∷ evs) later = let rest = buttons-first evs later in ground arith

-- One event is taken if there is one.
abbrev pub taken : Option ButtonEvent → ℕ
taken none = 0
taken (some ev) = 1

length-first :
    (evs later : List InputEvent)
    → length ((first_button evs).1 ++ later) + taken (first_button evs).0 ≤ length (evs ++ later)
length-first [] later = omega arith
length-first (ev ∷ evs) later = let rest = length-first evs later in ground arith

first-none : (evs : List InputEvent) → (first_button evs).0 ≡ none → (first_button evs).1 ≡ []
first-none [] h = refl
first-none (ev ∷ evs) h = let later = first-none evs in ground arith

-- What the loop goes on with.
abbrev proceed : List Round → Watch → Answer × List Read → End × Watch
proceed rest w p =
    let w' : Watch = record w { pending = p.1 } in
    elim p.0 [
      | error e ↦ (read_error e, w')
      | no_event ↦ watch_loop rest w'
      | event ev ↦ watch_loop rest (print_event ev w')
    ]

abbrev follow : List Round → Watch → Option ButtonEvent × List InputEvent → End × Watch
follow rest w (none, evs) = watch_loop rest (record w { pending = all_got evs })
follow rest w (some ev, evs) = watch_loop rest (print_event ev (record w { pending = all_got evs }))

proceed-follow :
    (rest : List Round) (w : Watch) (o : Option ButtonEvent × List InputEvent)
    → proceed rest w (answer_of o.0, all_got o.1) ≡ follow rest w o
proceed-follow rest w (none, evs) = refl
proceed-follow rest w (some ev, evs) = refl

read_ready :
    (evs new : List InputEvent) (pending : List Read)
    → pending ≡ all_got evs
    → read_event true ready (pending ++ all_got new)
      ≡ (answer_of (first_button (evs ++ new)).0, all_got (first_button (evs ++ new)).1)
unfolding read_event
read_ready evs new pending h =
    ap (λ p. read_loop (p ++ all_got new)) h
    ∙ (ap read_loop (all_got_append evs new) ∙ read_loop-first (evs ++ new))

watch_loop-ready :
    (evs new : List InputEvent) (rest : List Round) (w : Watch)
    → w.pending ≡ all_got evs
    → watch_loop (record { is_running = true; poll = ready; arrived = all_got new } ∷ rest) w
      ≡ follow rest w (first_button (evs ++ new))
unfolding watch_loop
watch_loop-ready evs new rest w hp =
    ap (proceed rest w) (read_ready evs new w.pending hp)
    ∙ proceed-follow rest w (first_button (evs ++ new))

watch_loop-timed_out :
    (evs new : List InputEvent) (rest : List Round) (w : Watch)
    → w.pending ≡ all_got evs
    → watch_loop (record { is_running = true; poll = timed_out; arrived = all_got new } ∷ rest) w
      ≡ watch_loop rest (record w { pending = all_got (evs ++ new) })
unfolding watch_loop read_event
watch_loop-timed_out evs new rest w hp =
    ap (λ p. watch_loop rest (record w { pending = p }))
      (ap (λ p. p ++ all_got new) hp ∙ all_got_append evs new)

abbrev pub emptied : Watch → Watch
emptied w = record w { pending = [] }

-- The watch when everything was read and printed.
abbrev pub drained : List InputEvent → Watch → Watch
drained evs w = emptied (print_all (buttons evs) w)

print_all-pending :
    (evs : List ButtonEvent) (w : Watch) (p : List Read)
    → emptied (print_all evs (record w { pending = p })) ≡ emptied (print_all evs w)
unfolding print_event
print_all-pending [] w p = refl
print_all-pending (ev ∷ evs) w p = print_all-pending evs (print_event ev w) p

-- The rest of the rounds reads what is left and `later`, if that is at most `n` events.
abbrev Drains : List Round → List InputEvent → ℕ → Type 0
Drains rest later n =
    (evs : List InputEvent) (w : Watch)
    → w.pending ≡ all_got evs
    → length (evs ++ later) ≤ n
    → watch_loop rest w ≡ (waiting, drained (evs ++ later) w)

follow-drained :
    (rest : List Round) (later evs : List InputEvent) (n : ℕ) (w : Watch)
    (o : Option ButtonEvent × List InputEvent)
    → Drains rest later n
    → buttons (evs ++ later)
      ≡ elim o.0 [ none ↦ buttons (o.1 ++ later) | some ev ↦ ev ∷ buttons (o.1 ++ later) ]
    → length (o.1 ++ later) ≤ n
    → follow rest w o ≡ (waiting, drained (evs ++ later) w)
unfolding print_event
follow-drained rest later evs n w (none, left) ih hb hn =
    ih left (record w { pending = all_got left }) refl hn
    ∙ ap (λ (e : Watch). (waiting, e))
        (print_all-pending (buttons (left ++ later)) w (all_got left)
          ∙ ap (λ bs. emptied (print_all bs w)) (sym hb))
follow-drained rest later evs n w (some ev, left) ih hb hn =
    ih left (print_event ev (record w { pending = all_got left })) refl hn
    ∙ ap (λ (e : Watch). (waiting, e))
        (print_all-pending (ev ∷ buttons (left ++ later)) w (all_got left)
          ∙ ap (λ bs. emptied (print_all bs w)) (sym hb))

first-fits :
    (evs : List InputEvent) (n : ℕ)
    → length (evs ++ []) ≤ suc n
    → length ((first_button evs).1 ++ []) ≤ n
first-fits evs n h = ground (arith, length-first evs [], first-none evs)

quiet-Drains : (n : ℕ) → Drains (rounds_of (quiet n)) [] n
unfolding watch_loop
quiet-Drains zero [] w hp hn = ap (λ p. (waiting, record w { pending = p })) hp
quiet-Drains zero (ev ∷ evs) w hp hn = absurd (omega arith)
quiet-Drains (suc n) evs w hp hn =
    let fits =
      first-fits (evs ++ []) n
        (subst (λ es. length es ≤ suc n) (sym (append-nil (evs ++ []))) hn) in
    watch_loop-ready evs [] (rounds_of (quiet n)) w hp
    ∙ (follow-drained (rounds_of (quiet n)) [] (evs ++ []) n w (first_button (evs ++ []))
          (quiet-Drains n) (buttons-first (evs ++ []) []) fits
        ∙ ap (λ es. (waiting, drained es w)) (append-nil (evs ++ [])))

batches-Drains : (bs : List Batch) (n : ℕ) → Drains (rounds_of (bs ++ quiet n)) (events_of bs) n
batches-Drains [] n evs w hp hn = quiet-Drains n evs w hp hn
batches-Drains ((true, new) ∷ bs) n evs w hp hn =
    let moved = append_assoc evs new (events_of bs) in
    let short = length-first (evs ++ new) (events_of bs) in
    watch_loop-ready evs new (rounds_of (bs ++ quiet n)) w hp
    ∙ (follow-drained (rounds_of (bs ++ quiet n)) (events_of bs) (evs ++ new) n w
          (first_button (evs ++ new)) (batches-Drains bs n)
          (buttons-first (evs ++ new) (events_of bs)) (omega (arith, short, ap length moved))
        ∙ ap (λ es. (waiting, drained es w)) moved)
batches-Drains ((false, new) ∷ bs) n evs w hp hn =
    let moved = append_assoc evs new (events_of bs) in
    watch_loop-timed_out evs new (rounds_of (bs ++ quiet n)) w hp
    ∙ (batches-Drains bs n (evs ++ new) (record w { pending = all_got (evs ++ new) }) refl
          (omega (arith, ap length moved))
        ∙ ap (λ (e : Watch). (waiting, e))
            (print_all-pending (buttons ((evs ++ new) ++ events_of bs)) w (all_got (evs ++ new))
              ∙ ap (λ es. drained es w) moved))

-- However the events of the device are split into batches, whether `poll` is ready for each or times out, and if
-- afterwards there are at least as many rounds in which it is ready as there are events: the loop has then printed
-- the lines for the events of buttons, in their order, nothing is pending, and the loop goes on waiting.
pub watch_loop-batches :
    (bs : List Batch) (n : ℕ) (w : Watch)
    → w.pending ≡ []
    → length (events_of bs) ≤ n
    → watch_loop (rounds_of (bs ++ quiet n)) w
      ≡ (waiting, emptied (print_all (buttons (events_of bs)) w))
watch_loop-batches bs n w hp hn = batches-Drains bs n [] w hp hn
