-- ===== src/Apps/Menu/Ends.antt =====
-- src/utils/sc6f0-dante-box.cpp: how the menu ends.
use qcap_demos.Prelude.{
  ◌-◌, ◌≡◌, refl, Bool, true, false, ◌||◌, ◌&&◌, List, [], ◌∷◌, leb, ◌==◌, if◌then◌else◌, ℤ, pos,
  arith,
}
use qcap_demos.Apps.Menu.{Input, failed, ended, key, handle_key, menu_loop}

-- `q` or a failing `select`.
abbrev pub is_last : Input → Bool
is_last failed = true
is_last ended = false
is_last (key c) = c == 113

abbrev pub any_last : List Input → Bool
any_last [] = false
any_last (i ∷ is) = is_last i || any_last is

-- The digits before the end, in order.
abbrev pub digits : List Input → List ℤ
digits [] = []
digits (failed ∷ is) = []
digits (ended ∷ is) = digits is
digits (key c ∷ is) =
    let rest = digits is in
    if c == 113 then [] else if leb 48 c && leb c 57 then pos (c - 48) ∷ rest else rest

abbrev pub run_cases : {S : Type 0} → (ℤ → S → S) → List ℤ → S → S
run_cases do_case [] s = s
run_cases do_case (n ∷ ns) s = run_cases do_case ns (do_case n s)

-- Without a test case in the environment, the menu ends exactly if `q` is among the inputs or `select`
-- fails, and runs the cases of the digits typed until then, in that order. An input that has ended
-- does not end the menu.
pub menu_loop_lem :
    {S : Type 0} (do_case : ℤ → S → S) (is : List Input) (s : S)
    → menu_loop do_case is s ≡ (run_cases do_case (digits is) s, any_last is)
unfolding menu_loop handle_key
menu_loop_lem do_case [] s = refl
menu_loop_lem do_case (failed ∷ is) s = refl
menu_loop_lem do_case (ended ∷ is) s = menu_loop_lem do_case is s
menu_loop_lem do_case (key c ∷ is) s =
    let next = menu_loop_lem do_case is (handle_key do_case c s) in ground arith
