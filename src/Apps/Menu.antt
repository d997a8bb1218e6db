-- ===== src/Apps/Menu.antt =====
-- src/utils/sc6f0-dante-box.cpp, src/utils/qdemo.cpp: `App0::Run`, which is the same in both. What
-- `select` and `getchar` give is a list of inputs.
pub mod Ends
use qcap_demos.Prelude.{
  ℕ, ◌-◌, Bool, true, false, ◌&&◌, List, [], ◌∷◌, leb, ◌==◌, if◌then◌else◌, ℤ, pos, eqb_ℤ,
}

-- `select` failed, the input has ended (`getchar` gives EOF, which no case is for), or a key.
pub data Input : Type 0 where
  failed ended : Input
  key : ℕ → Input

module _ {S : Type 0} (do_case : ℤ → S → S) where
  -- A key that does not end the loop: a digit runs a case.
  unfoldable pub handle_key : ℕ → S → S
  handle_key c s = if leb 48 c && leb c 57 then do_case (pos (c - 48)) s else s

  -- The loop, and whether it has ended when the inputs are used up.
  unfoldable pub menu_loop : List Input → S → S × Bool
  unfolding handle_key
  menu_loop [] s = (s, false)
  menu_loop (failed ∷ rest) s = (s, true)
  menu_loop (ended ∷ rest) s = menu_loop rest s
  menu_loop (key c ∷ rest) s =
      let after = menu_loop rest (handle_key c s) in if c == 113 then (s, true) else after

  unfoldable pub run : ℤ → List Input → S → S × Bool
  unfolding menu_loop
  run test_case inputs s =
      if eqb_ℤ test_case (pos 0) then menu_loop inputs s else (do_case test_case s, true)
