-- ===== src/Apps/Qdemo.antt =====
-- src/utils/qdemo.cpp: the demonstration that opens a device of the capture library. The codes of the
-- library are printed and not tested.
use qcap_demos.Prelude.{ℕ, Bool, List, ◌∷◌, Option, none, ℤ, pos, eqb_ℤ, if◌then◌else◌}
use qcap_demos.Apps.Menu.{Input, run}

-- The calls on the device; `none` is NULL, or what the program starts with.
pub data Call : Type 0 where
  set_video_input set_audio_input run_device stop_device destroy_device : Option ℕ → Call
  create_device : Call

pub record Demo : Type 0 where
  pub calls : List Call
  pub device : Option ℕ

module _ (create : Option ℕ → Option ℕ) where
  -- `TestCase1::DoWork`; `create` says what QCAP_CREATE leaves in the device it is given.
  unfoldable pub do_work : Demo → Demo
  do_work d =
      let device = create d.device in
      record {
        calls =
            destroy_device device
            ∷ stop_device device
            ∷ run_device device
            ∷ set_audio_input device
            ∷ set_video_input device
            ∷ create_device
            ∷ d.calls;
        device = none;
      }

  unfoldable pub do_case : ℤ → Demo → Demo
  unfolding do_work
  do_case t d = if eqb_ℤ t (pos 1) then do_work d else d

  -- `App0::Run`.
  unfoldable pub main : ℤ → List Input → Demo → Demo × Bool
  unfolding do_case run
  main test_case inputs d = run do_case test_case inputs d
