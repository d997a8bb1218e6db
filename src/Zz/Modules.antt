-- ===== src/Zz/Modules.antt =====
-- src/zzlab/ZzModules.cpp, src/zzlab/ZzModules.h: the modules of a program, initialised and undone.
use qcap_demos.Prelude.{
  ℕ, ◌≡◌, refl, ap, ap₂, ◌∙◌, sym, append_assoc, append-nil, List, [], ◌∷◌, ◌++◌, Option, none,
  some,
}

-- A call of a module's functions, by the module.
pub data Call : Type 0 where
  init_call uninit_call : ℕ → Call

-- `__modules` (`none` is NULL) and the calls, oldest first.
pub record Program : Type 0 where
  pub modules : Option (List ℕ)
  pub calls : List Call

abbrev program : Option (List ℕ) → List Call → Program
program modules calls = record { modules = modules; calls = calls }

-- ZZ_MODULE_INIT and `ZzModules::init`.
unfoldable pub init : ℕ → Program → Program
init m p =
    let so_far : List ℕ = elim p.modules [ none ↦ [] | some ms ↦ ms ] in
    record { modules = some (so_far ++ (m ∷ [])); calls = p.calls ++ (init_call m ∷ []) }

-- `ZzModules::uninit`, from the last module to the first.
unfoldable pub uninit_calls : List ℕ → List Call
uninit_calls [] = []
uninit_calls (m ∷ ms) = uninit_calls ms ++ (uninit_call m ∷ [])

-- ZZ_MODULES_UNINIT; `none` is a program without modules, whose `__modules` is NULL there.
unfoldable pub uninit : Program → Option Program
unfolding uninit_calls
uninit p = elim p.modules [
  | none ↦ none
  | some ms ↦ some (record { modules = none; calls = p.calls ++ uninit_calls ms })
]

unfoldable pub init_all : List ℕ → Program → Program
init_all [] p = p
init_all (m ∷ ms) p = init_all ms (init m p)

abbrev inits : List ℕ → List Call
inits [] = []
inits (m ∷ ms) = init_call m ∷ inits ms

abbrev uninits : List ℕ → List Call
uninits [] = []
uninits (m ∷ ms) = uninit_call m ∷ uninits ms

uninits-append : (ms ns : List ℕ) → uninits (ms ++ ns) ≡ uninits ms ++ uninits ns
uninits-append [] ns = refl
uninits-append (m ∷ ms) ns = ap (λ cs. uninit_call m ∷ cs) (uninits-append ms ns)

-- `reverse` by appending.
abbrev backwards : List ℕ → List ℕ
backwards [] = []
backwards (m ∷ ms) = backwards ms ++ (m ∷ [])

uninit_calls_lem : (ms : List ℕ) → uninit_calls ms ≡ uninits (backwards ms)
unfolding uninit_calls
uninit_calls_lem [] = refl
uninit_calls_lem (m ∷ ms) =
    ap (λ cs. cs ++ (uninit_call m ∷ [])) (uninit_calls_lem ms)
    ∙ sym (uninits-append (backwards ms) (m ∷ []))

init_all-more :
    (ms so_far : List ℕ) (calls : List Call)
    → init_all ms (program (some so_far) calls) ≡ program (some (so_far ++ ms)) (calls ++ inits ms)
unfolding init_all init
init_all-more [] so_far calls =
    ap₂ (λ ms cs. program (some ms) cs) (sym (append-nil so_far)) (sym (append-nil calls))
init_all-more (m ∷ ms) so_far calls =
    init_all-more ms (so_far ++ (m ∷ [])) (calls ++ (init_call m ∷ []))
    ∙ ap₂ (λ ms cs. program (some ms) cs) (append_assoc so_far (m ∷ []) ms)
        (append_assoc calls (init_call m ∷ []) (inits ms))

-- A program that initialises a module and then others, and undoes them: each is initialised in the order that is
-- written and undone in the reverse order, and no module is left; a program without modules has none to undo.
modules_lem :
    (m : ℕ) (ms : List ℕ)
    → (uninit (init_all (m ∷ ms) (program none []))
        ≡ some (program none (inits (m ∷ ms) ++ uninits (backwards (m ∷ ms)))))
      × (uninit (init_all [] (program none [])) ≡ none)
unfolding uninit init_all init
modules_lem m ms = (
  ap uninit (init_all-more ms (m ∷ []) (init_call m ∷ []))
      ∙ ap (λ cs. some (program none (init_call m ∷ (inits ms ++ cs)))) (uninit_calls_lem (m ∷ ms)),
  refl,
)
