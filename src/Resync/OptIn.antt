-- ===== src/Resync/OptIn.antt =====
-- src/tests/sc6f0-sdi-resync-policy.h, `known_fpga`, and src/tests/sc6f0-dante-rx.cpp, `init_sdi_resync` and
-- `cleanup_sdi_resync`: when the watchdog is enabled at all.
use qcap_demos.Prelude.{
  ℕ, ◌^◌, ◌-◌, ◌≡◌, ◌≢◌, refl, ap, ◌∙◌, ◌⊎◌, inl, inr, Bool, true, false, ◌&&◌, ◌||◌, not, List, [],
  ◌∷◌, Option, none, some, if◌then◌else◌, is_text, is_text→≡, has_prefix, arith,
}
use qcap_demos.Resync.{initial}
use qcap_demos.Resync.Watchdog.{Watchdog, Round, resync_requested, poll, run}

-- `0x26102101 SDIR`, `0x26102201 SDIR` and `0x26102701 SDIR` differ in one character.
abbrev pub fpga_version : ℕ → List ℕ
fpga_version c = 48 ∷ 120 ∷ 50 ∷ 54 ∷ 49 ∷ 48 ∷ 50 ∷ c ∷ 48 ∷ 49 ∷ 32 ∷ 83 ∷ 68 ∷ 73 ∷ 82 ∷ []

-- `SC6F0 SDI Dante RX`.
abbrev pub sdi_rx_product : List ℕ
sdi_rx_product =
    83 ∷ 67 ∷ 54 ∷ 70 ∷ 48 ∷ 32 ∷ 83 ∷ 68 ∷ 73 ∷ 32 ∷ 68 ∷ 97 ∷ 110 ∷ 116 ∷ 101 ∷ 32 ∷ 82 ∷ 88 ∷ []

unfoldable pub known_fpga : List ℕ → Bool
known_fpga version =
    has_prefix (fpga_version 49) version
    || (has_prefix (fpga_version 50) version || has_prefix (fpga_version 55) version)

-- What `init_sdi_resync` finds: the output, SC6F0_SDI_AUTO_RESYNC, the version and the product, which are empty if
-- they cannot be read, the descriptor of /dev/mem, and whether the page can be mapped.
pub record Found : Type 0 where
  pub is_sdi : Bool
  pub auto_resync : Option (List ℕ)
  pub version : List ℕ
  pub product : List ℕ
  pub mem_fd : Option ℕ
  pub is_mapped : Bool

pub data MapCall : Type 0 where
  open_mem map_page unmap_page : MapCall
  close_mem : ℕ → MapCall

unfoldable pub is_opted_in : Found → Bool
is_opted_in f = f.is_sdi && elim f.auto_resync [ none ↦ false | some text ↦ is_text text (49 ∷ []) ]

unfoldable pub is_supported : Found → Bool
is_supported f = known_fpga f.version && has_prefix sdi_rx_product f.product

-- The watchdog, whose page is mapped or not, and the calls.
unfoldable pub init_sdi_resync : Found → Watchdog × List MapCall
init_sdi_resync f =
    let off : Watchdog = record { mapped = false; last_status = 2 ^ 32 - 1; policy = initial } in
    let off_now : Watchdog × List MapCall = (off, []) in
    if is_opted_in f && is_supported f
    then elim f.mem_fd [
      | none ↦ (off, open_mem ∷ [])
      | some fd ↦ (record off { mapped = f.is_mapped }, open_mem ∷ map_page ∷ close_mem fd ∷ [])
    ]
    else off_now

unfoldable pub cleanup_sdi_resync : Watchdog → Watchdog × List MapCall
cleanup_sdi_resync w = if w.mapped then (record w { mapped = false }, unmap_page ∷ []) else (w, [])

poll_off :
    (w : Watchdog) (r : Round) → not w.mapped || w.policy.failed ≡ true → poll w r ≡ (w, false)
unfolding poll
poll_off w r h = ground arith

-- A watchdog that is not enabled, or whose reset has failed, changes nothing and resets nothing, however long the
-- main loop runs.
pub run_off :
    (w : Watchdog) (hist : List ℕ) (rs : List Round)
    → not w.mapped || w.policy.failed ≡ true
    → run w hist rs ≡ (w, hist)
unfolding run
run_off w hist [] h = refl
run_off w hist (r ∷ rs) h =
    ap (λ p. run p.0 (if p.1 then r.now ∷ hist else hist) rs) (poll_off w r h) ∙ run_off w hist rs h

init-mapped :
    (f : Found) → is_opted_in f && is_supported f ≡ false → (init_sdi_resync f).0.mapped ≡ false
unfolding init_sdi_resync
init-mapped f h = ground arith

opted_in_or_not :
    (f : Found)
    → (is_opted_in f && is_supported f ≡ true) ⊎ (is_opted_in f && is_supported f ≡ false)
opted_in_or_not f = ground arith

poll-failed :
    (w : Watchdog) (r : Round)
    → (poll w r).1 ≡ true
    → r.reinitialized ≡ false
    → not (poll w r).0.mapped || (poll w r).0.policy.failed ≡ true
unfolding poll resync_requested
poll-failed w r h hf = ground arith

one_lem :
    (text : Option (List ℕ))
    → elim text [ none ↦ false | some t ↦ is_text t (49 ∷ []) ] ≡ true
    → text ≡ some (49 ∷ [])
one_lem none h = absurd (ground arith)
one_lem (some t) h = ap some (is_text→≡ t (49 ∷ []) h)

allowed_lem :
    (f : Found)
    → is_opted_in f && is_supported f ≡ true
    → (f.is_sdi ≡ true)
      × (f.auto_resync ≡ some (49 ∷ []))
      × (known_fpga f.version ≡ true)
      × (has_prefix sdi_rx_product f.product ≡ true)
unfolding is_opted_in is_supported
allowed_lem f h = (ground arith, one_lem f.auto_resync (ground arith), ground arith, ground arith)

-- If the receiver ever resets the output, then SC6F0_SDI_AUTO_RESYNC was `1`, the output was SDI, and the FPGA and the
-- product were known ones; and after a reset that failed there is no other.
pub resync_needs_opt_in :
    (f : Found) (rs later : List Round) (w : Watchdog) (r : Round) (hist : List ℕ)
    → ((run (init_sdi_resync f).0 [] rs).1 ≢ []
        → (f.is_sdi ≡ true)
          × (f.auto_resync ≡ some (49 ∷ []))
          × (known_fpga f.version ≡ true)
          × (has_prefix sdi_rx_product f.product ≡ true))
      × ((poll w r).1 ≡ true → r.reinitialized ≡ false → (run (poll w r).0 hist later).1 ≡ hist)
resync_needs_opt_in f rs later w r hist = (
  λ fired. elim (opted_in_or_not f) [
    | inl allowed ↦ allowed_lem f allowed
    | inr refused ↦ absurd (
        fired (
          ap (λ p. p.1)
            (run_off (init_sdi_resync f).0 [] rs (ground (arith, init-mapped f refused)))))
  ],
  λ fired failing. ap (λ p. p.1) (run_off (poll w r).0 hist later (poll-failed w r fired failing)),
)
