-- ===== src/Button/Device.antt =====
-- tools/sc6f0_button.c: finding and opening the device.
use qcap_demos.Prelude.{
  ℕ, Bool, false, ◌||◌, ◌&&◌, List, [], ◌∷◌, ◌++◌, take, Option, none, some, if◌then◌else◌, ℤ, pos,
  negsuc, has_prefix,
}

-- `strstr(text, sub) != NULL`.
abbrev pub contains : List ℕ → List ℕ → Bool
contains sub [] = has_prefix sub []
contains sub (c ∷ cs) = has_prefix sub (c ∷ cs) || contains sub cs

-- `event`, `gpio-keys`, `/dev/input/` and `event0`.
abbrev pub event_prefix : List ℕ
event_prefix = 101 ∷ 118 ∷ 101 ∷ 110 ∷ 116 ∷ []

abbrev pub gpio_keys : List ℕ
gpio_keys = 103 ∷ 112 ∷ 105 ∷ 111 ∷ 45 ∷ 107 ∷ 101 ∷ 121 ∷ 115 ∷ []

abbrev pub input_root : List ℕ
input_root = 47 ∷ 100 ∷ 101 ∷ 118 ∷ 47 ∷ 105 ∷ 110 ∷ 112 ∷ 117 ∷ 116 ∷ 47 ∷ []

abbrev pub event_0 : List ℕ
event_0 = 101 ∷ 118 ∷ 101 ∷ 110 ∷ 116 ∷ 48 ∷ []

-- A name in /sys/class/input, and what was read of its `device/name` (`none` if it cannot be opened or
-- nothing was read; at most 127 characters are, up to the first NUL).
pub record Entry : Type 0 where
  pub d_name : List ℕ
  pub device_name : Option (List ℕ)

pub data Detected : Type 0 where
  path : List ℕ → Detected
  no_entry : Detected

unfoldable pub is_buttons : Entry → Bool
is_buttons e =
    has_prefix event_prefix e.d_name
    && elim e.device_name [ none ↦ false | some name ↦ contains gpio_keys name ]

-- The entries in the order of `readdir`, and whether `event0` can be read.
unfoldable pub detect_from : List Entry → Bool → Detected
detect_from [] event0 = if event0 then path (input_root ++ event_0) else no_entry
detect_from (e ∷ es) event0 =
    let later = detect_from es event0 in
    if is_buttons e then path (input_root ++ take 100 e.d_name) else later

-- `none` if the directory cannot be opened.
unfoldable pub auto_detect_device : Option (List Entry) → Bool → Detected
unfolding detect_from
auto_detect_device none event0 = no_entry
auto_detect_device (some es) event0 = detect_from es event0

-- What `sc6f0_button_open` opens, the path it is given or the one it finds; an errno without its sign.
pub data Opened : Type 0 where
  descriptor : ℕ → Opened
  open_failed : ℕ → Opened

-- `open_path`, the call of `open`, gives a descriptor or an errno; ENOENT is 2.
unfoldable pub button_open :
    (List ℕ → Opened) → Option (List ℕ) → Option (List Entry) → Bool → Opened
button_open open_path (some dev) listing event0 = open_path dev
button_open open_path none listing event0 = elim (auto_detect_device listing event0) [
  | path target ↦ open_path target
  | no_entry ↦ open_failed 2
]

-- `sc6f0_button_close`: the descriptor that is closed, if any.
unfoldable pub button_close : ℤ → Option ℕ
button_close (pos fd) = some fd
button_close (negsuc n) = none
