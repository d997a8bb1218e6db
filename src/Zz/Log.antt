-- ===== src/Zz/Log.antt =====
-- src/zzlab/ZzLog.cpp, src/zzlab/ZzLog.h: the lines of the log, in a buffer of fixed size.
pub mod Line
use qcap_demos.Prelude.{
  ℕ, ◌+◌, ◌-◌, ◌*◌, ◌/◌, ◌%◌, List, [], ◌∷◌, ◌++◌, length, take, ltb, leb, if◌then◌else◌, Option,
  none, some,
}

-- The hours, minutes, seconds and milliseconds of a monotonic time.
unfoldable pub clock_fields : ℕ → ℕ → ℕ × ℕ × ℕ × ℕ
clock_fields sec nsec =
    let msec = sec * 1000 + nsec / 1000000 in
    (msec / 3600000, msec / 60000 % 60, msec / 1000 % 60, msec % 1000)

-- The tag that ends a line, without its NUL.
abbrev pub ending : List ℕ
ending = 10 ∷ 27 ∷ 91 ∷ 48 ∷ 109 ∷ []

-- `snprintf` into `size` bytes: the characters that are written, before the NUL.
abbrev pub snprintf : ℕ → List ℕ → List ℕ
snprintf size text = take (size - 1) text

-- `FormatLog` on the time and prefix as a text, which is shorter than the buffer, and the formatted message:
-- what stands in the buffer and the number that is returned.
unfoldable pub format_log : ℕ → List ℕ → List ℕ → List ℕ × ℕ
format_log buf_size head body =
    let filled = snprintf buf_size head ++ snprintf (buf_size - length head) body in
    let total = length head + length body in
    let buf_end = if leb (buf_size - 6) total then buf_size - 6 else total in
    (take buf_end filled ++ snprintf (buf_size - buf_end) ending, buf_end + length ending)

-- A log object: what it writes to the standard output.
unfoldable pub log_line : ℕ → ℕ → List ℕ → List ℕ → Option (List ℕ)
log_line log_level level head body =
    let (buf, end) = format_log 1024 head body in
    if ltb level log_level then none else some (take end buf)
