-- ===== src/Zz/Log/Line.antt =====
-- src/zzlab/ZzLog.cpp: no line overruns the buffer, and each ends with the tag.
use qcap_demos.Prelude.{
  ℕ, zero, suc, ◌+◌, ◌-◌, ◌≤◌, ◌<◌, ◌≡◌, refl, ap, ap₂, ◌∙◌, List, [], ◌∷◌, ◌++◌, length, take,
  length-take, length-append, min, leb, if◌then◌else◌, arith,
}
use qcap_demos.Zz.Log.{ending, snprintf, format_log}

take_all : (n : ℕ) (xs : List ℕ) → length xs ≤ n → take n xs ≡ xs
take_all zero [] h = refl
take_all zero (x ∷ xs) h = absurd (omega arith)
take_all (suc n) [] h = refl
take_all (suc n) (x ∷ xs) h = ap (λ t. x ∷ t) (take_all n xs (omega arith))

take-take : (e m : ℕ) (xs : List ℕ) → e ≤ m → take e (take m xs) ≡ take e xs
take-take zero m xs h = refl
take-take (suc e) zero xs h = absurd (omega arith)
take-take (suc e) (suc m) [] h = refl
take-take (suc e) (suc m) (x ∷ xs) h = ap (λ t. x ∷ t) (take-take e m xs (omega arith))

take-append-take :
    (e m : ℕ) (hs bs : List ℕ) → e ≤ length hs + m → take e (hs ++ take m bs) ≡ take e (hs ++ bs)
take-append-take e m [] bs h = take-take e m bs (omega arith)
take-append-take zero m (x ∷ hs) bs h = refl
take-append-take (suc e) m (x ∷ hs) bs h =
    ap (λ t. x ∷ t) (take-append-take e m hs bs (omega arith))

cut_line :
    (buf_size e : ℕ) (head body : List ℕ)
    → 6 ≤ buf_size
    → length head < buf_size
    → e ≤ buf_size - 6
    → take e (snprintf buf_size head ++ snprintf (buf_size - length head) body)
        ++ snprintf (buf_size - e) ending
      ≡ take e (head ++ body) ++ ending
cut_line buf_size e head body hs hh he =
    let whole_head = take_all (buf_size - 1) head (omega arith) in
    let whole_end = take_all (buf_size - e - 1) ending (omega arith) in
    ap₂ ◌++◌
      (ap (λ h. take e (h ++ snprintf (buf_size - length head) body)) whole_head
        ∙ take-append-take e (buf_size - length head - 1) head body (omega arith))
      whole_end

-- Where a line is cut.
abbrev cut : ℕ → ℕ → ℕ
cut buf_size total = if leb (buf_size - 6) total then buf_size - 6 else total

length-line : (e : ℕ) (xs : List ℕ) → e ≤ length xs → length (take e xs ++ ending) ≡ e + 5
length-line e xs h =
    let a = length-append (take e xs) ending in let b = length-take e xs in omega arith

-- For a time and prefix shorter than the buffer, and a buffer of at least six bytes: the line is the time, prefix
-- and message cut so that the tag and the NUL fit, then the tag; the number that is returned is its length, which
-- is less than the size of the buffer.
pub format_log_lem :
    (buf_size : ℕ) (head body : List ℕ)
    → 6 ≤ buf_size
    → length head < buf_size
    → ((format_log buf_size head body).0
        ≡ take (min (buf_size - 6) (length head + length body)) (head ++ body) ++ ending)
      × (length (format_log buf_size head body).0 ≡ (format_log buf_size head body).1)
      × ((format_log buf_size head body).1 < buf_size)
unfolding format_log
format_log_lem buf_size head body hs hh =
    let e = cut buf_size (length head + length body) in
    let low : e ≤ buf_size - 6 = ground arith in
    let short : e ≤ length head + length body = ground arith in
    let same : e ≡ min (buf_size - 6) (length head + length body) = ground arith in
    let both = length-append head body in
    let line = cut_line buf_size e head body hs hh low in
    (
      line ∙ ap (λ k. take k (head ++ body) ++ ending) same,
      ap length line ∙ length-line e (head ++ body) (omega arith),
      ground arith,
    )
