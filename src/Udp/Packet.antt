-- ===== src/Udp/Packet.antt =====
-- tools/udptest.c: the packets. A little-endian machine copies a number with its low byte first.
use qcap_demos.Prelude.{ℕ, zero, suc, ◌+◌, ◌*◌, ◌/◌, ◌%◌, List, [], ◌∷◌, ◌++◌, take, replicate}

-- The bytes that `memcpy` takes from a number.
abbrev pub bytes : ℕ → ℕ → List ℕ
bytes zero v = []
bytes (suc n) v = v % 256 ∷ bytes n (v / 256)

-- The number that `memcpy` makes of bytes.
abbrev pub number : List ℕ → ℕ
number [] = 0
number (b ∷ bs) = b + 256 * number bs

unfoldable pub filling : List ℕ
filling = replicate 4084 171

-- The buffer of 4096 bytes, filled with 0xab, of which the first `size` are sent.
unfoldable pub packet : ℕ → ℕ → ℕ → List ℕ
packet seq tnow size = take size (bytes 4 seq ++ (bytes 8 tnow ++ filling))

unfoldable pub seq_of : List ℕ → ℕ
seq_of d = number (take 4 d)
