-- ===== src/Itch/Bytes.antt =====
-- Integers in a byte buffer: the loads of a little-endian host, and `ntohl` and `bswap64` of
-- src/itch/decoder.cpp and the C library.
use nasdaq_order_book.Base.{
  ℕ, ◌+◌, ◌*◌, ◌/◌, ◌%◌, ◌^◌, ◌<◌, ◌≡◌, List, [], ◌∷◌, arith, u32_mod, u64_mod,
}

-- What `memcpy` puts into an integer from the bytes `bs`, the lowest first.
unfoldable pub load : List ℕ → ℕ
load [] = 0
load (b ∷ bs) = b + 256 * load bs

-- The byte of `v` that is `k` up from the lowest.
abbrev pub byte : ℕ → ℕ → ℕ
byte k v = v / 256 ^ k % 256

-- The bytes change places.
unfoldable pub ntohl : ℕ → ℕ
ntohl v = byte 0 v * 2 ^ 24 + byte 1 v * 2 ^ 16 + byte 2 v * 2 ^ 8 + byte 3 v

unfoldable pub bswap64 : ℕ → ℕ
bswap64 v =
    byte 0 v * 2 ^ 56
    + byte 1 v * 2 ^ 48
    + byte 2 v * 2 ^ 40
    + byte 3 v * 2 ^ 32
    + byte 4 v * 2 ^ 24
    + byte 5 v * 2 ^ 16
    + byte 6 v * 2 ^ 8
    + byte 7 v

-- The network's order: the highest byte first.
abbrev pub put32 : ℕ → List ℕ → List ℕ
put32 v rest = byte 3 v ∷ byte 2 v ∷ byte 1 v ∷ byte 0 v ∷ rest

abbrev pub put64 : ℕ → List ℕ → List ℕ
put64 v rest =
    byte 7 v ∷ byte 6 v ∷ byte 5 v ∷ byte 4 v ∷ byte 3 v ∷ byte 2 v ∷ byte 1 v ∷ byte 0 v ∷ rest

pub ntohl-put32 : (v : ℕ) → v < u32_mod → ntohl (load (put32 v [])) ≡ v
unfolding ntohl load
ntohl-put32 v h = omega arith

pub bswap64-put64 : (v : ℕ) → v < u64_mod → bswap64 (load (put64 v [])) ≡ v
unfolding bswap64 load
bswap64-put64 v h = omega arith
