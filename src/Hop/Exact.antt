-- ===== src/Hop/Exact.antt =====
-- Numbers as bytes and exact reads: what src/hop.rs writes is what it reads.
use binport.Base.{ℕ, ◌<◌, [], ◌∷◌, ◌++◌, ◌≡◌, refl, arith, ok, length}
use binport.Json.{Bytes}
use binport.Hop.{to_be_bytes, from_be_bytes, read_exact}

pub from_be_bytes-to_be_bytes : (n : ℕ) → n < 4294967296 → from_be_bytes (to_be_bytes n) ≡ n
unfolding from_be_bytes to_be_bytes
from_be_bytes-to_be_bytes n h = omega arith

pub read_exact-append :
    (xs reader : Bytes) → read_exact (length xs) (xs ++ reader) ≡ ok (xs, reader)
unfolding read_exact
read_exact-append [] [] = refl
read_exact-append [] (b ∷ reader) = refl
read_exact-append (x ∷ xs) reader = ground (arith, read_exact-append xs reader)

pub read_exact-to_be_bytes :
    (n : ℕ) (reader : Bytes) → read_exact 4 (to_be_bytes n ++ reader) ≡ ok (to_be_bytes n, reader)
unfolding to_be_bytes
read_exact-to_be_bytes n reader = read_exact-append (to_be_bytes n) reader
