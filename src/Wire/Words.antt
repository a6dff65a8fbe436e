-- ===== src/Wire/Words.antt =====
-- Big-endian words are read back, and their bytes are bytes.
use sape.Prelude.{ℕ, ◌<◌, ◌≡◌, refl, arith, length}
use sape.Wire.{u32_to_be_bytes, u16_to_be_bytes, from_be_bytes, u32_limit, u16_limit}

pub from_be_bytes-u32 : (n : ℕ) → n < u32_limit → from_be_bytes (u32_to_be_bytes n) ≡ n
unfolding from_be_bytes u32_to_be_bytes
from_be_bytes-u32 n h = omega arith

pub from_be_bytes-u16 : (n : ℕ) → n < u16_limit → from_be_bytes (u16_to_be_bytes n) ≡ n
unfolding from_be_bytes u16_to_be_bytes
from_be_bytes-u16 n h = omega arith

pub length-u32 : (n : ℕ) → length (u32_to_be_bytes n) ≡ 4
unfolding u32_to_be_bytes
length-u32 n = refl

pub length-u16 : (n : ℕ) → length (u16_to_be_bytes n) ≡ 2
unfolding u16_to_be_bytes
length-u16 n = refl
