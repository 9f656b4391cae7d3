-- ===== src/Word.antt =====
-- include/rpi_base/rpi_base.h: the unions UWORD, ULONG and PROCBUFFER as the bytes that they lie in,
-- lowest address first; the target is little-endian.
pub mod Laws
use rpi_rt_ether_cat_slave_i.Common.{
  ℕ, zero, suc, ◌+◌, ◌*◌, ◌/◌, ◌%◌, ◌^◌, List, [], ◌∷◌, Option, none, some, set, replicate,
}

-- `UWORD`
pub record Uword : Type 0 where
  pub byte0 : ℕ
  pub byte1 : ℕ

-- a store to `.Word`
abbrev pub uword_of : ℕ → Uword
uword_of word = record { byte0 = word % 256; byte1 = word / 256 % 256 }

-- `ULONG`
pub record Ulong : Type 0 where
  pub byte0 : ℕ
  pub byte1 : ℕ
  pub byte2 : ℕ
  pub byte3 : ℕ

-- a store to `.Long`
abbrev pub ulong_of : ℕ → Ulong
ulong_of long = record {
  byte0 = long % 256;
  byte1 = long / 256 % 256;
  byte2 = long / 256 / 256 % 256;
  byte3 = long / 256 / 256 / 256 % 256;
}

-- a load of `.Long`
abbrev pub long_of : Ulong → ℕ
long_of u = u.byte0 + 256 * (u.byte1 + 256 * (u.byte2 + 256 * u.byte3))

-- a store to `.Byte[i]`; `none` for an index outside the union
abbrev pub set_byte : Ulong → ℕ → ℕ → Option Ulong
set_byte u zero v = some (record u { byte0 = v })
set_byte u (suc zero) v = some (record u { byte1 = v })
set_byte u (suc (suc zero)) v = some (record u { byte2 = v })
set_byte u (suc (suc (suc zero))) v = some (record u { byte3 = v })
set_byte u (suc (suc (suc (suc i)))) v = none

-- `PROCBUFFER`, as its `Byte[32]`
pub record ProcBuffer : Type 0 where
  pub bytes : List ℕ

abbrev pub zeroed : ProcBuffer
zeroed = record { bytes = replicate 32 0 }

-- `n` bytes of a number, lowest first
abbrev pub le_bytes : ℕ → ℕ → List ℕ
le_bytes zero v = []
le_bytes (suc n) v = v % 256 ∷ le_bytes n (v / 256)

-- the number that bytes stand for, lowest first
abbrev pub le_number : List ℕ → ℕ
le_number [] = 0
le_number (b ∷ bs) = b + 256 * le_number bs

-- overwrites bytes from an offset on
abbrev pub overwrite : List ℕ → ℕ → List ℕ → List ℕ
overwrite xs at [] = xs
overwrite xs at (b ∷ bs) = overwrite (set xs at b) (at + 1) bs

-- the bytes after a store to `.ul[i]`, for `i` below 4, which `store_ul` tests
abbrev pub set_ul : ProcBuffer → ℕ → ℕ → ProcBuffer
set_ul p i v = record { bytes = overwrite p.bytes (8 * i) (le_bytes 8 v) }
