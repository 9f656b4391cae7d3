-- ===== src/Sleep.antt =====
-- rpi_base/src/rpi_base.cpp: milisleep. The `double` product, cut to whole seconds, and nanosleep are
-- parameters.
pub mod Exact
mod Tests
use rpi_rt_ether_cat_slave_i.Common.{
  ℕ, suc, ◌+◌, ◌-◌, ◌*◌, ◌%◌, ◌^◌, Bool, ◌&&◌, fault, M, if◌then◌else◌, ltb, leb,
}
use rpi_rt_ether_cat_slave_i.Common.Int.{ℤ, pos, negsuc, neg}

-- `struct timespec`
pub record Timespec : Type 0 where
  pub tv_sec : ℤ
  pub tv_nsec : ℤ

-- What the platform does with times: the bits of a `long`, and `(__time_t)(miliseconds*0.001)`.
pub record Times : Type 0 where
  pub bits : ℕ
  pub whole_seconds : ℤ → ℤ

abbrev pub product : ℤ → ℕ → ℤ
product (pos n) k = pos (n * k)
product (negsuc n) k = neg ((n + 1) * k)

abbrev pub difference : ℤ → ℤ → ℤ
difference (pos a) (pos b) = if leb b a then pos (a - b) else neg (b - a)
difference (pos a) (negsuc b) = pos (a + b + 1)
difference (negsuc a) (pos b) = neg (a + b + 1)
difference (negsuc a) (negsuc b) = if leb a b then pos (b - a) else neg (a - b)

-- a value that a signed type of so many bits holds
abbrev pub fits : ℕ → ℤ → Bool
fits bits (pos n) = ltb n (2 ^ (bits - 1))
fits bits (negsuc n) = ltb n (2 ^ (bits - 1))

-- the signed value of so many bits
abbrev pub signed : ℕ → ℕ → ℤ
signed bits x = if ltb x (2 ^ (bits - 1)) then pos x else neg (2 ^ bits - x)

-- the conversion to a signed type of so many bits, which wraps around
abbrev pub converted : ℕ → ℤ → ℤ
converted bits (pos n) = signed bits (n % 2 ^ bits)
converted bits (negsuc n) = signed bits (2 ^ bits - 1 - n % 2 ^ bits)

-- `rpi_base::milisleep`; a product or a difference that does not fit `long long` is a fault.
unfoldable pub milisleep : {W : Type 0} → Times → (Timespec → M W ℤ) → ℤ → M W ℤ
milisleep times nanosleep miliseconds =
    let sec = times.whole_seconds miliseconds in
    let wanted = product miliseconds 1000000 in
    let whole = product sec 1000000000 in
    if fits 64 wanted && (fits 64 whole && fits 64 (difference wanted whole))
    then nanosleep
        (record { tv_sec = sec; tv_nsec = converted times.bits (difference wanted whole) })
    else (λ w. fault)
