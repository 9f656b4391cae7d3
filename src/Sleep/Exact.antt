-- ===== src/Sleep/Exact.antt =====
-- The time that milisleep asks for.
use rpi_rt_ether_cat_slave_i.Common.{
  ℕ, zero, suc, ◌+◌, ◌-◌, ◌*◌, ◌/◌, ◌%◌, ◌^◌, ◌<◌, ◌≡◌, ◌↔◌, refl, ap, ◌∙◌, true, arith, ltb, M,
  false,
}
use native.Mathlib.Nat.{mod-eq_of_lt}
use rpi_rt_ether_cat_slave_i.Common.Int.{ℤ, pos, negsuc, neg}
use rpi_rt_ether_cat_slave_i.Sleep.{
  Timespec, Times, product, difference, fits, converted, milisleep,
}

-- A time that nanosleep takes: seconds that are not negative, and from 0 to 999999999 nanoseconds.
abbrev pub IsNormal : Timespec → Type 0
IsNormal t = elim t.tv_sec [
  | pos s ↦ elim t.tv_nsec [ pos n ↦ n < 1000000000 | negsuc n ↦ ⊥ ]
  | negsuc s ↦ ⊥
]

-- a number as its part above and its part below 0
abbrev pub above : ℤ → ℕ
above (pos n) = n
above (negsuc n) = 0

abbrev pub below : ℤ → ℕ
below (pos n) = 0
below (negsuc n) = n + 1

-- The time is so many milliseconds.
abbrev pub Lasts : Timespec → ℤ → Type 0
Lasts t ms =
    above t.tv_sec * 1000000000 + above t.tv_nsec + below ms * 1000000
    ≡ below t.tv_sec * 1000000000 + below t.tv_nsec + above ms * 1000000

above-neg : (n : ℕ) → above (neg n) ≡ 0
above-neg zero = refl
above-neg (suc n) = refl

below-neg : (n : ℕ) → below (neg n) ≡ n
below-neg zero = refl
below-neg (suc n) = omega arith

product-parts :
    (z : ℤ) (k : ℕ) → (above (product z k) ≡ above z * k) × (below (product z k) ≡ below z * k)
product-parts (pos n) k = (refl, omega arith)
product-parts (negsuc n) k = (above-neg ((n + 1) * k) ∙ omega arith, below-neg ((n + 1) * k))

difference-parts :
    (a b : ℤ)
    → above (difference a b) + below a + above b ≡ below (difference a b) + above a + below b
difference-parts (pos a) (pos b) = ground (arith, above-neg (b - a), below-neg (b - a))
difference-parts (pos a) (negsuc b) = omega arith
difference-parts (negsuc a) (pos b) = omega (arith, above-neg (a + b + 1), below-neg (a + b + 1))
difference-parts (negsuc a) (negsuc b) = ground (arith, above-neg (a - b), below-neg (a - b))

-- The time is not negative, and the seconds are its whole seconds.
abbrev pub InWholeSeconds : ℤ → ℤ → Type 0
InWholeSeconds sec ms = (n : ℕ) × (ms ≡ pos n) × (sec ≡ pos (n / 1000))

InWholeSeconds-IsNormal :
    (sec nsec ms : ℤ)
    → Lasts (record { tv_sec = sec; tv_nsec = nsec }) ms
    → IsNormal (record { tv_sec = sec; tv_nsec = nsec })
    → InWholeSeconds sec ms
InWholeSeconds-IsNormal (pos s) (pos n) (pos m) lasts h = (m, refl, ap pos (omega arith))
InWholeSeconds-IsNormal (pos s) (pos n) (negsuc m) lasts h = absurd (omega arith)
InWholeSeconds-IsNormal (pos s) (negsuc n) ms lasts h = absurd h
InWholeSeconds-IsNormal (negsuc s) nsec ms lasts h = absurd h

IsNormal-InWholeSeconds :
    (sec nsec ms : ℤ)
    → Lasts (record { tv_sec = sec; tv_nsec = nsec }) ms
    → InWholeSeconds sec ms
    → IsNormal (record { tv_sec = sec; tv_nsec = nsec })
IsNormal-InWholeSeconds (pos s) (pos n) ms lasts (m, e, e') = ground (arith, e, e')
IsNormal-InWholeSeconds (pos s) (negsuc n) ms lasts (m, e, e') = ground (arith, e, e')
IsNormal-InWholeSeconds (negsuc s) nsec ms lasts (m, e, e') = ground (arith, e, e')

-- A value that fits is converted to itself.
converted-fits : (bits : ℕ) (z : ℤ) → fits (suc bits) z ≡ true → converted (suc bits) z ≡ z
converted-fits bits (pos n) h =
    let half : suc bits - 1 ≡ bits = omega arith in
    let double : 2 ^ suc bits ≡ 2 ^ bits * 2 = omega arith in
    let small : n < 2 ^ bits = ground (arith, half) in
    let same : n % 2 ^ suc bits ≡ n = mod-eq_of_lt (omega arith) in
    let tested : ltb n (2 ^ (suc bits - 1)) ≡ true = rw half (ground arith) in
    rw (same, tested) refl
converted-fits bits (negsuc n) h =
    let half : suc bits - 1 ≡ bits = omega arith in
    let double : 2 ^ suc bits ≡ 2 ^ bits * 2 = omega arith in
    let small : n < 2 ^ bits = ground (arith, half) in
    let same : n % 2 ^ suc bits ≡ n = mod-eq_of_lt (omega arith) in
    let tested : ltb (2 ^ suc bits - 1 - n) (2 ^ (suc bits - 1)) ≡ false = rw half (ground arith) in
    let size : 2 ^ suc bits - (2 ^ suc bits - 1 - n) ≡ suc n = omega arith in
    rw (same, tested, size) refl

converted_kept : (bits : ℕ) (z : ℤ) → 0 < bits → fits bits z ≡ true → converted bits z ≡ z
converted_kept zero z some_bits h = absurd (omega arith)
converted_kept (suc bits) z some_bits h = converted-fits bits z h

-- If a `long` has bits, the products of a time, negative or not, and their difference fit a long
-- long, and the difference fits a `long`, `milisleep` calls `nanosleep` with a time that lasts
-- exactly that many milliseconds; its seconds are not negative and its nanoseconds from 0 to
-- 999999999 exactly if the time is not negative and the product with 0.001 was cut to its exact
-- number of whole seconds.
pub milisleep-exact :
    {W : Type 0} (times : Times) (nanosleep : Timespec → M W ℤ) (ms : ℤ)
    → let wanted = product ms 1000000 in
      let whole = product (times.whole_seconds ms) 1000000000 in
      0 < times.bits
      → fits 64 wanted ≡ true
      → fits 64 whole ≡ true
      → fits 64 (difference wanted whole) ≡ true
      → fits times.bits (difference wanted whole) ≡ true
      → (t : Timespec) × (milisleep times nanosleep ms ≡ nanosleep t)
        × Lasts t ms
        × (IsNormal t ↔ InWholeSeconds (times.whole_seconds ms) ms)
unfolding milisleep
milisleep-exact times nanosleep ms some_bits fits1 fits2 fits3 in_long =
    let sec = times.whole_seconds ms in
    let wanted = product ms 1000000 in
    let whole = product sec 1000000000 in
    let kept = converted_kept times.bits (difference wanted whole) some_bits in_long in
    let t : Timespec = record { tv_sec = sec; tv_nsec = difference wanted whole } in
    let lasts : Lasts t ms = omega (
      arith,
      product-parts ms 1000000,
      product-parts sec 1000000000,
      difference-parts wanted whole,
    ) in
    (
      t,
      rw (fits1, fits2, fits3, kept) refl,
      lasts,
      (
        InWholeSeconds-IsNormal sec (difference wanted whole) ms lasts,
        IsNormal-InWholeSeconds sec (difference wanted whole) ms lasts,
      ),
    )
