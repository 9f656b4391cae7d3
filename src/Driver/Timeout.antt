-- ===== src/Driver/Timeout.antt =====
-- How long down_timeoutms waits.
use rpi_rt_ether_cat_slave_i.Common.{
  ℕ, zero, suc, ◌+◌, ◌-◌, ◌*◌, ◌/◌, ◌%◌, ◌^◌, ◌≤◌, ◌<◌, ◌≡◌, refl, ◌∙◌, ap₂, true, false, done,
  arith, ltb, Bool-cases, inl, inr,
}
use rpi_rt_ether_cat_slave_i.Common.Int.{ℤ, neg, is_zero}
use rpi_rt_ether_cat_slave_i.Driver.{Services, is_positive, jiffies_of, wait_until, down_timeoutms}

-- What the kernel documents of its clock and of `down_timeout`. A jiffy lasts `jiffy` nanoseconds, and
-- microseconds are rounded up to jiffies. A reading of the clock is the time of a moment during the
-- call, which lasts at most `delay`. A wait lasts at most its jiffies and `delay`, and at least `step`
-- nanoseconds if it fails.
pub record KeepsTime {W : Type 0} (s : Services W) : Type 0 where
  pub now : W → ℕ
  pub jiffy : ℕ
  pub step : ℕ
  pub delay : ℕ
  pub clock_from : (w : W) → now w ≤ (s.ktime_get_mono_fast_ns w).0
  pub clock_to :
      (w : W) → let (r, w') = s.ktime_get_mono_fast_ns w in (r ≤ now w') × (now w' ≤ now w + delay)
  pub rounds_up : (us : ℕ) → s.usecs_to_jiffies us * jiffy ≤ us * 1000 + jiffy
  pub wait_within : (sem j : ℕ) (w : W) → now (s.down_timeout sem j w).1 ≤ now w + j * jiffy + delay
  pub wait_step :
      (sem j : ℕ) (w : W)
      → 0 < j
      → is_zero (s.down_timeout sem j w).0 ≡ false
      → now w + step ≤ now (s.down_timeout sem j w).1

-- one round fewer
rounds_left :
    (k step now endtime : ℕ)
    → now < endtime
    → endtime ≤ now + k * step
    → (0 < k) × (k * step ≡ (k - 1) * step + step)
rounds_left zero step now endtime early near = absurd (omega arith)
rounds_left (suc k) step now endtime early near = (omega arith, grind arith)

module _ {W : Type 0} (s : Services W) (t : KeepsTime s) (sem : ℕ) where
  jiffies_of-le : (rest_ns : ℕ) → jiffies_of s rest_ns * t.jiffy ≤ rest_ns + t.jiffy
  jiffies_of-le rest_ns =
      let up = t.rounds_up (rest_ns / 1000) in
      elim (Bool-cases (ltb (s.usecs_to_jiffies (rest_ns / 1000)) 1)) [
        | inl e ↦ rw e (omega arith)
        | inr e ↦ rw e (omega arith)
      ]

  jiffies_of-pos : (rest_ns : ℕ) → 0 < jiffies_of s rest_ns
  jiffies_of-pos rest_ns = ground arith

  -- the time that is left until `endtime`, as the code computes it from a reading of the clock
  abbrev left : ℕ → ℕ → ℕ
  left endtime r = (endtime + 2 ^ 64 - r) % 2 ^ 64

  -- The latest time at which a wait until `endtime` is over.
  abbrev latest : ℕ → ℕ
  latest endtime = endtime + t.jiffy + 3 * t.delay

  -- The result of a wait of `rest_ns` from the state `w` on: it failed only once the time was over,
  -- and it is a jiffy and four delays late at most.
  abbrev pub InTime : W → ℕ → ℤ → W → Type 0
  InTime w rest_ns err w' =
      (is_zero err ≡ false → t.now w + rest_ns ≤ t.now w')
      × (t.now w' ≤ t.now w + rest_ns + t.jiffy + 4 * t.delay)

  -- As long as `endtime` is near, the time left is positive exactly before it.
  left-lt :
      (endtime r : ℕ)
      → latest endtime < 2 ^ 63
      → r ≤ latest endtime
      → is_positive (left endtime r) ≡ true
      → (r < endtime) × (left endtime r ≡ endtime - r)
  left-lt endtime r small reached more = (ground arith, ground arith)

  left-le :
      (endtime r : ℕ) → latest endtime < 2 ^ 63 → is_positive (left endtime r) ≡ false → endtime ≤ r
  left-le endtime r small over = ground arith

  -- `r` is the last reading of the clock.
  wait_until-ends :
      (fuel k endtime r : ℕ) (err : ℤ) (w : W)
      → k < fuel
      → latest endtime < 2 ^ 63
      → r ≤ t.now w
      → t.now w ≤ r + t.delay
      → t.now w ≤ latest endtime
      → endtime ≤ r + k * t.step
      → is_zero err ≡ false
      → (err' : ℤ) × (w' : W) × (wait_until s fuel sem endtime (left endtime r) err w
          ≡ done err' w')
        × (is_zero err' ≡ false → endtime ≤ t.now w')
        × (t.now w' ≤ latest endtime)
  unfolding wait_until
  wait_until-ends zero k endtime r err w few small read fresh reached near failed =
      absurd (omega arith)
  wait_until-ends (suc fuel) k endtime r err w few small read fresh reached near failed =
      elim (Bool-cases (is_positive (left endtime r))) [
        | inl more ↦
            let (early, rest) = left-lt endtime r small (omega arith) more in
            let j = jiffies_of s (left endtime r) in
            let w1 = (s.down_timeout sem j w).1 in
            let r' = (s.ktime_get_mono_fast_ns w1).0 in
            let length_ok = jiffies_of-le (left endtime r) in
            let some_left = rounds_left k t.step r endtime early near in
            let within = t.wait_within sem j w in
            elim (Bool-cases (is_zero (s.down_timeout sem j w).0)) [
              | inl got ↦
                  ((s.down_timeout sem j w).0, w1, rw (more, got) refl, (λ e. cc), omega arith)
              | inr late ↦
                  let slept = t.wait_step sem j w (jiffies_of-pos (left endtime r)) late in
                  let from = t.clock_from w1 in
                  let to = t.clock_to w1 in
                  let (err', w', e, past, soon) =
                    wait_until-ends fuel (k - 1) endtime r' (s.down_timeout sem j w).0
                      (s.ktime_get_mono_fast_ns w1).1 (omega (arith, some_left)) small to.0
                      (omega arith) (omega arith) (omega (arith, some_left)) late in
                  (err', w', rw (more, late) e, past, soon)
            ]
        | inr over ↦ (
          err,
          w,
          rw over refl,
          (λ e. let past = left-le endtime r small over in omega arith),
          reached,
        )
      ]

  -- If the kernel keeps time as `KeepsTime` documents, the time to wait, `1000000 * timeout_ms`
  -- modulo the width of a long, ends below 2 ^ 63 ns with a jiffy and four delays to spare, and
  -- is at most `k` steps of a wait, `down_timeoutms` returns within more than `k` rounds; it
  -- fails only at or after the end of that time, and returns at most a jiffy and four delays
  -- after it.
  pub down_timeoutms-InTime :
      (fuel k timeout_ms : ℕ) (w : W)
      → let rest_ns = 1000000 * timeout_ms % 2 ^ s.bits in
        t.now w + rest_ns + t.jiffy + 4 * t.delay < 2 ^ 63
        → rest_ns ≤ k * t.step
        → k < fuel
        → (err : ℤ) × (w' : W) × (down_timeoutms s fuel sem timeout_ms w ≡ done err w')
          × InTime w rest_ns err w'
  unfolding down_timeoutms
  down_timeoutms-InTime fuel k timeout_ms w small near few =
      let rest_ns = 1000000 * timeout_ms % 2 ^ s.bits in
      let (r, w1) = s.ktime_get_mono_fast_ns w in
      let from = t.clock_from w in
      let to = t.clock_to w in
      let endtime = r + rest_ns in
      let (err, w', e, late, soon) =
        wait_until-ends fuel k endtime r (neg 1) w1 few (omega arith) to.0 (omega arith)
          (omega arith) (omega arith) refl in
      let end : (r + rest_ns) % 2 ^ 64 ≡ endtime = omega arith in
      let whole : rest_ns ≡ left endtime r = omega arith in
      (
        err,
        w',
        ap₂ (λ a b. wait_until s fuel sem a b (neg 1) w1) end whole ∙ e,
        ((λ failed. let over = late failed in omega arith), omega arith),
      )
