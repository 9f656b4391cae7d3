-- ===== src/DriverTest/Halves.antt =====
-- The test over the driver: what it counts.
use rpi_rt_ether_cat_slave_i.Common.{
  ℕ, ◌+◌, ◌*◌, ◌%◌, ◌^◌, ◌≡◌, ◌≤◌, ◌<◌, ◌∙◌, ◌⊎◌, inl, inr, Bool-cases, Run-cases, subst, refl,
  true, false, some, done, pure, ◌>>=◌, arith, if◌then◌else◌,
}
use native.Mathlib.Decide.{ℕ_discrete}
use rpi_rt_ether_cat_slave_i.Common.Int.{ℤ, pos, neg, is_zero, ltz}
use rpi_rt_ether_cat_slave_i.Driver.{
  Services, Context, DeviceFile, r_irq_handler, driver_unioctl, my_api, down_timeoutms,
  irqmoddev_wait_irq, irqmoddev_down_timeout,
}
use rpi_rt_ether_cat_slave_i.Driver.Timeout.{KeepsTime, down_timeoutms-InTime}
use rpi_rt_ether_cat_slave_i.Driver.Counting.{CountsUps, Takes, driver_unioctl-Takes}
use rpi_rt_ether_cat_slave_i.DriverTest.{
  Calls, Trial, irqmod_down_timeout, test_round, wait_and_count,
}

-- An `ioctl` is a call of the driver on the open file, with a negative result turned into -1; the
-- requests are encoded as the macros of the system document; and a sleep takes no interrupt.
pub record Reaches {W : Type 0} (c : Calls W) (s : Services W) (rounds : ℕ) (file : DeviceFile)
    (md : Context) (dev : ℤ) (ups : CountsUps s md.address) : Type 0 where
  pub ioctl :
      (cmd arg : ℕ) (w : W)
      → c.ioctl dev cmd arg w
        ≡ (driver_unioctl s rounds file cmd arg >>= λ err.
              pure (if ltz err (pos 0) then neg 1 else err))
            w
  pub opened : file.private_data ≡ some md
  pub writable : md.w_open ≡ true
  pub timeout_number : s.ioc_nr (irqmod_down_timeout c) ≡ irqmoddev_down_timeout
  pub accessible : s.access_ok 100 (s.ioc_size (irqmod_down_timeout c)) ≡ true
  pub wait_number : s.ioc_nr irqmoddev_wait_irq ≡ irqmoddev_wait_irq
  pub wait_reads_not : s.ioc_read irqmoddev_wait_irq ≡ false
  pub wait_writes_not : s.ioc_write irqmoddev_wait_irq ≡ false
  pub sleep_takes :
      (us : ℕ) (w : W)
      → ups.value (c.usleep us w) + ups.ups w ≡ ups.value w + ups.ups (c.usleep us w)

module _ {W : Type 0} (c : Calls W) (s : Services W) (rounds : ℕ) (file : DeviceFile) (md : Context)
    (dev : ℤ) (ups : CountsUps s md.address) (link : Reaches c s rounds file md dev ups)
    (no_signal : (w : W) (err : ℤ) (w' : W)
      → s.down_interruptible md.address w ≡ done err w'
      → is_zero err ≡ true) where
  -- A round has counted nothing and taken no interrupt, or counted 1 and taken two interrupts.
  abbrev Counted : Trial W → Trial W → Type 0
  Counted t t' =
      ((t'.i ≡ t.i) × Takes s rounds file md ups t.world t'.world 0)
      ⊎ ((t'.i ≡ (t.i + 1) % 2 ^ 64) × Takes s rounds file md ups t.world t'.world 2)

  -- The second call of a round waits for an interrupt; if it returns, it has taken it.
  wait_and_count-Takes :
      (t : Trial W) (err : ℤ) (w' : W)
      → s.down_interruptible md.address t.world ≡ done err w'
      → (wait_and_count c dev t ≡ done tt (record { i = (t.i + 1) % 2 ^ 64; world = w' }))
        × Takes s rounds file md ups t.world w' 1
  unfolding driver_unioctl my_api
  wait_and_count-Takes t err w' e =
      let call = link.ioctl irqmoddev_wait_irq (c.unset t.world) t.world in
      let took = no_signal t.world err w' e in
      (
        ground (
          arith, e, call, link.opened, link.writable, link.wait_number, link.wait_reads_not,
          link.wait_writes_not, took,
        ),
        ground (arith, ups.interruptible_takes t.world err w' e, took),
      )

  -- It returns only if the wait does.
  wait_and_count-waits :
      (t u : Trial W)
      → wait_and_count c dev t ≡ done tt u
      → (err : ℤ) × (w' : W) × (s.down_interruptible md.address t.world ≡ done err w')
  unfolding driver_unioctl my_api
  wait_and_count-waits t u e = elim (Run-cases (s.down_interruptible md.address t.world)) [
    | inl returned ↦ returned
    | inr stuck ↦
        let call = link.ioctl irqmoddev_wait_irq (c.unset t.world) t.world in
        absurd (
          ground (
            arith, e, call, stuck, link.opened, link.writable, link.wait_number,
            link.wait_reads_not, link.wait_writes_not,
          ))
  ]

  -- A round after its timed call, which took an interrupt or not.
  round_from :
      (t : Trial W) (err : ℤ) (w1 : W)
      → driver_unioctl s rounds file (irqmod_down_timeout c) 100 t.world ≡ done err w1
      → (is_zero err ≡ true
          → (err' : ℤ) × (w2 : W) × (s.down_interruptible md.address w1 ≡ done err' w2))
      → (t' : Trial W) × (test_round c dev t ≡ done tt t') × Counted t t'
  unfolding test_round
  round_from t err w1 e second =
      let call = link.ioctl (irqmod_down_timeout c) 100 t.world in
      let takes =
        driver_unioctl-Takes s rounds file md ups (irqmod_down_timeout c) 100 t.world err w1
          link.opened e in
      let same : is_zero (if ltz err (pos 0) then neg 1 else err) ≡ is_zero err = ground arith in
      elim (Bool-cases (is_zero err)) [
        | inl got ↦
            let (err', w2, woken) = second got in
            let (counted, takes2) = wait_and_count-Takes (record t { world = w1 }) err' w2 woken in
            (
              record { i = (t.i + 1) % 2 ^ 64; world = c.usleep 10000 w2 },
              ground (arith, call, e, same, got, counted),
              inr (refl, ground (arith, takes, takes2, got, link.sleep_takes 10000 w2)),
            )
        | inr late ↦ (
          record { i = t.i; world = c.usleep 10000 w1 },
          ground (arith, call, e, same, late),
          inl (refl, ground (arith, takes, late, link.sleep_takes 10000 w1)),
        )
      ]

  -- In a round that has returned, the second call has.
  second_returned :
      (t t' : Trial W) (err : ℤ) (w1 : W)
      → driver_unioctl s rounds file (irqmod_down_timeout c) 100 t.world ≡ done err w1
      → test_round c dev t ≡ done tt t'
      → is_zero err ≡ true
      → (err' : ℤ) × (w2 : W) × (s.down_interruptible md.address w1 ≡ done err' w2)
  unfolding test_round
  second_returned t t' err w1 e whole got =
      let call = link.ioctl (irqmod_down_timeout c) 100 t.world in
      let same : is_zero (if ltz err (pos 0) then neg 1 else err) ≡ is_zero err = ground arith in
      elim (Run-cases (wait_and_count c dev (record t { world = w1 }))) [
        | inl (u, t1, returned) ↦ wait_and_count-waits (record t { world = w1 }) t1 returned
        | inr stuck ↦ absurd (ground (arith, whole, call, e, same, got, stuck))
      ]

  -- A round that has returned counts in this way.
  round-Counted : (t t' : Trial W) → test_round c dev t ≡ done tt t' → Counted t t'
  unfolding test_round
  round-Counted t t' e =
      elim (Run-cases (driver_unioctl s rounds file (irqmod_down_timeout c) 100 t.world)) [
        | inl (err, w1, returned) ↦
            let (u, e', counted) =
              round_from t err w1 returned (second_returned t t' err w1 returned e) in
            let same : u ≡ t' = ground (arith, e, e') in subst (Counted t) same counted
        | inr stuck ↦
            let call = link.ioctl (irqmod_down_timeout c) 100 t.world in
            absurd (ground (arith, e, call, stuck))
      ]

  -- Rounds of the program, and interrupts of the chip between them, from the state in which the loop
  -- begins.
  pub data Reach (w0 : W) : Trial W → Type 0 where
    start : Reach w0 (record { i = 0; world = w0 })
    irq :
        {t : Trial W} (w : W)
        → Reach w0 t
        → r_irq_handler s md.address t.world ≡ done tt w
        → Reach w0 (record t { world = w })
    round : {t t' : Trial W} → Reach w0 t → test_round c dev t ≡ done tt t' → Reach w0 t'

  -- `k` is what the program has counted, of which `i` has 64 bits.
  abbrev Halved : W → Trial W → ℕ → Type 0
  Halved w0 t k =
      (t.i ≡ k % 2 ^ 64) × (ups.ups t.world + ups.value w0 ≡ ups.ups w0 + 2 * k + ups.value t.world)

  Reach-Halved : {w0 : W} {t : Trial W} → Reach w0 t → (k : ℕ) × Halved w0 t k
  Reach-Halved start = (0, (refl, omega arith))
  Reach-Halved (irq {t} w r e) =
      let (k, (low, half)) = Reach-Halved r in
      let (w', e', value_adds, ups_adds) = ups.up_adds t.world in
      (k, (low, ground (arith, half, e, e', value_adds, ups_adds)))
  Reach-Halved (round {t} {t'} r e) =
      let (k, (low, half)) = Reach-Halved r in
      elim (round-Counted t t' e) [
        | inl (same, takes) ↦ (k, (same ∙ low, omega arith))
        | inr (more, takes) ↦ (k + 1, (omega arith, omega arith))
      ]

  module _ (time : KeepsTime s)
      (wakes : (w : W)
        → 0 < ups.value w
        → (err : ℤ) × (w' : W) × (s.down_interruptible md.address w ≡ done err w')) where
    -- On an open file the timed call of the driver is a wait.
    driver_unioctl-waits :
        (w : W)
        → driver_unioctl s rounds file (irqmod_down_timeout c) 100 w
          ≡ down_timeoutms s rounds md.address 100 w
    unfolding driver_unioctl my_api
    driver_unioctl-waits w =
        ground (arith, link.opened, link.writable, link.timeout_number, link.accessible)

    -- If an ioctl of the test program reaches the driver as `Reaches` says, on a file that is
    -- open for writing, the kernel keeps time and counts interrupts as `KeepsTime` and
    -- `CountsUps` document, no signal interrupts a wait, a wait without a timeout returns if an
    -- interrupt is pending, and the semaphore is 0 when the loop begins, then in every state
    -- that rounds of the loop and interrupts between them reach, the number of interrupts so
    -- far is twice what the program has counted, of which `i` holds 64 bits, plus the value of
    -- the semaphore; and if the time leaves room for the timed wait below 2 ^ 63 ns and the
    -- rounds of the driver are enough, either one more round returns, or its timed call has
    -- taken an interrupt and left the semaphore 0, one interrupt more than twice the count has
    -- come, and the round does what its wait for a second interrupt and the sleep after it do
    -- from there.
    pub Reach-halves :
        (k : ℕ) {w0 : W} {t : Trial W}
        → Reach w0 t
        → ups.value w0 ≡ 0
        → let rest_ns = 1000000 * 100 % 2 ^ s.bits in
          time.now t.world + rest_ns + time.jiffy + 4 * time.delay < 2 ^ 63
          → rest_ns ≤ k * time.step
          → k < rounds
          → (counted : ℕ) × (t.i ≡ counted % 2 ^ 64)
            × (ups.ups t.world ≡ ups.ups w0 + 2 * counted + ups.value t.world)
            × (((t' : Trial W) × (test_round c dev t ≡ done tt t'))
                ⊎ ((w1 : W) × (ups.value w1 ≡ 0)
                    × (ups.ups w1 ≡ ups.ups w0 + 2 * counted + 1)
                    × (test_round c dev t
                        ≡ (wait_and_count c dev >>= λ u t1.
                              done tt (record t1 { world = c.usleep 10000 t1.world }))
                            (record t { world = w1 }))))
    unfolding test_round
    Reach-halves k {w0} {t} r empty small near few =
        let (counted, (low, half)) = Reach-Halved r in
        let (err, w1, down, h) =
          down_timeoutms-InTime s time md.address rounds k 100 t.world small near few in
        let e = driver_unioctl-waits t.world ∙ down in
        let call = link.ioctl (irqmod_down_timeout c) 100 t.world in
        let takes =
          driver_unioctl-Takes s rounds file md ups (irqmod_down_timeout c) 100 t.world err w1
            link.opened e in
        let same : is_zero (if ltz err (pos 0) then neg 1 else err) ≡ is_zero err = ground arith in
        (
          counted,
          low,
          omega arith,
          elim (Bool-cases (is_zero err)) [
            | inr late ↦
                let (t', e', c') = round_from t err w1 e (λ got. absurd (ground arith)) in
                inl (t', e')
            | inl got ↦ elim (ℕ_discrete (ups.value w1) 0) [
              | yes none_left ↦ inr (
                w1,
                none_left,
                ground (arith, takes, half, empty),
                ground (arith, call, e, same, got),
              )
              | no more ↦
                  let (t', e', c') = round_from t err w1 e (λ z. wakes w1 (omega arith)) in
                  inl (t', e')
            ]
          ],
        )
