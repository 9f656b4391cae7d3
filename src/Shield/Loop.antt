-- ===== src/Shield/Loop.antt =====
-- etherberry_9252::execute_fromthread: the loop returns from every round, and what it counts.
use rpi_rt_ether_cat_slave_i.Common.{
  ℕ, zero, suc, ◌+◌, ◌-◌, ◌%◌, ◌^◌, ◌≡◌, ◌<◌, refl, sym, subst, ◌∙◌, ap, true, false, done,
  >>=-done, arith, ltb, if◌then◌else◌, ◌*◌,
}
use rpi_rt_ether_cat_slave_i.Common.Int.{ℤ, neg, is_minus_one}
use native.Mathlib.Nat.{add-zero}
use rpi_rt_ether_cat_slave_i.Word.{Ulong}
use rpi_rt_ether_cat_slave_i.Base.{RpiBase}
use rpi_rt_ether_cat_slave_i.Base.Queue.{IsValid}
use rpi_rt_ether_cat_slave_i.Base.Cycle.{Waits, Responds}
use rpi_rt_ether_cat_slave_i.Base.Valid.{main_task-IsValid}
use rpi_rt_ether_cat_slave_i.Stat.{Double}
use rpi_rt_ether_cat_slave_i.Stat.Summary.{count-calc}
use rpi_rt_ether_cat_slave_i.Shield.{
  Platform, Board, waitforirq_or_timeout, account, round, execute_fromthread,
}

module _ {W D : Type 0} (p : Platform W D) (junk : W → Ulong) (fuel : ℕ) ⦃d : Double D⦄ where
  -- What a round does to the counts: it goes up by one, and from the third round on each statistic
  -- takes one value.
  pub record Counts (b c : Board W D) : Type 0 where
    pub valid : IsValid c.machine.base
    pub count : c.machine.base.count ≡ (b.machine.base.count + 1) % 2 ^ 64
    pub runtime :
        c.runtime.count
        ≡ (if ltb 1 b.machine.base.count then (b.runtime.count + 1) % 2 ^ 64 else b.runtime.count)
    pub period :
        c.period.count
        ≡ (if ltb 1 b.machine.base.count then (b.period.count + 1) % 2 ^ 64 else b.period.count)

  timed : ℕ → ℕ → RpiBase → RpiBase
  timed start_run now o = record o {
    lastruntime = (now + 2 ^ 64 - start_run) % 2 ^ 64;
    count = (o.count + 1) % 2 ^ 64;
    laststart = start_run;
  }

  account-base :
      (start_run now : ℕ) (b : Board W D)
      → (account p junk fuel start_run now b).machine.base ≡ timed start_run now b.machine.base
  unfolding timed
  account-base start_run now b = ground arith

  timed-IsValid : (start_run now : ℕ) (o : RpiBase) → IsValid o → IsValid (timed start_run now o)
  unfolding timed
  timed-IsValid start_run now o v = record {
    next_in = v.next_in;
    out_in = v.out_in;
    slots = v.slots;
    sized = v.sized;
    out_sized = v.out_sized;
  }

  pub account-Counts :
      (start_run now : ℕ) (b : Board W D)
      → IsValid b.machine.base
      → Counts b (account p junk fuel start_run now b)
  account-Counts start_run now b v = record {
    valid =
        subst IsValid (sym (account-base start_run now b))
          (timed-IsValid start_run now b.machine.base v);
    count = unfold timed in ap (λ o. o.count) (account-base start_run now b);
    runtime = ground (
      arith,
      count-calc b.runtime (d.mul (d.of_ull ((now + 2 ^ 64 - start_run) % 2 ^ 64)) p.milli),
    );
    period = ground (
      arith,
      count-calc b.period
          (d.mul (d.of_ull ((start_run + 2 ^ 64 - b.machine.base.laststart) % 2 ^ 64)) p.micro),
    );
  }

  wait_done :
      (b : Board W D)
      → (err : ℤ) × (w : W) × (waitforirq_or_timeout p junk fuel 100 b
          ≡ done err (record b { machine = record b.machine { world = w } }))
  unfolding waitforirq_or_timeout
  wait_done b = (
    if is_minus_one b.devhndl then neg 1 else asked.0,
    if is_minus_one b.devhndl then b.machine.world else asked.1,
    ground arith,
  )
    where
      asked : ℤ × W
      asked = p.ioctl b.devhndl (p.iow b'B' 42 4) 100 b.machine.world

  -- If the chip answers whatever the state of the hardware, a round returns.
  round-Counts :
      (n : W → Waits)
      → ((w : W) → Responds p.bus (n w) w fuel)
      → (b : Board W D) → IsValid b.machine.base
      → (c : Board W D) × (round p junk fuel b ≡ done tt c) × Counts b c
  unfolding round
  round-Counts n r b v =
      let (err, w1, e1) = wait_done b in
      let b1 : Board W D = record b { machine = record b.machine { world = w1 } } in
      let ((sec, nsec), w2) = p.clock_gettime w1 in
      let start_run = (sec * 1000000000 + nsec) % 2 ^ 64 in
      let w3 = p.gpio_out true w2 in
      let (status, t, e2, valid, same) =
        main_task-IsValid p.bus junk fuel (n w3) (record b.machine { world = w3 }) v (r w3) in
      let ((sec', nsec'), w4) = p.clock_gettime (p.gpio_out false t.world) in
      let now = (sec' * 1000000000 + nsec') % 2 ^ 64 in
      let b2 : Board W D = record b { machine = record t { world = w4 } } in
      let c = account-Counts start_run now b2 valid in
      let counts : Counts b (account p junk fuel start_run now b2) = record {
        valid = c.valid;
        count = ground (arith, c.count, same.count);
        runtime = ground (arith, c.runtime, same.count);
        period = ground (arith, c.period, same.count);
      } in
      (account p junk fuel start_run now b2, ground (arith, e1, e2), counts)

  -- Both statistics have taken a value in every round but the first two.
  abbrev pub InStep : ℕ → Board W D → Type 0
  InStep k b =
      IsValid b.machine.base
      × (b.machine.base.count ≡ k)
      × (b.runtime.count ≡ k - 2)
      × (b.period.count ≡ k - 2)

  -- If the chip ends the waits of a cycle within the fuel whatever the state of the hardware, the
  -- object is valid and its count `k` plus the rounds stays below 2 ^ 64, the thread's loop
  -- returns from all its rounds: the object is valid, its count is `k` plus the rounds, and both
  -- statistics, which had taken `k - 2` values, have taken a value in every round but the first
  -- two of all.
  pub execute_fromthread-InStep :
      (n : W → Waits)
      → ((w : W) → Responds p.bus (n w) w fuel)
      → (rounds k : ℕ) (b : Board W D) → k + rounds < 2 ^ 64
      → InStep k b
      → (c : Board W D) × (execute_fromthread p junk fuel rounds b ≡ done tt c)
        × InStep (k + rounds) c
  unfolding execute_fromthread
  execute_fromthread-InStep n r zero k b few h = (b, refl, ground (arith, add-zero k))
  execute_fromthread-InStep n r (suc rounds) k b few (v, hc, hr, hp) =
      let (b', e, c) = round-Counts n r b v in
      let (b'', e', h') =
        execute_fromthread-InStep n r rounds (k + 1) b' (omega arith)
          (c.valid, ground (arith, c.count), ground (arith, c.runtime), ground (arith, c.period)) in
      let same : k + 1 + rounds ≡ k + suc rounds = omega arith in
      (
        b'',
        >>=-done (round p junk fuel) (λ _. execute_fromthread p junk fuel rounds) b e ∙ e',
        subst (λ j. InStep j b'') same h',
      )
