-- ===== src/Shield/Taken.antt =====
-- The real-time loop over the kernel driver: which interrupts its cycles answer.
use rpi_rt_ether_cat_slave_i.Common.{
  ℕ, zero, suc, ◌+◌, ◌-◌, ◌*◌, ◌%◌, ◌^◌, ◌≤◌, ◌<◌, ◌≡◌, ◌⊎◌, refl, sym, subst, ◌∙◌, true, false,
  some, done, >>=-done, arith, inl, inr,
}
use native.Mathlib.Decide.{dec_lt}
use rpi_rt_ether_cat_slave_i.Common.Int.{is_minus_one}
use rpi_rt_ether_cat_slave_i.Word.{Ulong, ProcBuffer}
use rpi_rt_ether_cat_slave_i.Driver.{Services, Context, DeviceFile}
use rpi_rt_ether_cat_slave_i.Driver.Timeout.{KeepsTime}
use rpi_rt_ether_cat_slave_i.Driver.Counting.{CountsUps}
use rpi_rt_ether_cat_slave_i.Base.{Machine, main_task}
use rpi_rt_ether_cat_slave_i.Base.Queue.{IsValid}
use rpi_rt_ether_cat_slave_i.Base.Cycle.{Waits, Responds, cycle, main_task-cycle}
use rpi_rt_ether_cat_slave_i.Base.Valid.{fetched, main_task-IsValid}
use rpi_rt_ether_cat_slave_i.Shield.Loop.{account-Counts}
use rpi_rt_ether_cat_slave_i.Base.Preserves.{cycle-keeps}
use rpi_rt_ether_cat_slave_i.Stat.{Double}
use rpi_rt_ether_cat_slave_i.Shield.{Platform, Board, account, round, execute_fromthread}
use rpi_rt_ether_cat_slave_i.Shield.Irq.{Connects}
use rpi_rt_ether_cat_slave_i.Shield.Wait.{Passes, Spares, wait_end, wait_taken}

-- What rounds leave, with `k` interrupts taken.
pub record Took {W D : Type 0} {s : Services W} {a : ℕ} (c : CountsUps s a) (b b' : Board W D)
    (k : ℕ) : Type 0 where
  pub valid : IsValid b'.machine.base
  pub handle : b'.devhndl ≡ b.devhndl
  pub passes : Passes c b.machine.world b'.machine.world k

module _ {W D : Type 0} (p : Platform W D) (s : Services W) {a : ℕ} (c : CountsUps s a)
    (t : KeepsTime s) where
  -- Rounds return and take interrupts, all that were pending as far as there are rounds for
  -- them: `m` rounds, or fewer once the clock is too late for a wait.
  abbrev pub Runs : (W → Ulong) → ℕ → ⦃d : Double D⦄ → ℕ → Board W D → Type 0
  Runs junk fuel m b =
      (j : ℕ) × (b' : Board W D) × (k : ℕ) × (execute_fromthread p junk fuel j b ≡ done tt b')
      × Took c b b' k
      × (k ≤ j)
      × (j ≤ k + (j - c.value b.machine.world))
      × ((j ≡ m) ⊎ ((j < m) × (2 ^ 63 ≤ wait_end s t b'.machine.world)))

module _ {W D : Type 0} (p : Platform W D) (s : Services W) (rounds : ℕ) (file : DeviceFile)
    (md : Context) (c : CountsUps s md.address) (spares : Spares p s md.address c) where
  module _ (t : KeepsTime s) (junk : W → Ulong) (fuel : ℕ) (opened : file.private_data ≡ some md)
      (writable : md.w_open ≡ true) (some_time : 0 < 1000000 * 100 % 2 ^ s.bits) (turns : ℕ)
      (near : 1000000 * 100 % 2 ^ s.bits ≤ turns * t.step) (few : turns < rounds) where
    cycle-Passes :
        (n : Waits) (q : ProcBuffer) (m : Machine W) → Passes c m.world (cycle p.bus n q m).world 0
    cycle-Passes n q m =
        cycle-keeps p.bus (λ v. Passes c m.world v 0)
          (λ b v h. omega (arith, h, spares.transfer b v))
          (λ level v h. omega (arith, h, spares.gpio_write level v)) n q m (omega arith)

    main_task-Passes :
        (n : Waits) (m : Machine W)
        → IsValid m.base
        → Responds p.bus n m.world fuel
        → (status : ℕ) × (t : Machine W) × (main_task p.bus junk fuel m ≡ done status t)
          × IsValid t.base
          × Passes c m.world t.world 0
    main_task-Passes n m v r =
        let (q, slot) = fetched p.bus m v in
        let (status, t, e, v', same) = main_task-IsValid p.bus junk fuel n m v r in
        let e' = main_task-cycle p.bus junk fuel n q m slot (v.sized _ q slot) v.out_sized r in
        let there : cycle p.bus n q m ≡ t = ground (arith, e, e') in
        (status, t, e, v', subst (λ u. Passes c m.world u.world 0) there (cycle-Passes n q m))

    module _ ⦃d : Double D⦄ (n : W → Waits) (answers : (w : W) → Responds p.bus (n w) w fuel) where
      round-Took :
          (b : Board W D)
          → IsValid b.machine.base
          → is_minus_one b.devhndl ≡ false
          → Connects p s rounds file b.devhndl 100
          → wait_end s t b.machine.world < 2 ^ 63
          → (b' : Board W D) × (k : ℕ) × (round p junk fuel b ≡ done tt b')
            × Took c b b' k
            × (k ≤ 1)
            × (1 ≤ k + (1 - c.value b.machine.world))
      unfolding round
      round-Took b v valid link early =
          let (err, w1, k, e1, passes1, once, pending) =
            wait_taken p s rounds file md c spares t junk fuel opened writable some_time turns near
              few b valid link early in
          let ((sec, nsec), w2) = p.clock_gettime w1 in
          let start_run = (sec * 1000000000 + nsec) % 2 ^ 64 in
          let w3 = p.gpio_out true w2 in
          let (status, t, e2, v', passes2) =
            main_task-Passes (n w3) (record b.machine { world = w3 }) v (answers w3) in
          let ((sec', nsec'), w4) = p.clock_gettime (p.gpio_out false t.world) in
          let now = (sec' * 1000000000 + nsec') % 2 ^ 64 in
          let b2 : Board W D = record b { machine = record t { world = w4 } } in
          (
            account p junk fuel start_run now b2,
            k,
            ground (arith, e1, e2),
            record {
              valid = (account-Counts p junk fuel start_run now b2 v').valid;
              handle = ground arith;
              passes = ground (
                arith,
                passes1,
                passes2,
                spares.clock_gettime w1,
                spares.gpio_out true w2,
                spares.gpio_out false t.world,
                spares.clock_gettime (p.gpio_out false t.world),
              );
            },
            once,
            pending,
          )

      none_done :
          (m : ℕ) (b : Board W D)
          → IsValid b.machine.base
          → (0 ≡ m) ⊎ ((0 < m) × (2 ^ 63 ≤ wait_end s t b.machine.world))
          → Runs p s c t junk fuel m b
      unfolding execute_fromthread
      none_done m b v late = (
        0,
        b,
        0,
        refl,
        record { valid = v; handle = refl; passes = omega arith },
        omega arith,
        omega arith,
        late,
      )

      -- If the file that the handle of the board reaches, as `Connects` says, is open for
      -- writing, the kernel keeps time and counts interrupts as `KeepsTime` and `CountsUps`
      -- document, no other call of the loop takes an interrupt, as `Spares` says, the time of
      -- a wait of 100 ms is not 0 and at most `turns` steps of a wait, fewer than the rounds
      -- of the driver, and the chip ends the waits of a cycle within the fuel whatever the
      -- state, then from a valid object with a handle that is not -1, as `Runs` says, some
      -- `j` rounds of the real-time loop return and leave the object valid and the handle as
      -- it was: `j` is `m`, or it is less and the clock is so late that a wait could end at 2
      -- ^ 63 ns or after; they take at most one interrupt each, as many in all as the
      -- semaphore and the calls of `up` account for, and not fewer than were pending, as far
      -- as there are rounds for them.
      pub execute_fromthread-taken :
          (m : ℕ) (b : Board W D)
          → IsValid b.machine.base
          → is_minus_one b.devhndl ≡ false
          → Connects p s rounds file b.devhndl 100
          → Runs p s c t junk fuel m b
      unfolding execute_fromthread
      execute_fromthread-taken zero b v valid link = none_done 0 b v (inl refl)
      execute_fromthread-taken (suc m) b v valid link =
          elim (dec_lt (wait_end s t b.machine.world) (2 ^ 63)) [
            | no late ↦ none_done (suc m) b v (inr (omega arith, omega (arith, late)))
            | yes early ↦
                let (b1, k, e, took, once, pending) = round-Took b v valid link early in
                let link1 = subst (λ h. Connects p s rounds file h 100) (sym took.handle) link in
                let (j, b2, k', e', took', most, least, last) =
                  execute_fromthread-taken m b1 took.valid (rw took.handle valid) link1 in
                (
                  suc j,
                  b2,
                  k + k',
                  >>=-done (round p junk fuel) (λ u. execute_fromthread p junk fuel j) b e ∙ e',
                  record {
                    valid = took'.valid;
                    handle = took'.handle ∙ took.handle;
                    passes = omega (arith, took.passes, took'.passes);
                  },
                  omega arith,
                  omega (arith, took.passes, pending, least, once),
                  elim last [
                    | inl all ↦ inl (omega (arith, all))
                    | inr late ↦ inr (omega arith, late.1)
                  ],
                )
          ]
