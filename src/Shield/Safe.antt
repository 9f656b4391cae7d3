-- ===== src/Shield/Safe.antt =====
-- The real-time loop beside send_output, whatever the chip and the system answer.
use rpi_rt_ether_cat_slave_i.Common.{
  ℕ, ◌+◌, ◌-◌, ◌%◌, ◌^◌, ◌<◌, List, [], ◌∷◌, done, fault, spins, Run, M, pure, ◌>>=◌, ◌>>◌, true,
  false, arith, Post, returns, waits, Keeps-pure, Keeps-then, ◌⟫◌, if◌then◌else◌, ltb, Bool,
  Bool-cases, inl, inr,
}
use rpi_rt_ether_cat_slave_i.Common.Int.{neg, is_minus_one}
use rpi_rt_ether_cat_slave_i.Shield.Starting.{
  IsTypedBoard, SafeBoard, on_hardware-Safe, command-Quiet, init-Safe,
}
use rpi_rt_ether_cat_slave_i.Shield.{
  init, Platform, Board, on_hardware, on_machine, call, command, getns, waitforirq_or_timeout,
  account, round,
}
use rpi_rt_ether_cat_slave_i.Word.{Ulong}
use rpi_rt_ether_cat_slave_i.Stat.{Double}
use rpi_rt_ether_cat_slave_i.Stat.Summary.{count-calc}
use rpi_rt_ether_cat_slave_i.Base.{Machine, main_task}
use rpi_rt_ether_cat_slave_i.Base.Queue.{Words}
use rpi_rt_ether_cat_slave_i.Base.Typed.{IsTyped, with_times}
use rpi_rt_ether_cat_slave_i.Base.Interleaved.{send, event}
use rpi_rt_ether_cat_slave_i.Base.Safe.{Safe, main_task-Safe, send-Safe}

-- The start, calls of the application, and rounds of the thread's loop.
pub data Turn : Type 0 where
  sends : Words → Turn
  rounds : Turn
  starts : Turn

module _ {W D : Type 0} (p : Platform W D) (junk : W → Ulong) (fuel : ℕ) ⦃d : Double D⦄ where
  abbrev pub turn : Turn → M (Board W D) (Unit {0})
  turn (sends w) = on_machine p junk fuel (event p.bus junk fuel (send w))
  turn rounds = round p junk fuel
  turn starts = init p junk fuel >>= λ err. pure tt

  unfoldable pub run_turns : List Turn → M (Board W D) (Unit {0})
  run_turns [] = pure tt
  run_turns (t ∷ ts) = do turn t; run_turns ts

  on_machine-Safe :
      {A : Type 0} {m : M (Machine W) A} → Safe m → SafeBoard (on_machine p junk fuel m)
  on_machine-Safe {A} {m} q = record {
    post = λ b h. lifted b h (m b.machine) (q.post b.machine h.0);
  }
    where
      lifted :
          (b : Board W D)
          → IsTypedBoard b
          → (r : Run (Machine W) A) → Post (λ a t. IsTyped t.base) r
          → Post
              (λ a c. IsTypedBoard c)
              (elim r [
                | done a s ↦ done a (record b { machine = s })
                | fault ↦ fault
                | spins ↦ spins
              ])
      lifted b (u, v, w) _ (returns t) = returns (t, v, w)
      lifted b h _ waits = waits

  command-Safe : (f : W → W) → SafeBoard (on_hardware p junk fuel (command p f))
  command-Safe f = on_hardware-Safe p junk fuel (command-Quiet p junk fuel f)

  -- A time is given by its 64 bits.
  getns-then :
      {A : Type 0} {f : ℕ → M (Board W D) A}
      → ((ns : ℕ) → ns < 2 ^ 64 → SafeBoard (f ns))
      → SafeBoard (on_hardware p junk fuel (getns p) >>= f)
  getns-then k = record { post = λ b h. (k _ (omega arith)).post _ h }

  wait-Safe : (timeoutms : ℕ) → SafeBoard (waitforirq_or_timeout p junk fuel timeoutms)
  unfolding waitforirq_or_timeout
  wait-Safe timeoutms = record { post = λ b h. waited b h (is_minus_one b.devhndl) }
    where
      waited :
          (b : Board W D)
          → IsTypedBoard b
          → (no_device : Bool)
          → Post
              (λ a c. IsTypedBoard c)
              (if no_device
                then done (neg 1) b
                else on_hardware p junk fuel
                    (call p (p.ioctl b.devhndl (p.iow b'B' 42 4) timeoutms))
                    b)
      waited b h true = returns h
      waited b h false = returns h

  account-typed :
      (start_run now : ℕ) (b : Board W D)
      → start_run < 2 ^ 64
      → IsTypedBoard b
      → IsTypedBoard (account p junk fuel start_run now b)
  account-typed start_run now b lt (t, u, v) =
      let lastruntime = (now + 2 ^ 64 - start_run) % 2 ^ 64 in
      let period = (start_run + 2 ^ 64 - b.machine.base.laststart) % 2 ^ 64 in
      let base =
        with_times b.machine.base ((b.machine.base.count + 1) % 2 ^ 64) start_run lastruntime t
          (omega arith) lt (omega arith) in
      let c = count-calc b.runtime (d.mul (d.of_ull lastruntime) p.milli) in
      let c' = count-calc b.period (d.mul (d.of_ull period) p.micro) in
      elim (Bool-cases (ltb 1 b.machine.base.count)) [
        | inl e ↦ rw e (base, omega (arith, c), omega (arith, c'))
        | inr e ↦ rw e (base, u, v)
      ]

  -- the end of a round, and the round from the first reading of the clock on
  abbrev accounts : ℕ → ℕ → M (Board W D) (Unit {0})
  accounts start_run now b = done tt (account p junk fuel start_run now b)

  abbrev timed_cycle : ℕ → M (Board W D) (Unit {0})
  timed_cycle start_run = do
    on_hardware p junk fuel (command p (p.gpio_out true))
    status ← on_machine p junk fuel (main_task p.bus junk fuel)
    on_hardware p junk fuel (command p (p.gpio_out false))
    now ← on_hardware p junk fuel (getns p)
    accounts start_run now

  accounts-Safe : (start_run now : ℕ) → start_run < 2 ^ 64 → SafeBoard (accounts start_run now)
  accounts-Safe start_run now lt = record {
    post = λ b h. returns (account-typed start_run now b lt h);
  }

  timed_cycle-Safe : (start_run : ℕ) → start_run < 2 ^ 64 → SafeBoard (timed_cycle start_run)
  timed_cycle-Safe start_run lt =
      command-Safe (p.gpio_out true)
      ⟫ Keeps-then (on_machine-Safe (main_task-Safe p.bus junk fuel)) (λ status.
        command-Safe (p.gpio_out false)
        ⟫ getns-then {f = accounts start_run} (λ now _. accounts-Safe start_run now lt))

  round-Safe : SafeBoard (round p junk fuel)
  unfolding round
  round-Safe = Keeps-then (wait-Safe 100) (λ err. getns-then {f = timed_cycle} timed_cycle-Safe)

  turns-Safe : (ts : List Turn) → SafeBoard (run_turns ts)
  unfolding run_turns
  turns-Safe [] = Keeps-pure tt
  turns-Safe (sends w ∷ ts) = on_machine-Safe (send-Safe p.bus junk fuel w) ⟫ turns-Safe ts
  turns-Safe (rounds ∷ ts) = round-Safe ⟫ turns-Safe ts
  turns-Safe (starts ∷ ts) =
      Keeps-then (init-Safe p junk fuel) (λ err. Keeps-pure tt) ⟫ turns-Safe ts

  -- Whatever the chip, the clock and the system answer and whatever the fuel, calls of `init` and
  -- `send_output` and rounds of the real-time loop in any order keep the board typed: from a
  -- board with the indices in the ring, ten slots and buffers of 32 bytes below 256, and every
  -- counter and time within its width, no access leaves a buffer, a union or the ring, and if the
  -- calls return, the board is like that again.
  pub run_turns-IsTypedBoard :
      (ts : List Turn) (b : Board W D)
      → IsTypedBoard b
      → Post (λ u c. IsTypedBoard c) (run_turns ts b)
  run_turns-IsTypedBoard ts b h = (turns-Safe ts).post b h
