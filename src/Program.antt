-- ===== src/Program.antt =====
-- slave_test/src/slave_test.cpp: main, over the operations of the shield, the console and the threads.
pub mod Rounds
pub mod Latest
pub mod Start
mod Tests
use rpi_rt_ether_cat_slave_i.Common.{
  ℕ, zero, suc, ◌+◌, ◌/◌, ◌%◌, ◌^◌, List, [], ◌∷◌, Option, none, some, done, fault, spins, M, pure,
  ◌>>=◌, ◌>>◌, if◌then◌else◌,
}
use rpi_rt_ether_cat_slave_i.Common.Int.{ℤ, pos, is_zero}
use rpi_rt_ether_cat_slave_i.Word.{Ulong, ProcBuffer}
use rpi_rt_ether_cat_slave_i.Base.{send_output}
use rpi_rt_ether_cat_slave_i.Shield.{Platform, Board, getns, init}
use rpi_rt_ether_cat_slave_i.Thread.{Thread, System}
use rpi_rt_ether_cat_slave_i.Thread.Helpers.{resume_rtthread}
use rpi_rt_ether_cat_slave_i.Console.{bashoutput}
use rpi_rt_ether_cat_slave_i.Sleep.{Timespec, Times, milisleep}

-- The global objects and the variables of `main`.
pub record Program (W D : Type 0) : Type 0 where
  pub board : Board W D
  pub outbuffer : List ℕ
  pub mytestthread : Thread
  pub system : System
  pub buffer_from_eth_cat : ProcBuffer
  pub input_buffer : List ℕ
  pub counter : ℕ

-- What `main` calls of the system and of bcm2835 besides: `printf`, `nanosleep`, `bcm2835_spi_end` and
-- `bcm2835_close`.
pub record Calls (W : Type 0) : Type 0 where
  pub printf : List ℕ → W → W
  pub nanosleep : Timespec → W → ℤ × W
  pub spi_end : W → W
  pub close : W → W

module _ {W D : Type 0} (p : Platform W D) (c : Calls W) (print_f : D → List ℕ)
    (times : Times) where
  -- a part of the program on the hardware
  abbrev pub on_world : {A : Type 0} → M W A → M (Program W D) A
  on_world m q = elim (m q.board.machine.world) [
    | done a w ↦
        done a
          (record q { board = record q.board { machine = record q.board.machine { world = w } } })
    | fault ↦ fault
    | spins ↦ spins
  ]

  -- `ETHB.send_output(&inputbuffer[0])`
  unfoldable pub send : M (Program W D) (Unit {0})
  send q = elim (send_output q.input_buffer q.board.machine.base) [
    | done a b ↦
        done a
          (record q { board = record q.board { machine = record q.board.machine { base = b } } })
    | fault ↦ fault
    | spins ↦ spins
  ]

  -- `ETHB.bashoutput()`, with its `printf`
  unfoldable pub show : M (Program W D) (Unit {0})
  show q = elim (bashoutput print_f q.board.period q.board.runtime q.outbuffer) [
    | done text b ↦ on_world (λ w. done tt (c.printf text w)) (record q { outbuffer = b })
    | fault ↦ fault
    | spins ↦ spins
  ]

  -- the words of a round that began at `ms`
  abbrev pub words_at : ℕ → ℕ → List ℕ
  words_at ms counter = ms ∷ counter ∷ 1 ∷ 2 ∷ []

  -- One round of the loop. `receive_input` is taken as a whole, with no cycle beside it.
  unfoldable pub loop_round : M (Program W D) (Unit {0})
  loop_round = do
    loopstartns ← on_world (getns p)
    λ q. done tt (record q { buffer_from_eth_cat = q.board.machine.base.buffer_out_eth_to_slave })
    λ q. done tt (record q {
      input_buffer = words_at (loopstartns / 1000000) q.counter;
      counter = (q.counter + 1) % 2 ^ 64;
    })
    send
    show
    err ← on_world (milisleep times (λ t w. done (c.nanosleep t w).0 (c.nanosleep t w).1) (pos 100))
    pure tt

  -- the first `n` rounds of the loop
  unfoldable pub loop : ℕ → M (Program W D) (Unit {0})
  loop zero = pure tt
  loop (suc n) = do loop_round; loop n

  -- `main` up to its loop, with the status that it returns if `init` fails
  unfoldable pub main_start : (W → Ulong) → ℕ → M (Program W D) (Option ℤ)
  main_start junk fuel = do
    λ q. done tt (record q { input_buffer = 0 ∷ 0 ∷ 0 ∷ 0 ∷ [] })
    status ← (λ q. elim (init p junk fuel q.board) [
      | done status b ↦ done status (record q { board = b })
      | fault ↦ fault
      | spins ↦ spins
    ])
    if is_zero status
        then (λ q. elim (resume_rtthread q.mytestthread q.system) [
          | done u s ↦ done none (record q { system = s })
          | fault ↦ fault
          | spins ↦ spins
        ])
        else (on_world (λ w. done tt (c.close (c.spi_end w))) >> pure (some status))

  -- `main`, with `n` rounds of its loop
  unfoldable pub main : (W → Ulong) → ℕ → ℕ → M (Program W D) (Option ℤ)
  main junk fuel n = do
    failed ← main_start junk fuel
    elim failed [ none ↦ loop n >> pure none | some status ↦ pure (some status) ]
