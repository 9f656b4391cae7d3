-- ===== src/Program/Latest.antt =====
-- What the chip gets of the rounds of main.
use rpi_rt_ether_cat_slave_i.Common.{
  ℕ, ◌+◌, ◌-◌, ◌%◌, ◌^◌, ◌<◌, ◌≡◌, refl, ap, ◌∙◌, List, [], ◌∷◌, ◌++◌, done, fault, spins, M, pure,
  ◌>>◌, >>=-done, arith,
}
use rpi_rt_ether_cat_slave_i.Word.{Ulong, ProcBuffer}
use rpi_rt_ether_cat_slave_i.Spi.Transaction.{write, issue}
use rpi_rt_ether_cat_slave_i.Base.{Machine, main_task}
use rpi_rt_ether_cat_slave_i.Base.Cycle.{
  Waits, Responds, sent_from, cycle, cycle_status, main_task-cycle,
}
use rpi_rt_ether_cat_slave_i.Base.Valid.{main_task-IsValid}
use rpi_rt_ether_cat_slave_i.Stat.{StatBuffer}
use rpi_rt_ether_cat_slave_i.ThreadName.Laws.{NoZero}
use rpi_rt_ether_cat_slave_i.Shield.{Platform}
use rpi_rt_ether_cat_slave_i.Program.{Program, Calls, loop_round}
use rpi_rt_ether_cat_slave_i.Sleep.{Times}
use rpi_rt_ether_cat_slave_i.Program.Rounds.{Pauses, sample, Fits, IsReady, ms_at, round-IsReady}
use native.Mathlib.Decide.{ℕ_discrete}

-- A round of the loop of `main`, or a cycle of the real-time thread with the statistics that it leaves.
pub data Turn (D : Type 0) : Type 0 where
  round : Turn D
  task : StatBuffer D → StatBuffer D → Turn D

abbrev pub rounds : {D : Type 0} → List (Turn D) → ℕ
rounds [] = 0
rounds (round ∷ es) = rounds es + 1
rounds (task period runtime ∷ es) = rounds es

module _ {W D : Type 0} (p : Platform W D) (c : Calls W) (print_f : D → List ℕ) (times : Times)
    (junk : W → Ulong) (fuel : ℕ) where
  abbrev pub turn : Turn D → M (Program W D) (Unit {0})
  turn round = loop_round p c print_f times
  turn (task period runtime) = λ q. elim (main_task p.bus junk fuel q.board.machine) [
    | done status s ↦
        done tt
          (record q { board = record q.board { machine = s; period = period; runtime = runtime } })
    | fault ↦ fault
    | spins ↦ spins
  ]

  unfoldable pub run_turns : List (Turn D) → M (Program W D) (Unit {0})
  run_turns [] = pure tt
  run_turns (e ∷ es) = do turn e; run_turns es

  -- every round has a text that fits its buffer
  abbrev pub AllFit : StatBuffer D → StatBuffer D → List (Turn D) → Type 0
  AllFit period runtime [] = Unit {0}
  AllFit period runtime (round ∷ es) = Fits print_f period runtime × AllFit period runtime es
  AllFit period runtime (task period' runtime' ∷ es) = AllFit period' runtime' es

  -- The last round of the turns, the program before it, and the slot that it published: its time is
  -- the clock's there.
  abbrev pub Last : List (Turn D) → Program W D → ProcBuffer → Type 0
  Last es q slot =
      (before after : List (Turn D)) × (q0 : Program W D) × (es ≡ before ++ round ∷ after)
      × (rounds after ≡ 0)
      × (run_turns before q ≡ done tt q0)
      × (slot ≡ sample (ms_at p q0) ((q.counter + rounds es - 1) % 2 ^ 64))

  -- A turn before does not change which round is the last.
  Last-later :
      (e : Turn D) (es : List (Turn D)) (q r : Program W D) (slot : ProcBuffer)
      → turn e q ≡ done tt r
      → (r.counter + rounds es - 1) % 2 ^ 64 ≡ (q.counter + rounds (e ∷ es) - 1) % 2 ^ 64
      → Last es r slot
      → Last (e ∷ es) q slot
  unfolding run_turns
  Last-later e es q r slot first same (before, after, q0, split, none_after, ran, found) = (
    e ∷ before,
    after,
    q0,
    ap (λ l. e ∷ l) split,
    none_after,
    >>=-done (turn e) (λ u. run_turns before) q first ∙ ran,
    found ∙ ap (sample (ms_at p q0)) same,
  )

  module _ (printable : (v : D) → NoZero (print_f v)) (exact : Pauses times) (n : W → Waits)
      (answers : (w : W) → Responds p.bus (n w) w fuel) where
    -- After the turns the slot published is as before, or that of the last round.
    abbrev Outcome : List (Turn D) → ProcBuffer → Program W D → Program W D → Type 0
    Outcome es b q r =
        (slot : ProcBuffer) × IsReady slot r
        × (r.counter ≡ (q.counter + rounds es) % 2 ^ 64)
        × (rounds es ≡ 0 → slot ≡ b)
        × (0 < rounds es → Last es q slot)

    run_turns-Outcome :
        (es : List (Turn D)) (b : ProcBuffer) (q : Program W D)
        → IsReady b q
        → q.counter < 2 ^ 64
        → AllFit q.board.period q.board.runtime es
        → (r : Program W D) × (run_turns es q ≡ done tt r) × Outcome es b q r
    unfolding run_turns
    run_turns-Outcome [] b q h small fit =
        (q, refl, (b, h, omega arith, (λ e. refl), (λ lt. absurd (omega arith))))
    run_turns-Outcome (round ∷ es) b q h small fit =
        let (r0, e0, h0, next, same_period, same_runtime, same_handle, same_system) =
          round-IsReady p c print_f times printable exact b q h fit.0 in
        let (r, e, (slot, h', count, none_yet, last)) =
          run_turns-Outcome es (sample (ms_at p q) q.counter) r0 h0 (omega (arith, next))
            (rw (same_period, same_runtime) fit.1) in
        (
          r,
          >>=-done (loop_round p c print_f times) (λ u. run_turns es) q e0 ∙ e,
          (
            slot,
            h',
            omega (arith, next, count),
            (λ z. absurd (omega arith)),
            λ lt. elim (ℕ_discrete (rounds es) 0) [
              | yes only ↦
                  let same : q.counter ≡ (q.counter + (rounds es + 1) - 1) % 2 ^ 64 = omega arith in
                  ([], es, q, refl, only, refl, none_yet only ∙ ap (sample (ms_at p q)) same)
              | no others ↦
                  Last-later round es q r0 slot e0 (omega (arith, next)) (last (omega arith))
            ],
          ),
        )
    run_turns-Outcome (task period runtime ∷ es) b q h small fit =
        let (status, s, e0, v', same) =
          main_task-IsValid p.bus junk fuel (n q.board.machine.world) q.board.machine h.0
            (answers q.board.machine.world) in
        let r0 : Program W D = record q {
          board = record q.board { machine = s; period = period; runtime = runtime };
        } in
        let cycled : turn (task period runtime) q ≡ done tt r0 = ground (arith, e0) in
        let (r, e, (slot, h', count, none_yet, last)) =
          run_turns-Outcome es b r0 (v', ground (arith, same.ring, same.curqoutidx, h), h.2) small
            fit in
        (
          r,
          >>=-done (turn (task period runtime)) (λ u. run_turns es) q cycled ∙ e,
          (
            slot,
            h',
            count,
            none_yet,
            λ lt. Last-later (task period runtime) es q r0 slot cycled refl (last lt),
          ),
        )

    -- If the number printed by `%f` has no zero byte, 100 ms are cut to 0 seconds and a `long`
    -- holds 10 ^ 8, the chip ends the waits of a cycle within the fuel whatever the state of
    -- the hardware, the object is valid with some slot published, the buffer of the console has
    -- 256 bytes, the counter is below 2 ^ 64 and the text of every round fits that buffer, then
    -- rounds of the loop of `main` and cycles of the real-time thread in any order, with at
    -- least one round, return, and the counter has gone up by the number of rounds modulo 2 ^
    -- 64; one more cycle returns, its last transaction writes the new `BufferIn` to the process
    -- RAM, and that is the buffer of the last round as `Last` says: the clock's time in
    -- milliseconds in the program that the turns before that round lead to, the counter before
    -- that round, 1 and 2.
    pub run_turns-latest :
        (es : List (Turn D)) (b : ProcBuffer) (q : Program W D)
        → IsReady b q
        → q.counter < 2 ^ 64
        → AllFit q.board.period q.board.runtime es
        → 0 < rounds es
        → (r : Program W D) × (s : Machine W) × (status : ℕ) × (run_turns es q ≡ done tt r)
          × (r.counter ≡ (q.counter + rounds es) % 2 ^ 64)
          × (main_task p.bus junk fuel r.board.machine ≡ done status s)
          × Last es q s.base.buffer_in
          × (let w = r.board.machine.world in
              s.world
              ≡ (issue p.bus (write 0x20 s.base.buffer_in.bytes) (sent_from p.bus (n w) w)).1)
    run_turns-latest es b q h small fit some_round =
        let (r, e, (slot, (v, published_one, size), count, none_yet, last)) =
          run_turns-Outcome es b q h small fit in
        let w = r.board.machine.world in
        (
          r,
          cycle p.bus (n w) slot r.board.machine,
          cycle_status p.bus (n w) w,
          e,
          count,
          main_task-cycle p.bus junk fuel (n w) slot r.board.machine published_one
              (v.sized _ slot published_one) v.out_sized (answers w),
          last some_round,
          refl,
        )
