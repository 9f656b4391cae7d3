-- ===== src/Program/Start.antt =====
-- main as a whole: how its start ends, and its rounds.
use rpi_rt_ether_cat_slave_i.Common.{
  ℕ, zero, suc, ◌+◌, ◌%◌, ◌^◌, ◌≡◌, ◌<◌, refl, ◌∙◌, List, [], ◌∷◌, ◌++◌, none, some, done, >>=-done,
  arith,
}
use rpi_rt_ether_cat_slave_i.Word.{Ulong, ProcBuffer}
use rpi_rt_ether_cat_slave_i.Spi.{is_csr_busy, ecat_csr_cmd, ecat_csr_data, esc_write}
use rpi_rt_ether_cat_slave_i.Spi.Polling.{Clears, commanded, written}
use rpi_rt_ether_cat_slave_i.ThreadName.Laws.{NoZero}
use rpi_rt_ether_cat_slave_i.Thread.{HalThreadId, mutex_unlock}
use rpi_rt_ether_cat_slave_i.Thread.Helpers.{resume_rtthread}
use rpi_rt_ether_cat_slave_i.Shield.{Platform, al_event_mask_reg_0, init}
use rpi_rt_ether_cat_slave_i.Shield.Init.{
  Stage, no_bcm2835, no_spi, not_recovered, no_device, started, error_of, stage, hardware_at,
  handle_at, shield_ready, spi_ready, init-stage,
}
use rpi_rt_ether_cat_slave_i.Program.{Program, Calls, loop_round, loop, main_start, main}
use rpi_rt_ether_cat_slave_i.Sleep.{Times}
use rpi_rt_ether_cat_slave_i.Program.Rounds.{Pauses, Fits, IsReady, round-IsReady}

module _ {W D : Type 0} (p : Platform W D) (c : Calls W) (print_f : D → List ℕ) (times : Times)
    (printable : (v : D) → NoZero (print_f v)) (exact : Pauses times) where
  -- what a number of rounds leaves
  pub record Ran (n : ℕ) (q r : Program W D) : Type 0 where
    pub ready : (b : ProcBuffer) × IsReady b r
    pub counter : r.counter ≡ (q.counter + n) % 2 ^ 64
    pub handle : r.board.devhndl ≡ q.board.devhndl
    pub system : r.system ≡ q.system

  loop-Ran :
      (n : ℕ) (b : ProcBuffer) (q : Program W D)
      → IsReady b q
      → q.counter < 2 ^ 64
      → Fits print_f q.board.period q.board.runtime
      → (r : Program W D) × (loop p c print_f times n q ≡ done tt r) × Ran n q r
  unfolding loop
  loop-Ran zero b q h small fits =
      (q, refl, record { ready = (b, h); counter = omega arith; handle = refl; system = refl })
  loop-Ran (suc n) b q h small fits =
      let (q1, e1, h1, next, same_period, same_runtime, same_handle, same_system) =
        round-IsReady p c print_f times printable exact b q h fits in
      let (r, e, ran) =
        loop-Ran n _ q1 h1 (omega (arith, next)) (rw (same_period, same_runtime) fits) in
      (
        r,
        >>=-done (loop_round p c print_f times) (λ u. loop p c print_f times n) q e1 ∙ e,
        record {
          ready = ran.ready;
          counter = omega (arith, ran.counter, next);
          handle = ran.handle ∙ same_handle;
          system = ran.system ∙ same_system;
        },
      )

  module _ (junk : W → Ulong) (fuel k n : ℕ) (q : Program W D) where
    abbrev pub reached : Stage
    reached = stage p junk fuel k q.board

    -- the program once `init` has come to a stage
    abbrev pub initialised : Stage → Program W D
    initialised st = record q {
      input_buffer = 0 ∷ 0 ∷ 0 ∷ 0 ∷ [];
      board = record q.board {
        machine = record q.board.machine { world = hardware_at p junk fuel k q.board st };
        devhndl = handle_at p junk fuel k q.board st;
      };
    }

    -- a program that has given up: the library is closed
    abbrev pub closed : Program W D → Program W D
    closed r = record r {
      board = record r.board {
        machine = record r.board.machine { world = c.close (c.spi_end r.board.machine.world) };
      };
    }

    -- a program whose thread has been resumed
    abbrev pub resumed : Program W D → Program W D
    resumed r = record r {
      system = record r.system { calls = r.system.calls ++ mutex_unlock ∷ [] };
    }

    -- What `main` does if `init` comes to a stage: with the shield started it resumes the thread and
    -- runs its rounds, and otherwise it closes the library and returns the error.
    abbrev pub Ends : Stage → Type 0
    Ends started =
        (r : Program W D) × (main p c print_f times junk fuel n q ≡ done none r)
        × Ran n (resumed (initialised started)) r
    Ends st =
        main p c print_f times junk fuel n q ≡ done (some (error_of st)) (closed (initialised st))

    -- If the object is valid with some slot published, the text of a round fits the console's
    -- buffer of 256 bytes, the pause is cut to 0 seconds, the thread has been created, and the
    -- core is busy for `k` polls after the write of the event mask with `k` less than the fuel,
    -- then `main` ends as the stage says that the answers of the library, the chip and the
    -- system lead `init` to: with the shield started it resumes the thread and returns from its
    -- rounds, the counter raised by their number modulo 2 ^ 64, with no cycle of the thread
    -- beside them, and at any other stage it closes the library, resumes no thread and returns
    -- the error of the stage.
    pub main-stage :
        (b : ProcBuffer) (h : HalThreadId)
        → IsReady b q
        → q.counter < 2 ^ 64
        → Fits print_f q.board.period q.board.runtime
        → q.mytestthread.imp_buf ≡ some h
        → k < fuel
        → Clears p.bus is_csr_busy ecat_csr_cmd k (
            commanded p.bus al_event_mask_reg_0 4 esc_write (
              written p.bus ecat_csr_data 0x00000100
                (shield_ready p (spi_ready p q.board.machine.world))))
        → Ends reached
    unfolding main main_start resume_rtthread
    main-stage b h ready small fits thread lt clears =
        let begun = init-stage p junk fuel k q.board lt clears in at_stage reached begun
      where
        at_stage :
            (st : Stage)
            → init p junk fuel q.board ≡ done (error_of st) (initialised st).board
            → Ends st
        at_stage no_bcm2835 e = ground (arith, e)
        at_stage no_spi e = ground (arith, e)
        at_stage not_recovered e = ground (arith, e)
        at_stage no_device e = ground (arith, e)
        at_stage started e =
            let (r, e', ran) = loop-Ran n b (resumed (initialised started)) ready small fits in
            (r, ground (arith, e, e', thread), ran)
