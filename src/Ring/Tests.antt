-- ===== src/Ring/Tests.antt =====
-- Runs from the constructor's state.
use rpi_rt_ether_cat_slave_i.Common.{
  ℕ, ◌≤◌, ◌<◌, ◌≡◌, refl, [], ◌∷◌, done, arith, get_elem?-replicate,
}
use rpi_rt_ether_cat_slave_i.Word.{zeroed}
use rpi_rt_ether_cat_slave_i.Base.{RpiBase, send_output, fetch, write_fetched, ecat_pram_wr_cmd}
use rpi_rt_ether_cat_slave_i.Demo.{blank, blank-IsValid, chip_bus, chip, garbage}
use rpi_rt_ether_cat_slave_i.Ring.{
  ready, waiting, fetching, Ring, latest, calls, stores, publishes, moves_on, reads_index, copies,
  IsFresh, Reach, start, later,
}
use rpi_rt_ether_cat_slave_i.Ring.Whole.{Reach-whole}
use rpi_rt_ether_cat_slave_i.Ring.Torn.{Reach-torn}
use rpi_rt_ether_cat_slave_i.Spi.Transaction.{write, issue}
use rpi_rt_ether_cat_slave_i.Spi.Polling.{polled}
use rpi_rt_ether_cat_slave_i.Base.Exchange.{write_started}
use rpi_rt_ether_cat_slave_i.Base.Queue.{of_words}
use rpi_rt_ether_cat_slave_i.Ring.Sent.{Reach-sent}
use rpi_rt_ether_cat_slave_i.Ring.Refines.{source_of, words_of, Shows, Reach-send_output}

abbrev fresh : Ring
fresh = record {
  cells = λ k j. 0;
  curqidx = 0;
  curqoutidx = 0;
  buffer_in = λ j. 0;
  sender = ready;
  task = waiting;
  begun = 0;
  source = λ m j. 0;
}

fresh-IsFresh : IsFresh fresh
fresh-IsFresh = record {
  first = refl;
  none_out = refl;
  no_call = refl;
  no_task = refl;
  none_begun = refl;
}

-- A call, and a fetch of its one cell.
abbrev sent_one : (s : Ring) × Reach 1 fresh s
sent_one = (
  _,
  later
      (later
        (later
          (later (later (later start (calls (λ j. 7) refl)) (stores 0 refl (omega arith)))
            (publishes refl))
          (moves_on refl))
        (reads_index refl))
      (copies 0 1 0 refl (omega arith)),
)

one_cell_whole :
    (1 ≤ latest sent_one.0) × ((j : ℕ) → j < 1 → sent_one.0.buffer_in j ≡ sent_one.0.source 1 j)
one_cell_whole = Reach-whole 0 1 fresh-IsFresh sent_one.1 refl (omega arith) (omega arith)

seven_sent : sent_one.0.buffer_in 0 ≡ 7
seven_sent = refl

-- A call with four words, and a fetch of its slot.
abbrev stored_four : (s : Ring) × Reach 4 fresh s
stored_four = (
  _,
  later
      (later
        (later (later (later start (calls (source_of 1 2 3 4) refl)) (stores 0 refl (omega arith)))
          (stores 1 refl (omega arith)))
        (stores 2 refl (omega arith)))
      (stores 3 refl (omega arith)),
)

abbrev fetched_four : (s : Ring) × Reach 4 fresh s
fetched_four = (
  _,
  later
      (later
        (later
          (later
            (later (later (later stored_four.1 (publishes refl)) (moves_on refl))
              (reads_index refl))
            (copies 0 1 0 refl (omega arith)))
          (copies 0 1 1 refl (omega arith)))
        (copies 0 1 2 refl (omega arith)))
      (copies 0 1 3 refl (omega arith)),
)

abbrev fetched_object : RpiBase
fetched_object = record blank { buffer_in = of_words 1 2 3 4 }

Reach-sent_example :
    (1 ≤ latest fetched_four.0)
    × (fetched_object.buffer_in ≡ of_words 1 2 3 4)
    × (write_fetched chip_bus garbage 3 (record { base = fetched_object; world = chip })
        ≡ done tt (record {
          base = fetched_object;
          world =
              (issue chip_bus
                (write 0x20 (of_words 1 2 3 4).bytes)
                (polled chip_bus ecat_pram_wr_cmd 0 (write_started chip_bus chip))).1;
        }))
unfolding issue
Reach-sent_example =
    Reach-sent chip_bus garbage 3 0 0 1 fetched_object chip fresh-IsFresh fetched_four.1 refl
      (omega arith) (omega arith) refl (omega arith) refl

Reach-torn_example :
    ((t : Ring) × Reach 4 fresh t
      × (t.task ≡ fetching 0 0 4)
      × (t.begun ≡ 1)
      × (t.source 1 ≡ (λ j. 7))
      × (t.buffer_in 0 ≡ 7)
      × ((j : ℕ) → 0 < j → j < 4 → t.buffer_in j ≡ 0))
    × ((t : Ring) × Reach 4 fresh t
        × (t.task ≡ fetching 0 1 4)
        × (t.begun ≡ 11)
        × (t.source 11 ≡ (λ j. 7))
        × (t.source 1 ≡ (λ j. 5))
        × (t.buffer_in 0 ≡ 7)
        × ((j : ℕ) → 0 < j → j < 4 → t.buffer_in j ≡ 5))
Reach-torn_example = Reach-torn (λ j. 7) (λ j. 5) fresh-IsFresh (omega arith)

fresh-Shows : Shows fresh blank
fresh-Shows = record { next = refl; out = refl; slots = λ k lt. get_elem?-replicate 10 k zeroed lt }

Reach-send_output_example :
    ((t : Ring) × (o' : RpiBase) × Reach 4 fresh t
      × (t.sender ≡ ready)
      × (t.task ≡ waiting)
      × (send_output (1 ∷ 2 ∷ 3 ∷ 4 ∷ []) blank ≡ done tt o')
      × Shows t o')
    × ((t : Ring) × Reach 4 fresh t
        × (t.sender ≡ ready)
        × (t.task ≡ fetching 0 0 4)
        × (fetch chip_bus (record { base = blank; world = chip })
            ≡ done tt (record {
              base = record blank { buffer_in = words_of t.buffer_in };
              world = chip;
            })))
Reach-send_output_example =
    Reach-send_output chip_bus chip 1 2 3 4 fresh blank blank-IsValid fresh-Shows refl refl
