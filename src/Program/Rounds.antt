-- ===== src/Program/Rounds.antt =====
-- The rounds of main in turns with the cycles of the real-time thread.
use rpi_rt_ether_cat_slave_i.Common.{
  ℕ, ◌+◌, ◌*◌, ◌/◌, ◌%◌, ◌^◌, ◌≤◌, ◌<◌, true, ◌≡◌, refl, ap, ◌∙◌, List, [], ◌∷◌, some, done, pure,
  ◌>>=◌, ◌>>◌, >>=-done, length, get_elem?, arith,
}
use rpi_rt_ether_cat_slave_i.Common.Int.{ℤ, pos}
use rpi_rt_ether_cat_slave_i.Word.{ProcBuffer}
use rpi_rt_ether_cat_slave_i.Base.{Machine}
use rpi_rt_ether_cat_slave_i.Base.Queue.{
  IsValid, buffer_of, published, published-IsValid, published-slots, send_output-published,
}
use rpi_rt_ether_cat_slave_i.Stat.{StatBuffer}
use rpi_rt_ether_cat_slave_i.ThreadName.Laws.{NoZero}
use rpi_rt_ether_cat_slave_i.Console.Bounds.{fields, text, bashoutput-text}
use rpi_rt_ether_cat_slave_i.Sleep.{Times, fits, milisleep}
use rpi_rt_ether_cat_slave_i.Sleep.Exact.{milisleep-exact}
use rpi_rt_ether_cat_slave_i.Shield.{Platform}
use rpi_rt_ether_cat_slave_i.Program.{Program, Calls, send, show, on_world, loop_round}

-- the buffer of a round
abbrev pub sample : ℕ → ℕ → ProcBuffer
sample ms counter = buffer_of (record { a = ms; b = counter; c = 1; d = 2 })

-- the clock's time in milliseconds, as a round of the loop reads it
abbrev pub ms_at : {W D : Type 0} → Platform W D → Program W D → ℕ
ms_at p q =
    let (sec, nsec) = (p.clock_gettime q.board.machine.world).0 in
    (sec * 1000000000 + nsec) % 2 ^ 64 / 1000000

-- the text of a round fits its buffer
abbrev pub Fits : {D : Type 0} → (D → List ℕ) → StatBuffer D → StatBuffer D → Type 0
Fits print_f period runtime = length (text print_f (fields period runtime)) ≤ 255

abbrev machine : {W D : Type 0} → Program W D → Machine W
machine q = q.board.machine

-- The pause of a round, 100 ms, is cut to 0 seconds, and a `long` holds its nanoseconds.
pub record Pauses (times : Times) : Type 0 where
  pub some_bits : 0 < times.bits
  pub whole : times.whole_seconds (pos 100) ≡ pos 0
  pub in_long : fits times.bits (pos 100000000) ≡ true

-- What the rounds keep: the object is valid and publishes the buffer, and the text has its room.
abbrev pub IsReady : {W D : Type 0} → ProcBuffer → Program W D → Type 0
IsReady b q =
    IsValid q.board.machine.base
    × (get_elem? q.board.machine.base.from_slave_buffer_in q.board.machine.base.curqoutidx ≡ some b)
    × (length q.outbuffer ≡ 256)

module _ {W D : Type 0} (p : Platform W D) (c : Calls W) (print_f : D → List ℕ)
    (times : Times) where
  module _ (printable : (v : D) → NoZero (print_f v)) (exact : Pauses times) where
    send-published :
        (q : Program W D) (ms counter : ℕ)
        → q.input_buffer ≡ ms ∷ counter ∷ 1 ∷ 2 ∷ []
        → IsValid (machine q).base
        → send p c print_f times q
          ≡ done tt (record q {
            board = record q.board {
              machine = record q.board.machine {
                base = published (machine q).base (sample ms counter);
              };
            };
          })
    unfolding send
    send-published q ms counter words v =
        let call = send_output-published ms counter 1 2 [] (machine q).base v in
        ground (arith, words, call)

    show-returns :
        (q : Program W D)
        → length q.outbuffer ≡ 256
        → Fits print_f q.board.period q.board.runtime
        → (b : List ℕ) × (w : W) × (show p c print_f times q
            ≡ done tt (record q {
              outbuffer = b;
              board = record q.board { machine = record q.board.machine { world = w } };
            }))
          × (length b ≡ 256)
    unfolding show
    show-returns q size fits =
        let (b, e, size') =
          (bashoutput-text print_f printable q.board.period q.board.runtime q.outbuffer size).0
            fits in
        (
          b,
          c.printf (b'\r' ∷ b' ' ∷ text print_f (fields q.board.period q.board.runtime))
              (machine q).world,
          ground (arith, e),
          size',
        )

    sleep-returns :
        (w : W)
        → (err : ℤ) × (w' : W) × (milisleep times
              (λ t w. done (c.nanosleep t w).0 (c.nanosleep t w).1)
              (pos 100)
              w
            ≡ done err w')
    sleep-returns w =
        let (t, e, exactly, normal) =
          milisleep-exact times (λ t w. done (c.nanosleep t w).0 (c.nanosleep t w).1) (pos 100)
            exact.some_bits refl (rw exact.whole refl) (rw exact.whole refl)
            (rw exact.whole exact.in_long) in
        ((c.nanosleep t w).0, (c.nanosleep t w).1, ap (λ m. m w) e)

    pub round-IsReady :
        (b : ProcBuffer) (q : Program W D)
        → IsReady b q
        → Fits print_f q.board.period q.board.runtime
        → (r : Program W D) × (loop_round p c print_f times q ≡ done tt r)
          × IsReady (sample (ms_at p q) q.counter) r
          × (r.counter ≡ (q.counter + 1) % 2 ^ 64)
          × (r.board.period ≡ q.board.period)
          × (r.board.runtime ≡ q.board.runtime)
          × (r.board.devhndl ≡ q.board.devhndl)
          × (r.system ≡ q.system)
    unfolding loop_round
    round-IsReady b q (v, slot, size) fits =
        let world = (p.clock_gettime (machine q).world).1 in
        let (sec, nsec) = (p.clock_gettime (machine q).world).0 in
        let ms = (sec * 1000000000 + nsec) % 2 ^ 64 / 1000000 in
        let q2 : Program W D = record q {
          board = record q.board { machine = record q.board.machine { world = world } };
          buffer_from_eth_cat = (machine q).base.buffer_out_eth_to_slave;
          input_buffer = ms ∷ q.counter ∷ 1 ∷ 2 ∷ [];
          counter = (q.counter + 1) % 2 ^ 64;
        } in
        let q3 : Program W D = record q2 {
          board = record q2.board {
            machine = record q2.board.machine {
              base = published (machine q2).base (sample ms q.counter);
            };
          };
        } in
        let (out, w4, e4, size4) = show-returns q3 size fits in
        let q4 : Program W D = record q3 {
          outbuffer = out;
          board = record q3.board { machine = record q3.board.machine { world = w4 } };
        } in
        let (err, w5, e5) = sleep-returns w4 in
        let q5 : Program W D = record q4 {
          board = record q4.board { machine = record q4.board.machine { world = w5 } };
        } in
        let pause =
          on_world p c print_f times
            (milisleep times (λ t w. done (c.nanosleep t w).0 (c.nanosleep t w).1) (pos 100)) in
        let paused : pause q4 ≡ done err q5 = ground (arith, e5) in
        let nap = pause >>= λ err. pure tt in
        (
          q5,
          >>=-done (send p c print_f times) (λ u. show p c print_f times >> nap) q2
                (send-published q2 ms q.counter refl v)
              ∙ >>=-done (show p c print_f times) (λ u. nap) q3 e4
              ∙ >>=-done pause (λ err. pure tt) q4 paused,
          (
            published-IsValid (machine q).base (sample ms q.counter) refl v,
            (published-slots (machine q).base (sample ms q.counter) v).0,
            size4,
          ),
          refl,
          refl,
          refl,
          refl,
          refl,
        )
