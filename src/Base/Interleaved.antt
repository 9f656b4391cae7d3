-- ===== src/Base/Interleaved.antt =====
-- The application and the EtherCAT task in turns: calls of send_output and cycles in any order, each
-- taken as a whole.
use rpi_rt_ether_cat_slave_i.Common.{
  ℕ, ◌≡◌, ◌∙◌, refl, List, [], ◌∷◌, some, done, fault, spins, M, pure, ◌>>=◌, ◌>>◌, >>=-done,
  get_elem?, arith,
}
use rpi_rt_ether_cat_slave_i.Word.{Ulong, ProcBuffer}
use rpi_rt_ether_cat_slave_i.Spi.{Bus}
use rpi_rt_ether_cat_slave_i.Spi.Transaction.{write, issue}
use rpi_rt_ether_cat_slave_i.Base.{RpiBase, Machine, send_output, main_task}
use rpi_rt_ether_cat_slave_i.Base.Queue.{
  IsValid, Words, buffer_of, published, published-IsValid, published-slots, send_output-published,
}
use rpi_rt_ether_cat_slave_i.Base.Cycle.{
  Waits, Responds, sent_from, cycle, cycle_status, main_task-cycle,
}
use rpi_rt_ether_cat_slave_i.Base.Valid.{main_task-IsValid}

pub data Event : Type 0 where
  send : Words → Event
  task : Event

-- the words of the last call among the events, in front of which `p` was the slot published
abbrev pub latest : ProcBuffer → List Event → ProcBuffer
latest p [] = p
latest p (send w ∷ es) = latest (buffer_of w) es
latest p (task ∷ es) = latest p es

module _ {W : Type 0} (bus : Bus W) (junk : W → Ulong) (fuel : ℕ) where
  abbrev pub on_base : {A : Type 0} → M RpiBase A → M (Machine W) A
  on_base m s = elim (m s.base) [
    | done a b ↦ done a (record s { base = b })
    | fault ↦ fault
    | spins ↦ spins
  ]

  abbrev pub event : Event → M (Machine W) (Unit {0})
  event (send w) = on_base (send_output (w.a ∷ w.b ∷ w.c ∷ w.d ∷ []))
  event task = main_task bus junk fuel >>= λ status. pure tt

  unfoldable pub run_events : List Event → M (Machine W) (Unit {0})
  run_events [] = pure tt
  run_events (e ∷ es) = do event e; run_events es

  -- the object is valid, and the slot published holds `p`
  abbrev pub IsPublishing : ProcBuffer → Machine W → Type 0
  IsPublishing p s =
      IsValid s.base × (get_elem? s.base.from_slave_buffer_in s.base.curqoutidx ≡ some p)

  module _ (n : W → Waits) (answers : (w : W) → Responds bus (n w) w fuel) where
    send-IsPublishing :
        (w : Words) (p : ProcBuffer) (s : Machine W)
        → IsPublishing p s
        → (t : Machine W) × (event (send w) s ≡ done tt t) × IsPublishing (buffer_of w) t
    send-IsPublishing w p s (v, slot) =
        let q = buffer_of w in
        let call = send_output-published w.a w.b w.c w.d [] s.base v in
        (
          record s { base = published s.base q },
          ground (arith, call),
          (published-IsValid s.base q refl v, (published-slots s.base q v).0),
        )

    task-IsPublishing :
        (p : ProcBuffer) (s : Machine W)
        → IsPublishing p s
        → (t : Machine W) × (event task s ≡ done tt t) × IsPublishing p t
    task-IsPublishing p s (v, slot) =
        let (status, t, e, v', same) =
          main_task-IsValid bus junk fuel (n s.world) s v (answers s.world) in
        (
          t,
          >>=-done (main_task bus junk fuel) (λ status. pure tt) s e,
          (v', ground (arith, same.ring, same.curqoutidx, slot)),
        )

    run_events-IsPublishing :
        (es : List Event) (p : ProcBuffer) (s : Machine W)
        → IsPublishing p s
        → (t : Machine W) × (run_events es s ≡ done tt t) × IsPublishing (latest p es) t
    unfolding run_events
    run_events-IsPublishing [] p s h = (s, refl, h)
    run_events-IsPublishing (send w ∷ es) p s h =
        let (s1, e1, h1) = send-IsPublishing w p s h in
        let (t, e, h') = run_events-IsPublishing es (buffer_of w) s1 h1 in
        (t, >>=-done (event (send w)) (λ u. run_events es) s e1 ∙ e, h')
    run_events-IsPublishing (task ∷ es) p s h =
        let (s1, e1, h1) = task-IsPublishing p s h in
        let (t, e, h') = run_events-IsPublishing es p s1 h1 in
        (t, >>=-done (event task) (λ u. run_events es) s e1 ∙ e, h')

    -- On a valid object, if the chip ends the waits of a cycle within the fuel whatever the
    -- state of the hardware, calls of `send_output` and cycles in any order return, and so does
    -- one more cycle, whose last transaction writes the words of the last call to the process
    -- RAM, or those of the slot published before if there was no call.
    pub run_events-latest :
        (es : List Event) (p : ProcBuffer) (s : Machine W)
        → IsPublishing p s
        → (t u : Machine W) × (status : ℕ) × (run_events es s ≡ done tt t)
          × (main_task bus junk fuel t ≡ done status u)
          × (u.base.buffer_in ≡ latest p es)
          × (u.world
              ≡ (issue bus (write 0x20 (latest p es).bytes) (sent_from bus (n t.world) t.world)).1)
    run_events-latest es p s h =
        let (t, e, (v, slot)) = run_events-IsPublishing es p s h in
        let q = latest p es in
        (
          t,
          cycle bus (n t.world) q t,
          cycle_status bus (n t.world) t.world,
          e,
          main_task-cycle bus junk fuel (n t.world) q t slot (v.sized _ q slot) v.out_sized
              (answers t.world),
          refl,
          refl,
        )
