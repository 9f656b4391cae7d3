-- ===== src/Ring/Refines.antt =====
-- With no other thread in between, the steps of a call are send_output, and those of the task are its
-- fetch, on words of 64 bits as cells.
use rpi_rt_ether_cat_slave_i.Common.{
  ℕ, zero, suc, ◌+◌, ◌<◌, ◌≡◌, refl, sym, ap, ap₂, subst, fun_ext, ◌∙◌, arith, if◌then◌else◌, ◌==◌,
  ltb, [], ◌∷◌, some, done, get_elem?, set, get_elem?-set_self, get_elem?-set_ne,
}
use native.Mathlib.Decide.{ℕ_discrete}
use rpi_rt_ether_cat_slave_i.Word.{ProcBuffer}
use rpi_rt_ether_cat_slave_i.Base.{RpiBase, advance, send_output, fetch, qin_size}
use rpi_rt_ether_cat_slave_i.Base.Queue.{IsValid, of_words, published, send_output-published}
use rpi_rt_ether_cat_slave_i.Spi.{Bus}
use rpi_rt_ether_cat_slave_i.Ring.{
  ready, storing, waiting, fetching, Ring, update, latest, calls, stores, publishes, moves_on,
  reads_index, copies, Reach, start, later,
}
use rpi_rt_ether_cat_slave_i.Ring.Whole.{update_self, update-ne}

update-update :
    {A : Type 0} (f : ℕ → A) (i : ℕ) (a b : A) → update (update f i a) i b ≡ update f i b
update-update f i a b = fun_ext (λ j. ground arith)

update-same : {A : Type 0} (f : ℕ → A) (i : ℕ) → update f i (f i) ≡ f
update-same f i = fun_ext (λ j. elim (ℕ_discrete i j) [
  | yes same ↦ subst (λ k. update f i (f i) k ≡ f k) same (update_self f i (f i))
  | no other ↦ update-ne f i (f i) j other
])

-- four cells as a buffer
abbrev pub words_of : (ℕ → ℕ) → ProcBuffer
words_of f = of_words (f 0) (f 1) (f 2) (f 3)

-- The shared members as they are in the object.
pub record Shows (s : Ring) (o : RpiBase) : Type 0 where
  pub next : s.curqidx ≡ o.curqidx
  pub out : s.curqoutidx ≡ o.curqoutidx
  pub slots :
      (k : ℕ) → k < qin_size → get_elem? o.from_slave_buffer_in k ≡ some (words_of (s.cells k))

-- the source of a call
abbrev pub source_of : ℕ → ℕ → ℕ → ℕ → ℕ → ℕ
source_of a b c d i = if i == 0 then a else if i == 1 then b else if i == 2 then c else d

module _ (a b c d : ℕ) (s : Ring) where
  abbrev new : ℕ → ℕ
  new = source_of a b c d

  -- the slot of the call after `i` stores
  abbrev slot_at_store : ℕ → ℕ → ℕ
  slot_at_store zero = s.cells s.curqidx
  slot_at_store (suc i) = update (slot_at_store i) i (new i)

  abbrev after_stores : ℕ → Ring
  after_stores i = record s {
    cells = update s.cells s.curqidx (slot_at_store i);
    sender = storing i;
    begun = s.begun + 1;
    source = update s.source (s.begun + 1) new;
  }

  abbrev after_call : Ring
  after_call = record (after_stores 4) {
    curqoutidx = s.curqidx;
    curqidx = advance s.curqidx;
    sender = ready;
  }

  one_store :
      (i : ℕ)
      → i < 4
      → Reach 4 s (after_stores i)
      → Reach 4 s (record (after_stores (suc i)) { sender = storing (i + 1) })
  one_store i lt r =
      subst (λ f. Reach 4 s (record (after_stores i) { cells = f; sender = storing (i + 1) }))
        stored (later r (stores i refl lt))
    where
      q : ℕ
      q = s.curqidx

      cells : ℕ → ℕ → ℕ
      cells = update s.cells q (slot_at_store i)

      value : ℕ
      value = update s.source (s.begun + 1) new (s.begun + 1) i

      stored : update cells q (update (cells q) i value) ≡ update s.cells q (slot_at_store (suc i))
      stored =
          ap₂ (λ f v. update cells q (update f i v)) (update_self s.cells q (slot_at_store i))
            (ap (λ f. f i) (update_self s.source (s.begun + 1) new))
          ∙ update-update s.cells q (slot_at_store i) (slot_at_store (suc i))

  call_alone : s.sender ≡ ready → Reach 4 s after_call
  call_alone e = later (later four (publishes refl)) (moves_on refl)
    where
      none_stored : Reach 4 s (after_stores 0)
      none_stored =
          subst (λ f. Reach 4 s (record (after_stores 0) { cells = f }))
            (sym (update-same s.cells s.curqidx)) (later start (calls new e))

      four : Reach 4 s (after_stores 4)
      four = one_store 3 (omega arith) (
          one_store 2 (omega arith)
            (one_store 1 (omega arith) (one_store 0 (omega arith) none_stored)))

  after_call-Shows :
      (o : RpiBase) → IsValid o → Shows s o → Shows after_call (published o (of_words a b c d))
  after_call-Shows o v h = record {
    next = ground (arith, h.next, v.next_in);
    out = h.next;
    slots = λ k lt. elim (ℕ_discrete s.curqidx k) [
      | yes here ↦
          subst
            (λ q.
              get_elem? (set o.from_slave_buffer_in o.curqidx (of_words a b c d)) q
              ≡ some (words_of (update s.cells s.curqidx (slot_at_store 4) q)))
            here
            (ap (get_elem? (set o.from_slave_buffer_in o.curqidx (of_words a b c d))) h.next
              ∙ get_elem?-set_self o.from_slave_buffer_in o.curqidx (of_words a b c d)
                  (omega (arith, v.next_in, v.slots))
              ∙ ap (λ f. some (words_of f)) (sym (update_self s.cells s.curqidx (slot_at_store 4))))
      | no other ↦
          get_elem?-set_ne o.from_slave_buffer_in o.curqidx k (of_words a b c d)
            (λ q. other (h.next ∙ q))
          ∙ h.slots k lt
          ∙ ap (λ f. some (words_of f))
              (sym (update-ne s.cells s.curqidx (slot_at_store 4) k other))
    ];
  }

-- the task once it has copied the four cells
abbrev fetched : Ring → ℕ → Ring
fetched s i = record s {
  task = fetching s.curqoutidx (latest s) i;
  buffer_in = λ j. if ltb j i then s.cells s.curqoutidx j else s.buffer_in j;
}

one_copy : (s : Ring) (i : ℕ) → i < 4 → Reach 4 s (fetched s i) → Reach 4 s (fetched s (i + 1))
one_copy s i lt r =
    subst
      (λ f.
        Reach 4 s
          (record (fetched s i) { buffer_in = f; task = fetching s.curqoutidx (latest s) (i + 1) }))
      (fun_ext (λ j. ground arith)) (later r (copies s.curqoutidx (latest s) i refl lt))

fetch_alone : (s : Ring) → s.task ≡ waiting → Reach 4 s (fetched s 4)
fetch_alone s e = one_copy s 3 (omega arith) (
    one_copy s 2 (omega arith) (
      one_copy s 1 (omega arith) (
        one_copy s 0 (omega arith) (
          subst (λ f. Reach 4 s (record (fetched s 0) { buffer_in = f }))
            (fun_ext (λ j. ground arith)) (later start (reads_index e))))))

-- On a valid object that a state of the steps shows, with no access under way, a call of
-- `send_output` with four words gives the object that the steps of the sender alone lead to, and
-- the copy of a slot in `SPIWriteProcRamFifo` gives the `BufferIn` that the steps of the task alone
-- lead to.
pub Reach-send_output :
    {W : Type 0} (bus : Bus W) (w : W) (a b c d : ℕ) (s : Ring) (o : RpiBase)
    → IsValid o
    → Shows s o
    → s.sender ≡ ready
    → s.task ≡ waiting
    → ((t : Ring) × (o' : RpiBase) × Reach 4 s t
        × (t.sender ≡ ready)
        × (t.task ≡ waiting)
        × (send_output (a ∷ b ∷ c ∷ d ∷ []) o ≡ done tt o')
        × Shows t o')
      × ((t : Ring) × Reach 4 s t
          × (t.sender ≡ ready)
          × (t.task ≡ fetching s.curqoutidx (latest s) 4)
          × (fetch bus (record { base = o; world = w })
              ≡ done tt
                  (record { base = record o { buffer_in = words_of t.buffer_in }; world = w })))
Reach-send_output bus w a b c d s o v h ready_to_call no_task =
    let slot : get_elem? o.from_slave_buffer_in o.curqoutidx
        ≡ some (words_of (s.cells s.curqoutidx)) =
      ap (get_elem? o.from_slave_buffer_in) (sym h.out)
      ∙ h.slots s.curqoutidx (omega (arith, v.out_in, h.out)) in
    (
      (
        after_call a b c d s,
        published o (of_words a b c d),
        call_alone a b c d s ready_to_call,
        refl,
        no_task,
        send_output-published a b c d [] o v,
        after_call-Shows a b c d s o v h,
      ),
      (fetched s 4, fetch_alone s no_task, ready_to_call, refl, ground (arith, slot)),
    )
