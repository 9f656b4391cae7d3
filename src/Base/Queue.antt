-- ===== src/Base/Queue.antt =====
-- send_output: the ring of buffers between the application and the EtherCAT task.
use rpi_rt_ether_cat_slave_i.Common.{
  ℕ, zero, suc, ◌+◌, ◌%◌, ◌≡◌, ◌≢◌, ◌≤◌, ◌<◌, refl, List, [], ◌∷◌, ◌++◌, done, arith, length,
  get_elem?, set, some, length-set, get_elem?-set_self, get_elem?-set_ne, M, pure, ◌>>◌, >>=-done,
  ap, sym, ◌-◌, ◌∙◌,
}
use native.Mathlib.Decide.{ℕ_discrete}
use rpi_rt_ether_cat_slave_i.Word.{ProcBuffer, le_bytes, set_ul}
use rpi_rt_ether_cat_slave_i.Word.Laws.{set_ul-all}
use rpi_rt_ether_cat_slave_i.Base.{RpiBase, qin_size, send_output}

-- The indices are in range, and the ring and the output buffer have their sizes.
pub record IsValid (b : RpiBase) : Type 0 where
  pub next_in : b.curqidx < qin_size
  pub out_in : b.curqoutidx < qin_size
  pub slots : length b.from_slave_buffer_in ≡ qin_size
  pub sized :
      (i : ℕ) (p : ProcBuffer) → get_elem? b.from_slave_buffer_in i ≡ some p → length p.bytes ≡ 32
  pub out_sized : length b.buffer_out.bytes ≡ 32

-- the buffer that holds four words
abbrev pub of_words : ℕ → ℕ → ℕ → ℕ → ProcBuffer
of_words a b c d = record {
  bytes = le_bytes 8 a ++ (le_bytes 8 b ++ (le_bytes 8 c ++ le_bytes 8 d));
}

-- the object once a buffer has been put in the slot in turn and published
abbrev pub published : RpiBase → ProcBuffer → RpiBase
published s p = record s {
  from_slave_buffer_in = set s.from_slave_buffer_in s.curqidx p;
  curqoutidx = s.curqidx;
  curqidx = (s.curqidx + 1) % qin_size;
}

pub slot_at :
    {A : Type 0} (xs : List A) (i : ℕ) → i < length xs → (x : A) × (get_elem? xs i ≡ some x)
slot_at [] i h = elim h [ ]
slot_at (x ∷ xs) zero h = (x, refl)
slot_at (x ∷ xs) (suc i) h = slot_at xs i (omega arith)

set-set : {A : Type 0} (xs : List A) (i : ℕ) (x y : A) → set (set xs i x) i y ≡ set xs i y
set-set [] i x y = refl
set-set (z ∷ xs) zero x y = refl
set-set (z ∷ xs) (suc i) x y = ap (λ l. z ∷ l) (set-set xs i x y)

-- On a valid object, a call with at least four words returns: the first four are, lowest byte
-- first, in the slot whose turn it was, that slot is the one published, and the turn is with the
-- next slot of the ring.
pub send_output-published :
    (a b c d : ℕ) (rest : List ℕ) (s : RpiBase)
    → IsValid s
    → send_output (a ∷ b ∷ c ∷ d ∷ rest) s ≡ done tt (published s (of_words a b c d))
unfolding send_output
send_output-published a b c d rest s v =
    let (p, here) = slot_at s.from_slave_buffer_in s.curqidx (omega (arith, v.next_in, v.slots)) in
    let xs = s.from_slave_buffer_in in
    let i = s.curqidx in
    ground (
      arith,
      here,
      v.next_in,
      get_elem?-set_self xs i (set_ul p 0 a),
      set-set xs i (set_ul p 0 a) (set_ul (set_ul p 0 a) 1 b),
      get_elem?-set_self xs i (set_ul (set_ul p 0 a) 1 b),
      set-set xs i (set_ul (set_ul p 0 a) 1 b) (set_ul (set_ul (set_ul p 0 a) 1 b) 2 c),
      get_elem?-set_self xs i (set_ul (set_ul (set_ul p 0 a) 1 b) 2 c),
      set-set xs i (set_ul (set_ul (set_ul p 0 a) 1 b) 2 c)
          (set_ul (set_ul (set_ul (set_ul p 0 a) 1 b) 2 c) 3 d),
      set_ul-all p a b c d (v.sized i p here),
    )

-- The invariant is kept.
pub published-IsValid :
    (s : RpiBase) (p : ProcBuffer) → length p.bytes ≡ 32 → IsValid s → IsValid (published s p)
published-IsValid s p size v = record {
  next_in = omega arith;
  out_in = v.next_in;
  slots = length-set s.from_slave_buffer_in s.curqidx p ∙ v.slots;
  sized = λ i q e. elim (ℕ_discrete i s.curqidx) [
    | yes here ↦
        let same : get_elem? (set s.from_slave_buffer_in s.curqidx p) i ≡ some p = rw here (
          get_elem?-set_self s.from_slave_buffer_in s.curqidx p
            (omega (arith, v.next_in, v.slots))) in
        ground (arith, e, same, size)
    | no other ↦
        v.sized i q
          (sym (get_elem?-set_ne s.from_slave_buffer_in s.curqidx i p (λ h. other (sym h))) ∙ e)
  ];
  out_sized = v.out_sized;
}

-- The slot that was published holds the buffer, and no other slot has changed.
pub published-slots :
    (s : RpiBase) (p : ProcBuffer)
    → IsValid s
    → (get_elem? (published s p).from_slave_buffer_in (published s p).curqoutidx ≡ some p)
      × ((i : ℕ)
          → i ≢ s.curqidx
          → get_elem? (published s p).from_slave_buffer_in i ≡ get_elem? s.from_slave_buffer_in i)
published-slots s p v = (
  get_elem?-set_self s.from_slave_buffer_in s.curqidx p (omega (arith, v.next_in, v.slots)),
  λ i ne. get_elem?-set_ne s.from_slave_buffer_in s.curqidx i p (λ e. ne (omega arith)),
)

-- four words, the argument of one call
abbrev pub Words : Type 0
Words = record { a : ℕ; b : ℕ; c : ℕ; d : ℕ }

abbrev pub buffer_of : Words → ProcBuffer
buffer_of w = of_words w.a w.b w.c w.d

-- calls of `send_output` in a row
unfoldable pub send_each : List Words → M RpiBase (Unit {0})
send_each [] = pure tt
send_each (w ∷ ws) = do send_output (w.a ∷ w.b ∷ w.c ∷ w.d ∷ []); send_each ws

abbrev pub published_all : List Words → RpiBase → RpiBase
published_all [] s = s
published_all (w ∷ ws) s = published_all ws (published s (buffer_of w))

-- On a valid object, any sequence of calls of `send_output` returns, has published its buffers in
-- turn, and leaves the object valid.
pub send_each-published :
    (ws : List Words) (s : RpiBase)
    → IsValid s
    → (send_each ws s ≡ done tt (published_all ws s)) × IsValid (published_all ws s)
unfolding send_each
send_each-published [] s v = (refl, v)
send_each-published (w ∷ ws) s v =
    let first = send_output-published w.a w.b w.c w.d [] s v in
    let (rest, valid) =
      send_each-published ws (published s (buffer_of w))
        (published-IsValid s (buffer_of w) refl v) in
    (>>=-done (send_output (w.a ∷ w.b ∷ w.c ∷ w.d ∷ [])) (λ _. send_each ws) s first ∙ rest, valid)

-- A slot is not written before the ring has come round to it.
slot_safe :
    (ws : List Words) (j : ℕ) (s : RpiBase)
    → IsValid s
    → j < qin_size
    → length ws ≤ (j + qin_size - s.curqidx) % qin_size
    → get_elem? (published_all ws s).from_slave_buffer_in j ≡ get_elem? s.from_slave_buffer_in j
slot_safe [] j s v lt h = refl
slot_safe (w ∷ ws) j s v lt h =
    let p = buffer_of w in
    slot_safe ws j (published s p) (published-IsValid s p refl v) lt (omega (arith, v.next_in))
    ∙ get_elem?-set_ne s.from_slave_buffer_in s.curqidx j p (λ e. omega (arith, v.next_in))

-- On a valid object, at most nine more calls of `send_output` after one return and leave the slot
-- that the one published with its buffer.
pub send_each-keeps_slot :
    (w : Words) (ws : List Words) (s : RpiBase)
    → IsValid s
    → length ws ≤ 9
    → (t : RpiBase) × (send_each (w ∷ ws) s ≡ done tt t)
      × (get_elem? t.from_slave_buffer_in s.curqidx ≡ some (buffer_of w))
send_each-keeps_slot w ws s v few =
    let p = buffer_of w in
    let v' = published-IsValid s p refl v in
    (
      published_all (w ∷ ws) s,
      (send_each-published (w ∷ ws) s v).0,
      slot_safe ws s.curqidx (published s p) v' v.next_in (omega (arith, v.next_in))
          ∙ (published-slots s p v).0,
    )
