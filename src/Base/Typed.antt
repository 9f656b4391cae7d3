-- ===== src/Base/Typed.antt =====
-- The types of the members of rpi_base, and the stores that keep to them.
use rpi_rt_ether_cat_slave_i.Common.{
  ℕ, zero, suc, ◌+◌, ◌*◌, ◌/◌, ◌%◌, ◌^◌, ◌≡◌, subst, ◌<◌, ◌≤◌, done, >>=-done, ◌∙◌, sym, List, [],
  ◌∷◌, some, arith, refl, length, get_elem?, set, length-set, get_elem?-set_self, get_elem?-set_ne,
}
use native.Mathlib.Decide.{ℕ_discrete}
use rpi_rt_ether_cat_slave_i.Word.{ProcBuffer, le_bytes, overwrite, set_ul}
use rpi_rt_ether_cat_slave_i.Word.Laws.{set_ul-all}
use rpi_rt_ether_cat_slave_i.Base.{RpiBase, reset_words, store_ul}
use rpi_rt_ether_cat_slave_i.Base.Queue.{IsValid, Words, buffer_of, published, published-IsValid}

-- every cell is an `unsigned char`
pub record IsBuffer (p : ProcBuffer) : Type 0 where
  pub sized : length p.bytes ≡ 32
  pub bytes : (i b : ℕ) → get_elem? p.bytes i ≡ some b → b < 256

-- Every member that the exchange uses has a value of its type, and the indices are in the ring.
pub record IsTyped (b : RpiBase) : Type 0 where
  pub valid : IsValid b
  pub slots : (i : ℕ) (p : ProcBuffer) → get_elem? b.from_slave_buffer_in i ≡ some p → IsBuffer p
  pub out : IsBuffer b.buffer_out
  pub copied : IsBuffer b.buffer_out_eth_to_slave
  pub inward : IsBuffer b.buffer_in
  pub counter : b.atomiccounter < 2 ^ 32
  pub times : (b.count < 2 ^ 64) × (b.laststart < 2 ^ 64) × (b.lastruntime < 2 ^ 64)

pub set-IsBuffer :
    (p : ProcBuffer) (i b : ℕ)
    → IsBuffer p
    → b < 256
    → IsBuffer (record { bytes = set p.bytes i b })
set-IsBuffer p i b h lt = record {
  sized = length-set p.bytes i b ∙ h.sized;
  bytes = λ j c e. stored p.bytes i j c h.bytes e;
}
  where
    stored :
        (xs : List ℕ) (i j c : ℕ)
        → ((i b : ℕ) → get_elem? xs i ≡ some b → b < 256)
        → get_elem? (set xs i b) j ≡ some c
        → c < 256
    stored [] i j c all e = all j c e
    stored (x ∷ xs) zero zero c all e = ground (arith, lt)
    stored (x ∷ xs) zero (suc j) c all e = all (suc j) c e
    stored (x ∷ xs) (suc i) zero c all e = all zero c e
    stored (x ∷ xs) (suc i) (suc j) c all e = stored xs i j c (λ k d. all (suc k) d) e

overwrite-IsBuffer :
    (n at v : ℕ) (p : ProcBuffer)
    → IsBuffer p
    → IsBuffer (record { bytes = overwrite p.bytes at (le_bytes n v) })
overwrite-IsBuffer zero at v p h = h
overwrite-IsBuffer (suc n) at v p h =
    overwrite-IsBuffer n (at + 1) (v / 256) (record { bytes = set p.bytes at (v % 256) })
      (set-IsBuffer p at (v % 256) h (omega arith))

set_ul-IsBuffer : (p : ProcBuffer) (i v : ℕ) → IsBuffer p → IsBuffer (set_ul p i v)
set_ul-IsBuffer p i v h = overwrite-IsBuffer 8 (8 * i) v p h

-- The reset stays in the four words.
pub reset_words-IsBuffer :
    (n i : ℕ) (p : ProcBuffer)
    → n + i ≤ 4
    → IsBuffer p
    → (q : ProcBuffer) × (reset_words n i p ≡ done tt q) × IsBuffer q
unfolding reset_words
reset_words-IsBuffer zero i p le h = (p, refl, h)
reset_words-IsBuffer (suc n) i p le h =
    let stored : store_ul i 0 p ≡ done tt (set_ul p i 0) = ground (arith, le) in
    let (q, e, h') =
      reset_words-IsBuffer n (i + 1) (set_ul p i 0) (omega arith) (set_ul-IsBuffer p i 0 h) in
    (q, >>=-done (store_ul i 0) (λ u. reset_words n (i + 1)) p stored ∙ e, h')

-- a change of the buffers and the counter, with the ring as it was
pub with_buffers :
    (b : RpiBase) (out copied inward : ProcBuffer) (counter : ℕ)
    → IsTyped b
    → IsBuffer out
    → IsBuffer copied
    → IsBuffer inward
    → counter < 2 ^ 32
    → IsTyped (record b {
      buffer_out = out;
      buffer_out_eth_to_slave = copied;
      buffer_in = inward;
      atomiccounter = counter;
    })
with_buffers b out copied inward counter h o c i lt = record {
  valid = record {
    next_in = h.valid.next_in;
    out_in = h.valid.out_in;
    slots = h.valid.slots;
    sized = h.valid.sized;
    out_sized = o.sized;
  };
  slots = h.slots;
  out = o;
  copied = c;
  inward = i;
  counter = lt;
  times = h.times;
}

pub of_words-IsBuffer : (p : ProcBuffer) (w : Words) → IsBuffer p → IsBuffer (buffer_of w)
of_words-IsBuffer p w h = subst IsBuffer (set_ul-all p w.a w.b w.c w.d h.sized) (
    set_ul-IsBuffer _ 3 w.d
      (set_ul-IsBuffer _ 2 w.c (set_ul-IsBuffer _ 1 w.b (set_ul-IsBuffer p 0 w.a h))))

pub published-IsTyped :
    (b : RpiBase) (p : ProcBuffer) → IsBuffer p → IsTyped b → IsTyped (published b p)
published-IsTyped b p new h = record {
  valid = published-IsValid b p new.sized h.valid;
  slots = λ i q e. elim (ℕ_discrete i b.curqidx) [
    | yes here ↦
        let same : get_elem? (set b.from_slave_buffer_in b.curqidx p) i ≡ some p = rw here (
          get_elem?-set_self b.from_slave_buffer_in b.curqidx p
            (omega (arith, h.valid.next_in, h.valid.slots))) in
        let q_is : p ≡ q = ground (arith, e, same) in subst IsBuffer q_is new
    | no other ↦
        h.slots i q
          (sym (get_elem?-set_ne b.from_slave_buffer_in b.curqidx i p (λ z. other (sym z))) ∙ e)
  ];
  out = h.out;
  copied = h.copied;
  inward = h.inward;
  counter = h.counter;
  times = h.times;
}

-- a change of the time keeping
pub with_times :
    (b : RpiBase) (count laststart lastruntime : ℕ)
    → IsTyped b
    → count < 2 ^ 64
    → laststart < 2 ^ 64
    → lastruntime < 2 ^ 64
    → IsTyped (record b { count = count; laststart = laststart; lastruntime = lastruntime })
with_times b count laststart lastruntime h c s r = record {
  valid = record {
    next_in = h.valid.next_in;
    out_in = h.valid.out_in;
    slots = h.valid.slots;
    sized = h.valid.sized;
    out_sized = h.valid.out_sized;
  };
  slots = h.slots;
  out = h.out;
  copied = h.copied;
  inward = h.inward;
  counter = h.counter;
  times = (c, s, r);
}
