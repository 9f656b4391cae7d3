-- ===== src/Receive/Torn.antt =====
-- receive_input does not look whether the counter is odd: a round between the two increments of the
-- writer is accepted too, while the buffer is being stored.
use rpi_rt_ether_cat_slave_i.Common.{ℕ, zero, suc, ◌≡◌, refl, [], ◌∷◌, some, arith}
use rpi_rt_ether_cat_slave_i.Receive.{
  idle, storing, Shared, Move, stay, begin, store, put, receive_input,
}
use rpi_rt_ether_cat_slave_i.Receive.Consistency.{IsConsistent}

module _ (a b c d : ℕ) where
  -- a buffer of two cells, and the one that follows it
  abbrev pub old : ℕ → ℕ
  old zero = a
  old (suc i) = b

  abbrev pub new : ℕ → ℕ
  new zero = c
  new (suc i) = d

  abbrev pub at_rest : Shared
  at_rest = record { cells = old; ticks = 0; pc = idle; incoming = old; stored = old }

  abbrev pub begun : Shared
  begun = record at_rest { ticks = 1; pc = storing 0; incoming = new }

  abbrev pub half_stored : Shared
  half_stored = record begun { cells = put old 0 c; pc = storing 1 }

  -- The writer stores the first cell and is then held up.
  abbrev pub held_up : ℕ → Shared
  held_up zero = at_rest
  held_up (suc zero) = begun
  held_up (suc (suc t)) = half_stored

  held_up-moves : (t : ℕ) → Move 2 (held_up t) (held_up (suc t))
  held_up-moves zero = begin new refl
  held_up-moves (suc zero) = store 0 refl (omega arith)
  held_up-moves (suc (suc t)) = stay

  -- For any two buffers of two cells there is a run of the writer, from a consistent start that
  -- holds the old one, in which `receive_input` returns in its first round the first cell of the
  -- new one and the second cell of the old one.
  pub receive_input-torn :
      (mem : ℕ → Shared) × ((t : ℕ) → Move 2 (mem t) (mem (suc t)))
      × IsConsistent 2 (mem 0) (mem 0).pc
      × ((mem 0).stored ≡ old)
      × ((mem 2).incoming ≡ new)
      × (receive_input 1 2 mem 2 ≡ some (2, c ∷ b ∷ []))
  unfolding receive_input
  receive_input-torn = (held_up, held_up-moves, (refl, λ j lt. refl), refl, refl, refl)
