-- ===== src/Receive/Consistency.antt =====
-- When receive_input returns a buffer that was stored as a whole.
use rpi_rt_ether_cat_slave_i.Common.{
  ℕ, zero, suc, ◌+◌, ◌*◌, ◌%◌, ◌^◌, ◌<◌, ◌≤◌, ◌≡◌, refl, ◌∙◌, sym, ap, ap₂, List, [], ◌∷◌, Option,
  some, arith, ◌==◌, Bool-cases, ◌⊎◌, inl, inr,
}
use mathlib.Core.Path.{subst}
use native.Mathlib.Decide.{ℕ_discrete}
use rpi_rt_ether_cat_slave_i.Receive.{
  WriterPc, idle, storing, Shared, counter, Move, stay, begin, store, finish, Runs, none_yet,
  then_moves, copy, receive_input,
}

-- the first `n` cells from the i-th on
abbrev pub cells_from : (ℕ → ℕ) → ℕ → ℕ → List ℕ
cells_from f zero i = []
cells_from f (suc n) i = f i ∷ cells_from f n (i + 1)

cells_from-ext :
    (f g : ℕ → ℕ) (n i : ℕ)
    → ((j : ℕ) → j < i + n → f j ≡ g j)
    → cells_from f n i ≡ cells_from g n i
cells_from-ext f g zero i h = refl
cells_from-ext f g (suc n) i h =
    ap₂ ◌∷◌ (h i (omega arith)) (cells_from-ext f g n (i + 1) (λ j lt. h j (omega arith)))

-- Outside the two increments their number is even and the cells are those stored last; between them
-- it is odd, and the cells below the i-th are the new ones.
abbrev pub IsConsistent : ℕ → Shared → WriterPc → Type 0
IsConsistent n s idle = (s.ticks % 2 ≡ 0) × ((j : ℕ) → j < n → s.cells j ≡ s.stored j)
IsConsistent n s (storing i) =
    (s.ticks % 2 ≡ 1) × (i ≤ n) × ((j : ℕ) → j < i → s.cells j ≡ s.incoming j)

Move-IsConsistent :
    (n : ℕ) {s t : Shared} → Move n s t → IsConsistent n s s.pc → IsConsistent n t t.pc
Move-IsConsistent n stay h = h
Move-IsConsistent n {s} (begin new e) h =
    let h' : IsConsistent n s idle = subst (IsConsistent n s) e h in
    (omega arith, omega arith, λ j lt. absurd (omega arith))
Move-IsConsistent n {s} (store i e lt) h =
    let h' : IsConsistent n s (storing i) = subst (IsConsistent n s) e h in
    (h'.0, omega arith, λ j below. ground (arith, h'.2 j))
Move-IsConsistent n {s} (finish e) h =
    let h' : IsConsistent n s (storing n) = subst (IsConsistent n s) e h in
    (omega (arith, h'.0), h'.2)

Move-ticks : (n : ℕ) {s t : Shared} → Move n s t → s.ticks ≤ t.ticks
Move-ticks n stay = omega arith
Move-ticks n (begin new e) = omega arith
Move-ticks n (store i e lt) = omega arith
Move-ticks n (finish e) = omega arith

-- A writer that is idle and makes no increment stores nothing.
Move-quiet :
    (n : ℕ) {s t : Shared}
    → Move n s t
    → s.pc ≡ idle
    → t.ticks ≡ s.ticks
    → (t.pc ≡ idle) × (t.cells ≡ s.cells)
Move-quiet n stay p e = (p, refl)
Move-quiet n (begin new q) p e = absurd (omega arith)
Move-quiet n (store i q lt) p e = absurd (ground arith)
Move-quiet n (finish q) p e = absurd (omega arith)

Runs-IsConsistent :
    (n : ℕ) {s t : Shared} → Runs n s t → IsConsistent n s s.pc → IsConsistent n t t.pc
Runs-IsConsistent n none_yet h = h
Runs-IsConsistent n (then_moves r m) h = Move-IsConsistent n m (Runs-IsConsistent n r h)

Runs-ticks : (n : ℕ) {s t : Shared} → Runs n s t → s.ticks ≤ t.ticks
Runs-ticks n none_yet = omega arith
Runs-ticks n (then_moves r m) = omega (arith, Runs-ticks n r, Move-ticks n m)

Runs-quiet :
    (n : ℕ) {s t : Shared}
    → Runs n s t
    → s.pc ≡ idle
    → t.ticks ≡ s.ticks
    → (t.pc ≡ idle) × (t.cells ≡ s.cells)
Runs-quiet n none_yet p e = (p, refl)
Runs-quiet n (then_moves r m) p e =
    let before = Runs-ticks n r in
    let last = Move-ticks n m in
    let (p1, c1) = Runs-quiet n r p (omega arith) in
    let (p2, c2) = Move-quiet n m p1 (omega arith) in (p2, c2 ∙ c1)

idle_of_even :
    (n : ℕ) (s : Shared) (pc : WriterPc) → IsConsistent n s pc → s.ticks % 2 ≡ 0 → pc ≡ idle
idle_of_even n s idle h even = refl
idle_of_even n s (storing i) h even = absurd (omega (arith, h.0))

pub copy-cells_from :
    (mem : ℕ → Shared) (f : ℕ → ℕ) (k i t : ℕ)
    → ((u : ℕ) → t ≤ u → u < t + k → (mem u).cells ≡ f)
    → copy mem k i t ≡ cells_from f k i
unfolding copy
copy-cells_from mem f zero i t h = refl
copy-cells_from mem f (suc k) i t h =
    ap₂ ◌∷◌ (ap (λ g. g i) (h t (omega arith) (omega arith)))
      (copy-cells_from mem f k (i + 1) (t + 1) (λ u lo hi. h u (omega arith) (omega arith)))

-- A run of the writer from a consistent memory.
module _ (n : ℕ) (mem : ℕ → Shared) (moves : (t : ℕ) → Runs n (mem t) (mem (suc t)))
    (start : IsConsistent n (mem 0) (mem 0).pc) where
  consistent : (t : ℕ) → IsConsistent n (mem t) (mem t).pc
  consistent zero = start
  consistent (suc t) = Runs-IsConsistent n (moves t) (consistent t)

  ticks_mono : (t u : ℕ) → t ≤ u → (mem t).ticks ≤ (mem u).ticks
  ticks_mono t zero h = let e : t ≡ 0 = omega arith in rw e (omega arith)
  ticks_mono t (suc u) h = elim (ℕ_discrete t (suc u)) [
    | yes e ↦ rw e (omega arith)
    | no ne ↦ omega (arith, ticks_mono t u (omega arith), Runs-ticks n (moves u))
  ]

  quiet :
      (t u : ℕ)
      → t ≤ u
      → (mem t).ticks % 2 ≡ 0
      → (mem u).ticks ≡ (mem t).ticks
      → ((mem u).pc ≡ idle) × ((mem u).cells ≡ (mem t).cells)
  quiet t zero h even same =
      let e : 0 ≡ t = omega arith in
      let even_here = subst (λ k. (mem k).ticks % 2 ≡ 0) (sym e) even in
      (idle_of_even n (mem 0) (mem 0).pc start even_here, ap (λ k. (mem k).cells) e)
  quiet t (suc u) h even same = elim (ℕ_discrete (suc u) t) [
    | yes e ↦ (
      idle_of_even n (mem (suc u)) (mem (suc u)).pc (consistent (suc u))
          (subst (λ k. (mem k).ticks % 2 ≡ 0) (sym e) even),
      ap (λ k. (mem k).cells) e,
    )
    | no ne ↦
        let before = ticks_mono t u (omega arith) in
        let step = Runs-ticks n (moves u) in
        let (p, c) = quiet t u (omega arith) even (omega arith) in
        let (p', c') = Runs-quiet n (moves u) p (omega arith) in (p', c' ∙ c)
  ]

  round_whole :
      (t : ℕ)
      → (mem t).ticks % 2 ≡ 0
      → counter (mem t) ≡ counter (mem (t + 1 + n))
      → (mem (t + 1 + n)).ticks < (mem t).ticks + 2 ^ 32
      → copy mem n 0 (t + 1) ≡ cells_from (mem t).stored n 0
  round_whole t even same few =
      copy-cells_from mem (mem t).cells n 0 (t + 1) (λ u lo hi.
        (quiet t u (omega arith) even
          (omega (arith, ticks_mono t u (omega arith), ticks_mono u (t + 1 + n) (omega arith)))).1)
      ∙ cells_from-ext (mem t).cells (mem t).stored n 0 (λ j lt. rests.1 j (omega arith))
    where
      rests : IsConsistent n (mem t) idle
      rests =
          subst (IsConsistent n (mem t)) (idle_of_even n (mem t) (mem t).pc (consistent t) even)
            (consistent t)

  -- If the memory changes from a consistent start by the accesses of the writer, any number of
  -- them between two accesses of the reader, the counter was even when the accepted round of
  -- `receive_input` began, and fewer than 2 ^ 32 increments fell into that round, the buffer
  -- returned is the one that was stored last when the round began.
  pub receive_input-whole :
      (fuel t t0 : ℕ) (out : List ℕ)
      → receive_input fuel n mem t ≡ some (t0, out)
      → (mem t0).ticks % 2 ≡ 0
      → (mem (t0 + 1 + n)).ticks < (mem t0).ticks + 2 ^ 32
      → out ≡ cells_from (mem t0).stored n 0
  unfolding receive_input
  receive_input-whole zero t t0 out e even few = cc
  receive_input-whole (suc fuel) t t0 out e even few =
      elim (Bool-cases (counter (mem t) == counter (mem (t + 1 + n)))) [
        | inl same ↦
            let accepted : ◌≡◌ {A = Option (ℕ × List ℕ)} (some (t, copy mem n 0 (t + 1)))
                (some (t0, out)) =
              rw same at e in
            let te : t ≡ t0 = cc in
            let oe : copy mem n 0 (t + 1) ≡ out = cc in
            let whole =
              round_whole t (subst (λ k. (mem k).ticks % 2 ≡ 0) (sym te) even) (ground arith)
                (subst (λ k. (mem (k + 1 + n)).ticks < (mem k).ticks + 2 ^ 32) (sym te) few) in
            sym oe ∙ whole ∙ ap (λ k. cells_from (mem k).stored n 0) te
        | inr other ↦ receive_input-whole fuel (t + n + 2) t0 out (rw other at e) even few
      ]

  -- If the memory changes from a consistent start by the accesses of the writer, any number of
  -- them between two accesses of the reader, and during as many rounds of the loop of
  -- `receive_input` as it has fuel, at most 2 ^ 32, the writer makes fewer increments than there
  -- are rounds, then `receive_input` returns, from one of these rounds, in which the writer has
  -- made no increment; and either the writer stood between its two increments, or the buffer
  -- returned is the one that was stored last when that round began.
  pub receive_input-returns :
      (fuel t : ℕ)
      → fuel ≤ 2 ^ 32
      → (mem (t + fuel * (n + 2))).ticks < (mem t).ticks + fuel
      → (t0 : ℕ) × (out : List ℕ) × (receive_input fuel n mem t ≡ some (t0, out))
        × (t ≤ t0)
        × (t0 + n + 2 ≤ t + fuel * (n + 2))
        × ((mem (t0 + 1 + n)).ticks ≡ (mem t0).ticks)
        × (((mem t0).ticks % 2 ≡ 1) ⊎ (out ≡ cells_from (mem t0).stored n 0))
  unfolding receive_input
  receive_input-returns zero t most few =
      let e : t + 0 * (n + 2) ≡ t = omega arith in absurd (omega (arith, ap (λ u. (mem u).ticks) e))
  receive_input-returns (suc fuel) t most few =
      let e : t + suc fuel * (n + 2) ≡ t + n + 2 + fuel * (n + 2) = omega arith in
      let same_end = ap (λ u. (mem u).ticks) e in
      let grown = ticks_mono t (t + 1 + n) (omega arith) in
      let after = ticks_mono (t + 1 + n) (t + n + 2) (omega arith) in
      let rest = ticks_mono (t + n + 2) (t + n + 2 + fuel * (n + 2)) (omega arith) in
      elim (Bool-cases (counter (mem t) == counter (mem (t + 1 + n)))) [
        | inl same ↦
            let still : (mem (t + 1 + n)).ticks ≡ (mem t).ticks = ground arith in
            (
              t,
              copy mem n 0 (t + 1),
              rw same refl,
              omega arith,
              omega arith,
              still,
              elim (ℕ_discrete ((mem t).ticks % 2) 0) [
                | yes even ↦ inr (round_whole t even (ground arith) (omega arith))
                | no odd ↦ inl (omega arith)
              ],
            )
        | inr other ↦
            let changed : (mem t).ticks < (mem (t + 1 + n)).ticks = ground arith in
            let (t0, out, e', first, last, still, whole) =
              receive_input-returns fuel (t + n + 2) (omega arith) (omega arith) in
            (t0, out, rw other e', omega arith, omega arith, still, whole)
      ]
