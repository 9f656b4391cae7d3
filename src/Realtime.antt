-- ===== src/Realtime.antt =====
-- rpi_base/src/rpi_base.cpp: readfilebuf, strip and isrealtime, over the calls that they make of the
-- system.
pub mod Lock
mod Tests
use rpi_rt_ether_cat_slave_i.Common.{
  ℕ, zero, suc, ◌+◌, ◌-◌, Bool, true, false, Option, none, some, List, [], ◌∷◌, done, fault, spins,
  M, pure, ◌>>=◌, if◌then◌else◌, ltb, ◌==◌, get_elem?, set, length, replicate,
}
use rpi_rt_ether_cat_slave_i.Common.Int.{ℤ, neg}
use rpi_rt_ether_cat_slave_i.Word.{overwrite}
use rpi_rt_ether_cat_slave_i.ThreadName.{c_string}

-- What the code calls: `fopen` of the path, `read` of at most so many bytes, which gives none on an
-- error, `fclose`, and `mlockall(MCL_CURRENT | MCL_FUTURE)`.
pub record Files (W : Type 0) : Type 0 where
  pub fopen : W → Bool × W
  pub read : ℕ → W → Option (List ℕ) × W
  pub fclose : W → W
  pub mlockall : W → ℤ × W

-- the store `path[i] = 0` if `path[i] == c`
abbrev pub clear : ℕ → List ℕ → ℕ → List ℕ
clear c path i = elim (get_elem? path i) [
  | none ↦ path
  | some x ↦ if x == c then set path i 0 else path
]

-- the loop of `strip`, with `n` rounds left
unfoldable pub strip_from : ℕ → ℕ → List ℕ → List ℕ
strip_from zero i path = path
strip_from (suc n) i path = strip_from n (i + 1) (clear b'\n' (clear b'\r' path i) i)

unfoldable pub strip : List ℕ → List ℕ
unfolding strip_from
strip path = strip_from (length (c_string path)) 0 path

-- `strcmp(s, "1") == 0`
abbrev pub is_one : List ℕ → Bool
is_one [] = false
is_one (c ∷ []) = c == b'1'
is_one (c ∷ d ∷ rest) = false

module _ {W : Type 0} (files : Files W) where
  -- `buffer[ret] = 0`, which is a fault outside the buffer
  abbrev pub terminated : List ℕ → ℕ → M W (ℕ × List ℕ)
  terminated buffer ret w =
      if ltb ret (length buffer) then done (ret, set buffer ret 0) w else fault

  -- what `readfilebuf` does with the result of `read`
  abbrev pub keep : List ℕ → Option (List ℕ) → M W (ℕ × List ℕ)
  keep first none = pure (0, first)
  keep first (some bytes) =
      if ltb 0 (length bytes)
      then terminated (overwrite first 0 bytes) (length bytes)
      else pure (0, first)

  -- the number returned, and the buffer
  unfoldable pub readfilebuf : List ℕ → ℕ → M W (ℕ × List ℕ)
  readfilebuf buffer maxbufsize w =
      let (opened, w1) = files.fopen w in
      let first = set buffer 0 0 in
      if opened
      then (let (ret, w2) = files.read (maxbufsize - 1) w1 in keep first ret (files.fclose w2))
      else done (0, first) w1

  unfoldable pub isrealtime : M W ℤ
  isrealtime w =
      (readfilebuf (replicate 64 0) 63 >>= λ r.
      if ltb 0 r.0
      then (if is_one (c_string (strip r.1))
          then (λ w'. done (files.mlockall w').0 (files.mlockall w').1)
          else pure (neg 3))
      else pure (neg 3))
        w
