-- ===== src/Word/Laws.antt =====
-- The views of the unions agree: what is stored through one is loaded through the other.
use rpi_rt_ether_cat_slave_i.Common.{
  ℕ, ◌%◌, ◌^◌, ◌<◌, ◌≡◌, arith, List, length, ◌+◌, ◌++◌, refl, ◌∙◌, ap, length-append, append_assoc,
  set-append, ◌∷◌, [], List, length, ◌+◌, ◌++◌, refl, ◌∙◌, ap, length-append, append_assoc,
  set-append,
}
use rpi_rt_ether_cat_slave_i.Word.{
  Ulong, ulong_of, long_of, le_bytes, overwrite, set_ul, ProcBuffer,
}

pub record IsBytes (u : Ulong) : Type 0 where
  pub low0 : u.byte0 < 256
  pub low1 : u.byte1 < 256
  pub low2 : u.byte2 < 256
  pub low3 : u.byte3 < 256

-- A value stored to `.Long` is loaded from it, cut to 32 bits.
pub long_of-ulong_of : (v : ℕ) → long_of (ulong_of v) ≡ v % 2 ^ 32
long_of-ulong_of v = omega arith

-- Four bytes loaded as `.Long` and stored again are the same bytes.
pub ulong_of-long_of : (u : Ulong) → IsBytes u → ulong_of (long_of u) ≡ u
ulong_of-long_of u h = ground arith

pub le_bytes-long_of :
    (u : Ulong) → IsBytes u → le_bytes 4 (long_of u) ≡ u.byte0 ∷ u.byte1 ∷ u.byte2 ∷ u.byte3 ∷ []
le_bytes-long_of u h = ground arith

-- Writing as many bytes as there are from an offset on leaves what stands before it, and those bytes.
pub overwrite-append :
    (pre old new : List ℕ) (at : ℕ)
    → at ≡ length pre
    → length old ≡ length new
    → overwrite (pre ++ old) at new ≡ pre ++ new
overwrite-append pre [] [] at h e = refl
overwrite-append pre [] (b ∷ new) at h e = absurd (omega arith)
overwrite-append pre (x ∷ old) [] at h e = absurd (omega arith)
overwrite-append pre (x ∷ old) (b ∷ new) at h e =
    rw (set-append pre old at x b h, ← append_assoc pre (b ∷ []) old)
      (overwrite-append (pre ++ b ∷ []) old new (at + 1) (omega (arith, length-append pre (b ∷ [])))
          (omega arith)
        ∙ append_assoc pre (b ∷ []) new)

-- Stores to all four words leave nothing of what was there.
pub set_ul-all :
    (p : ProcBuffer) (a b c d : ℕ)
    → length p.bytes ≡ 32
    → set_ul (set_ul (set_ul (set_ul p 0 a) 1 b) 2 c) 3 d
      ≡ record { bytes = le_bytes 8 a ++ (le_bytes 8 b ++ (le_bytes 8 c ++ le_bytes 8 d)) }
set_ul-all p a b c d h =
    ap (λ l. record { bytes = l })
      (overwrite-append [] p.bytes
        (le_bytes 8 a ++ (le_bytes 8 b ++ (le_bytes 8 c ++ le_bytes 8 d))) 0 refl h)
