-- ===== src/ThreadName/Tests.antt =====
-- fix_threadname on the name of the test thread and on a long one.
use rpi_rt_ether_cat_slave_i.Common.{
  ℕ, ◌<◌, ◌≤◌, ◌≡◌, ◌↔◌, refl, List, [], ◌∷◌, ◌++◌, arith, length, replicate,
}
use rpi_rt_ether_cat_slave_i.ThreadName.{fix_threadname}
use rpi_rt_ether_cat_slave_i.ThreadName.Laws.{
  short_name, fix_threadname-short_name, fix_threadname-fits,
}

abbrev eleven : List ℕ
eleven = replicate 11 b'a'

short_unchanged : (fix_threadname (replicate 12 b'a') (replicate 64 0) 63 5).0 ≡ replicate 12 b'a'
unfolding fix_threadname
short_unchanged = refl

long_shortened :
    (fix_threadname (eleven ++ b'b' ∷ b'c' ∷ b'd' ∷ []) (replicate 64 7) 63 42).0
    ≡ eleven ++ b'@' ∷ b'4' ∷ b'2' ∷ []
unfolding fix_threadname
long_shortened = refl

fix_threadname-short_name_example :
    fix_threadname (eleven ++ b'b' ∷ b'c' ∷ b'd' ∷ []) (replicate 64 7) 63 42
    ≡ (short_name eleven 42, 43)
fix_threadname-short_name_example =
    fix_threadname-short_name eleven (b'd' ∷ []) (replicate 64 7) b'b' b'c' refl refl 42
      (omega arith) (omega arith)

fix_threadname-fits_example :
    (length (fix_threadname (eleven ++ b'b' ∷ b'c' ∷ b'd' ∷ []) (replicate 64 7) 63 1234).0 ≤ 15)
    ↔ (1234 < 1000)
fix_threadname-fits_example =
    fix_threadname-fits eleven (b'd' ∷ []) (replicate 64 7) b'b' b'c' 1234 refl refl (omega arith)
      (omega arith)
