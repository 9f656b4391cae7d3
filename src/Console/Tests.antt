-- ===== src/Console/Tests.antt =====
-- Numbers that are printed as their digits.
use rpi_rt_ether_cat_slave_i.Common.{
  ℕ, zero, suc, ◌≤◌, ◌≡◌, refl, List, ◌∷◌, done, fault, length, replicate, arith,
}
use rpi_rt_ether_cat_slave_i.Stat.{StatBuffer}
use rpi_rt_ether_cat_slave_i.ThreadName.Laws.{NoZero}
use rpi_rt_ether_cat_slave_i.Console.{bashoutput}
use rpi_rt_ether_cat_slave_i.Console.Bounds.{fields, text, bashoutput-text}

-- as many digits 7
abbrev sevens : ℕ → List ℕ
sevens n = replicate n b'7'

sevens-NoZero : (n : ℕ) → NoZero (sevens n)
sevens-NoZero zero = tt
sevens-NoZero (suc n) = (omega arith, sevens-NoZero n)

abbrev statistics : ℕ → StatBuffer ℕ
statistics n = record {
  v = n;
  count = 1;
  vmean = n;
  vmax = n;
  vmin = n;
  vstddev = n;
  vrange = n;
  ic_sum = n;
  ic_sum2 = n;
}

abbrev cleared : List ℕ
cleared = replicate 256 0

abbrev line : List ℕ
line = text sevens (fields (statistics 14) (statistics 14))

bashoutput-text_example :
    (length (line) ≤ 255
      → (b : List ℕ) × (bashoutput sevens (statistics 14) (statistics 14) cleared
          ≡ done (b'\r' ∷ b' ' ∷ line) b)
        × (length b ≡ 256))
    × (256 ≤ length (line) → bashoutput sevens (statistics 14) (statistics 14) cleared ≡ fault)
bashoutput-text_example =
    bashoutput-text sevens sevens-NoZero (statistics 14) (statistics 14) cleared refl

-- Fifteen characters for each number are too many.
too_long : bashoutput sevens (statistics 15) (statistics 15) cleared ≡ fault
too_long =
    (bashoutput-text sevens sevens-NoZero (statistics 15) (statistics 15) cleared refl).1
      (omega arith)
