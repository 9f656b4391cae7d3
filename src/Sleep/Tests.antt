-- ===== src/Sleep/Tests.antt =====
-- The delay of the main program, with an exact product; nanosleep notes what it is asked for.
use rpi_rt_ether_cat_slave_i.Common.{◌+◌, ◌/◌, ◌≡◌, ◌↔◌, refl, done, M, arith}
use rpi_rt_ether_cat_slave_i.Common.Int.{ℤ, pos, neg, negsuc}
use rpi_rt_ether_cat_slave_i.Sleep.{Timespec, Times, milisleep}
use rpi_rt_ether_cat_slave_i.Sleep.Exact.{IsNormal, InWholeSeconds, Lasts, milisleep-exact}

abbrev note : Timespec → M Timespec ℤ
note t w = done (pos 0) t

abbrev pi : Times
pi = record {
  bits = 32;
  whole_seconds = λ ms. elim ms [ pos n ↦ pos (n / 1000) | negsuc n ↦ neg ((n + 1) / 1000) ];
}

milisleep-exact_example :
    (t : Timespec) × (milisleep pi note (pos 2100) ≡ note t)
    × Lasts t (pos 2100)
    × (IsNormal t ↔ InWholeSeconds (pos 2) (pos 2100))
milisleep-exact_example = milisleep-exact pi note (pos 2100) (omega arith) refl refl refl refl

asked_for :
    (t : Timespec)
    → milisleep pi note (pos 2100) t
      ≡ done (pos 0) (record { tv_sec = pos 2; tv_nsec = pos 100000000 })
unfolding milisleep
asked_for t = refl

-- Half a second back is asked for with nanoseconds below 0.
asked_back :
    (t : Timespec)
    → milisleep pi note (neg 500) t
      ≡ done (pos 0) (record { tv_sec = pos 0; tv_nsec = neg 500000000 })
unfolding milisleep
asked_back t = refl
