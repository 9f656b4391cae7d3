-- ===== src/Realtime/Tests.antt =====
-- Locking on a concrete file, with the number of locks as the state.
use rpi_rt_ether_cat_slave_i.Common.{ℕ, ◌+◌, ◌≡◌, refl, true, false, some, [], ◌∷◌, done, arith}
use rpi_rt_ether_cat_slave_i.Common.Int.{pos, neg}
use rpi_rt_ether_cat_slave_i.ThreadName.{c_string}
use rpi_rt_ether_cat_slave_i.Realtime.{Files, strip, readfilebuf, isrealtime}
use rpi_rt_ether_cat_slave_i.Realtime.Lock.{strip-first_line, isrealtime-mlockall}

abbrev real_time : Files ℕ
real_time = record {
  fopen = λ n. (true, n);
  read = λ size n. (some (b'1' ∷ b'\n' ∷ []), n);
  fclose = λ n. n;
  mlockall = λ n. (pos 0, n + 1);
}

-- Without the file nothing is locked.
not_locked : isrealtime (record real_time { fopen = λ n. (false, n) }) 0 ≡ done (neg 3) 0
unfolding isrealtime readfilebuf strip
not_locked = refl

strip-first_line_example : c_string (strip (b'1' ∷ b'\n' ∷ b'2' ∷ [])) ≡ b'1' ∷ []
strip-first_line_example = strip-first_line (b'1' ∷ b'\n' ∷ b'2' ∷ [])

isrealtime-mlockall_example : isrealtime real_time 0 ≡ done (pos 0) 1
isrealtime-mlockall_example = isrealtime-mlockall real_time 0 (omega arith)
