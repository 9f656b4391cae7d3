-- ===== src/Keyboard/Tests.antt =====
-- A terminal that is what can be seen of it; O_NONBLOCK is the bit of 2048.
use rpi_rt_ether_cat_slave_i.Common.{
  ℕ, ◌+◌, ◌/◌, ◌%◌, ◌≡◌, refl, Bool, true, false, List, [], ◌∷◌, done, spins, M, arith,
  if◌then◌else◌, ◌==◌, ap,
}
use rpi_rt_ether_cat_slave_i.Common.Int.{ℤ, pos, negsuc, neg}
use rpi_rt_ether_cat_slave_i.Keyboard.{
  Termios, Terminal, utl_kbkey, getch, kbhit, getch_flags, kbhit_flags,
}
use rpi_rt_ether_cat_slave_i.Keyboard.Restores.{View, Behaves, with_keys, utl_kbkey-restores}

abbrev has_nonblock : ℤ → Bool
has_nonblock (pos n) = n / 2048 % 2 == 1
has_nonblock (negsuc n) = true

abbrev add_nonblock : ℤ → ℤ
add_nonblock (pos n) = if n / 2048 % 2 == 1 then pos n else pos (n + 2048)
add_nonblock (negsuc n) = negsuc n

-- `ungetc` of EOF does nothing.
abbrev put_back : ℤ → View → View
put_back (pos c) v = with_keys (c ∷ v.keys) v
put_back (negsuc n) v = v

abbrev read_key : Bool → List ℕ → M View ℤ
read_key nonblock [] v = if nonblock then done (neg 1) v else spins
read_key nonblock (c ∷ cs) v = done (pos c) (with_keys cs v)

abbrev terminal : Terminal View
terminal = record {
  tcgetattr = λ raw v. (v.attributes, v);
  tcsetattr = λ a v. record v { attributes = a };
  getfl = λ v. (v.flags, v);
  setfl = λ f v. record v { flags = f };
  or_nonblock = add_nonblock;
  getchar = λ v. read_key (has_nonblock v.flags) v.keys v;
  ungetc = put_back;
}

add_nonblock-set : (f : ℤ) → has_nonblock (add_nonblock f) ≡ true
add_nonblock-set (pos n) = ground arith
add_nonblock-set (negsuc n) = refl

read_key-some :
    (nonblock : Bool) (keys : List ℕ) (v : View) (c : ℕ) (cs : List ℕ)
    → keys ≡ c ∷ cs
    → (v' : View) × (read_key nonblock keys v ≡ done (pos c) v') × (v' ≡ with_keys cs v)
read_key-some nonblock keys v c cs e = (with_keys cs v, ap (λ k. read_key nonblock k v) e, refl)

read_key-none :
    (nonblock : Bool) (keys : List ℕ) (v : View)
    → nonblock ≡ true
    → keys ≡ []
    → (v' : View) × (read_key nonblock keys v ≡ done (neg 1) v') × (v' ≡ v)
read_key-none nonblock keys v on e = (v, rw (e, on) refl, refl)

abbrev terminal-Behaves : Behaves terminal
terminal-Behaves = record {
  view = λ v. v;
  nonblocking = has_nonblock;
  tcgetattr_reads = λ raw v. refl;
  tcgetattr_keeps = λ raw v. refl;
  tcsetattr_sets = λ a v. refl;
  getfl_reads = λ v. refl;
  getfl_keeps = λ v. refl;
  setfl_sets = λ f v. refl;
  nonblock_set = add_nonblock-set;
  getchar_reads = λ v c cs lines typed. read_key-some (has_nonblock v.flags) v.keys v c cs typed;
  getchar_none = λ v lines on typed. read_key-none (has_nonblock v.flags) v.keys v on typed;
  ungetc_back = λ c v. refl;
}

abbrev shell : Termios
shell = record { c_lflag = record { icanon = true; echo = true; others = 9 }; rest = 4 }

abbrev quit_typed : View
quit_typed = record { attributes = shell; flags = pos 2; keys = b'q' ∷ [] }

utl_kbkey-restores_example :
    (quit_typed.keys ≡ []
      → (w' : View) × (utl_kbkey terminal shell quit_typed ≡ done (pos 0) w') × (w' ≡ quit_typed))
    × ((c : ℕ) (cs : List ℕ)
        → quit_typed.keys ≡ c ∷ cs
        → (w' : View) × (utl_kbkey terminal shell quit_typed ≡ done (pos c) w')
          × (w' ≡ with_keys cs quit_typed))
utl_kbkey-restores_example = utl_kbkey-restores terminal terminal-Behaves shell quit_typed

quit_read : utl_kbkey terminal shell quit_typed ≡ done (pos b'q') (with_keys [] quit_typed)
unfolding utl_kbkey kbhit getch getch_flags kbhit_flags
quit_read = refl

-- With echo, `_getch` clears every flag but ECHO while it reads.
echoing_flags : getch_flags true shell.c_lflag ≡ record { icanon = false; echo = true; others = 0 }
unfolding getch_flags
echoing_flags = refl
