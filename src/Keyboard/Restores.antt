-- ===== src/Keyboard/Restores.antt =====
-- What utl_kbkey leaves of the terminal.
use rpi_rt_ether_cat_slave_i.Common.{
  ℕ, ◌≡◌, refl, sym, ◌∙◌, ap, Bool, true, false, List, [], ◌∷◌, done, pure, M, if◌then◌else◌,
  >>=-done,
}
use rpi_rt_ether_cat_slave_i.Common.Int.{ℤ, pos, neg, is_zero, is_minus_one}
use rpi_rt_ether_cat_slave_i.Keyboard.{
  LocalFlags, Termios, Terminal, getch_flags, kbhit_flags, getch, kbhit, utl_kbkey,
}

-- What the program can see of the terminal: its attributes, the flags of the file, and the keys that
-- are typed and not read.
pub record View : Type 0 where
  pub attributes : Termios
  pub flags : ℤ
  pub keys : List ℕ

abbrev pub with_keys : List ℕ → View → View
with_keys ks v = record v { keys = ks }

-- What the system documents: attributes and flags are read as they were set, and change nothing else;
-- without lines, a character is read if there is one, and a read that may not block reports EOF if
-- there is none; a character that is put back is read next.
pub record Behaves {W : Type 0} (t : Terminal W) : Type 0 where
  pub view : W → View
  pub nonblocking : ℤ → Bool
  pub tcgetattr_reads : (raw : Termios) (w : W) → (t.tcgetattr raw w).0 ≡ (view w).attributes
  pub tcgetattr_keeps : (raw : Termios) (w : W) → view (t.tcgetattr raw w).1 ≡ view w
  pub tcsetattr_sets :
      (a : Termios) (w : W) → view (t.tcsetattr a w) ≡ record (view w) { attributes = a }
  pub getfl_reads : (w : W) → (t.getfl w).0 ≡ (view w).flags
  pub getfl_keeps : (w : W) → view (t.getfl w).1 ≡ view w
  pub setfl_sets : (f : ℤ) (w : W) → view (t.setfl f w) ≡ record (view w) { flags = f }
  pub nonblock_set : (f : ℤ) → nonblocking (t.or_nonblock f) ≡ true
  pub getchar_reads :
      (w : W) (c : ℕ) (cs : List ℕ)
      → (view w).attributes.c_lflag.icanon ≡ false
      → (view w).keys ≡ c ∷ cs
      → (w' : W) × (t.getchar w ≡ done (pos c) w') × (view w' ≡ record (view w) { keys = cs })
  pub getchar_none :
      (w : W)
      → (view w).attributes.c_lflag.icanon ≡ false
      → nonblocking (view w).flags ≡ true
      → (view w).keys ≡ []
      → (w' : W) × (t.getchar w ≡ done (neg 1) w') × (view w' ≡ view w)
  pub ungetc_back :
      (c : ℕ) (w : W) → view (t.ungetc (pos c) w) ≡ record (view w) { keys = c ∷ (view w).keys }

module _ {W : Type 0} (t : Terminal W) (b : Behaves t) (raw : Termios) where
  -- the terminal when `_kbhit` reads
  abbrev hit_state : W → W
  hit_state w =
      let (oldt, w1) = t.tcgetattr raw w in
      let (oldf, w2) =
        t.getfl (t.tcsetattr (record oldt { c_lflag = kbhit_flags oldt.c_lflag }) w1) in
      t.setfl (t.or_nonblock oldf) w2

  hit_state-view :
      (w : W)
      → b.view (hit_state w) ≡ record {
        attributes = record (b.view w).attributes {
          c_lflag = kbhit_flags (b.view w).attributes.c_lflag;
        };
        flags = t.or_nonblock (b.view w).flags;
        keys = (b.view w).keys;
      }
  hit_state-view w = simp (
    b.setfl_sets, b.getfl_keeps, b.getfl_reads, b.tcsetattr_sets, b.tcgetattr_keeps,
    b.tcgetattr_reads,
  )

  -- the terminal after the two calls behind the read
  abbrev restored : W → W → W
  restored w w' =
      let (oldt, w1) = t.tcgetattr raw w in
      let set = t.tcsetattr (record oldt { c_lflag = kbhit_flags oldt.c_lflag }) w1 in
      t.setfl (t.getfl set).0 (t.tcsetattr oldt w')

  restored-view : (w w' : W) → b.view (restored w w') ≡ with_keys (b.view w').keys (b.view w)
  restored-view w w' =
      simp (b.setfl_sets, b.getfl_reads, b.tcsetattr_sets, b.tcgetattr_keeps, b.tcgetattr_reads)

  -- `_kbhit` from its read on
  kbhit-read :
      (w : W) {ch : ℤ} {w' : W}
      → t.getchar (hit_state w) ≡ done ch w'
      → kbhit t raw w
        ≡ (if is_minus_one ch then pure (pos 0) else (λ u. done (pos 1) (t.ungetc ch u)))
            (restored w w')
  unfolding kbhit
  kbhit-read w read =
      >>=-done t.getchar
        (λ ch v.
          (if is_minus_one ch then pure (pos 0) else (λ u. done (pos 1) (t.ungetc ch u)))
            (restored w v))
        (hit_state w) read

  kbhit-none :
      (w : W)
      → (b.view w).keys ≡ []
      → (w' : W) × (kbhit t raw w ≡ done (pos 0) w') × (b.view w' ≡ b.view w)
  unfolding kbhit_flags
  kbhit-none w e =
      let seen = hit_state-view w in
      let (w', read, same) =
        b.getchar_none (hit_state w) (ap (λ v. v.attributes.c_lflag.icanon) seen)
          (ap (λ v. b.nonblocking v.flags) seen ∙ b.nonblock_set (b.view w).flags)
          (ap (λ v. v.keys) seen ∙ e) in
      (
        restored w w',
        kbhit-read w read,
        restored-view w w' ∙ ap (λ k. with_keys k (b.view w)) (ap (λ v. v.keys) (same ∙ seen)),
      )

  kbhit-key :
      (w : W) (c : ℕ) (cs : List ℕ)
      → (b.view w).keys ≡ c ∷ cs
      → (w' : W) × (kbhit t raw w ≡ done (pos 1) w') × (b.view w' ≡ b.view w)
  unfolding kbhit_flags
  kbhit-key w c cs e =
      let seen = hit_state-view w in
      let (w', read, same) =
        b.getchar_reads (hit_state w) c cs (ap (λ v. v.attributes.c_lflag.icanon) seen)
          (ap (λ v. v.keys) seen ∙ e) in
      (
        t.ungetc (pos c) (restored w w'),
        kbhit-read w read,
        b.ungetc_back c (restored w w')
            ∙ ap (λ v. with_keys (c ∷ v.keys) v) (restored-view w w')
            ∙ ap (λ v. with_keys (c ∷ v.keys) (b.view w)) same
            ∙ ap (λ k. with_keys k (b.view w)) (sym e),
      )

  getch_flags-icanon : (echo : Bool) (f : LocalFlags) → (getch_flags echo f).icanon ≡ false
  unfolding getch_flags
  getch_flags-icanon true f = refl
  getch_flags-icanon false f = refl

  -- `_getch` reads the next key and sets the attributes back.
  getch-key :
      (echo : Bool) (w : W) (c : ℕ) (cs : List ℕ)
      → (b.view w).keys ≡ c ∷ cs
      → (w' : W) × (getch t raw echo w ≡ done (pos c) w') × (b.view w' ≡ with_keys cs (b.view w))
  unfolding getch
  getch-key echo w c cs e =
      let (oldt, w1) = t.tcgetattr raw w in
      let w2 = t.tcsetattr (record oldt { c_lflag = getch_flags echo oldt.c_lflag }) w1 in
      let seen : b.view w2 ≡ record (b.view w) {
        attributes = record (b.view w).attributes {
          c_lflag = getch_flags echo (b.view w).attributes.c_lflag;
        };
      } =
        simp (b.tcsetattr_sets, b.tcgetattr_keeps, b.tcgetattr_reads) in
      let (w3, read, left) =
        b.getchar_reads w2 c cs
          (ap (λ v. v.attributes.c_lflag.icanon) seen
            ∙ getch_flags-icanon echo (b.view w).attributes.c_lflag)
          (ap (λ v. v.keys) seen ∙ e) in
      (
        t.tcsetattr oldt w3,
        >>=-done t.getchar (λ ch v. done ch (t.tcsetattr oldt v)) w2 read,
        simp (b.tcsetattr_sets, b.tcgetattr_reads, b.tcgetattr_keeps, left),
      )

  abbrev next_key : ℤ → M W ℤ
  next_key key = if is_zero key then pure (pos 0) else getch t raw false

  -- If the terminal behaves as `Behaves` documents, `utl_kbkey` returns: without a key typed it
  -- gives 0 and leaves what can be seen of the terminal as it was; with a key typed it gives that
  -- key, and the attributes and the flags of the file are as before and the other keys are still
  -- to be read.
  pub utl_kbkey-restores :
      (w : W)
      → ((b.view w).keys ≡ []
          → (w' : W) × (utl_kbkey t raw w ≡ done (pos 0) w') × (b.view w' ≡ b.view w))
        × ((c : ℕ) (cs : List ℕ)
            → (b.view w).keys ≡ c ∷ cs
            → (w' : W) × (utl_kbkey t raw w ≡ done (pos c) w')
              × (b.view w' ≡ with_keys cs (b.view w)))
  unfolding utl_kbkey
  utl_kbkey-restores w = (
    λ none_typed.
        (let (w1, e1, same) = kbhit-none w none_typed in
          (w1, >>=-done (kbhit t raw) (next_key) w e1, same)),
    λ c cs typed.
        let (w1, e1, same) = kbhit-key w c cs typed in
        let (w2, e2, left) = getch-key false w1 c cs (ap (λ v. v.keys) same ∙ typed) in
        (w2, >>=-done (kbhit t raw) (next_key) w e1 ∙ e2, left ∙ ap (λ v. with_keys cs v) same),
  )
