-- ===== src/Keyboard.antt =====
-- rpi_base/src/rpi_base.cpp: _getch, _kbhit and utl_kbkey, over the calls of the terminal.
pub mod Restores
mod Tests
use rpi_rt_ether_cat_slave_i.Common.{
  ℕ, zero, suc, Bool, true, false, done, M, pure, ◌>>=◌, ◌>>◌, if◌then◌else◌,
}
use rpi_rt_ether_cat_slave_i.Common.Int.{ℤ, pos, is_zero, is_minus_one}

-- `c_lflag`, with the two flags that the program reads apart from the others
pub record LocalFlags : Type 0 where
  pub icanon : Bool
  pub echo : Bool
  pub others : ℕ

-- `struct termios`, with the members that the program does not touch in one
pub record Termios : Type 0 where
  pub c_lflag : LocalFlags
  pub rest : ℕ

-- The calls on the standard input. `EOF` is -1.
pub record Terminal (W : Type 0) : Type 0 where
  -- `tcgetattr`, with what the structure holds before the call
  pub tcgetattr : Termios → W → Termios × W
  pub tcsetattr : Termios → W → W
  -- `fcntl` with `F_GETFL` and with `F_SETFL`
  pub getfl : W → ℤ × W
  pub setfl : ℤ → W → W
  -- `oldf | O_NONBLOCK`
  pub or_nonblock : ℤ → ℤ
  -- a read that waits for ever is `spins`
  pub getchar : M W ℤ
  pub ungetc : ℤ → W → W

-- `c_lflag &= ~ICANON` and then `&= ECHO` or `&= ~ECHO`: the former keeps no flag but ECHO.
unfoldable pub getch_flags : Bool → LocalFlags → LocalFlags
getch_flags true f = record { icanon = false; echo = f.echo; others = 0 }
getch_flags false f = record f { icanon = false; echo = false }

-- `c_lflag &= ~(ICANON | ECHO)`
unfoldable pub kbhit_flags : LocalFlags → LocalFlags
kbhit_flags f = record f { icanon = false; echo = false }

-- `raw` is what `oldt` holds before it is read.
module _ {W : Type 0} (t : Terminal W) (raw : Termios) where
  abbrev ask : {A : Type 0} → (W → A × W) → M W A
  ask f w = done (f w).0 (f w).1

  abbrev do_call : (W → W) → M W (Unit {0})
  do_call f w = done tt (f w)

  -- `rpi_base::_getch`
  unfoldable pub getch : Bool → M W ℤ
  getch echo = do
    oldt ← ask (t.tcgetattr raw)
    do_call (t.tcsetattr (record oldt { c_lflag = getch_flags echo oldt.c_lflag }))
    ch ← t.getchar
    do_call (t.tcsetattr oldt)
    pure ch

  -- `rpi_base::_kbhit`
  unfoldable pub kbhit : M W ℤ
  kbhit = do
    oldt ← ask (t.tcgetattr raw)
    do_call (t.tcsetattr (record oldt { c_lflag = kbhit_flags oldt.c_lflag }))
    oldf ← ask t.getfl
    do_call (t.setfl (t.or_nonblock oldf))
    ch ← t.getchar
    do_call (t.tcsetattr oldt)
    do_call (t.setfl oldf)
    if is_minus_one ch then pure (pos 0) else (do_call (t.ungetc ch) >> pure (pos 1))

  -- `rpi_base::utl_kbkey`
  unfoldable pub utl_kbkey : M W ℤ
  utl_kbkey = kbhit >>= λ key. if is_zero key then pure (pos 0) else getch false
