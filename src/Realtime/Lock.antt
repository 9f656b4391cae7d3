-- ===== src/Realtime/Lock.antt =====
-- When isrealtime locks the memory of the process.
use rpi_rt_ether_cat_slave_i.Common.{
  ℕ, zero, suc, ◌+◌, ◌≤◌, ◌<◌, ◌≡◌, refl, ◌∙◌, ap, ◌||◌, Option, none, some, List, [], ◌∷◌, ◌++◌,
  done, arith, if◌then◌else◌, ◌==◌, set, length, replicate, drop, length-set, Bool-cases, inl, inr,
}
use rpi_rt_ether_cat_slave_i.Common.Int.{neg}
use rpi_rt_ether_cat_slave_i.Word.{overwrite}
use rpi_rt_ether_cat_slave_i.ThreadName.{c_string}
use rpi_rt_ether_cat_slave_i.ThreadName.Laws.{overwrite-within}
use rpi_rt_ether_cat_slave_i.Realtime.{
  Files, clear, strip_from, strip, is_one, keep, readfilebuf, isrealtime,
}

-- a string up to its first line end
abbrev pub first_line : List ℕ → List ℕ
first_line [] = []
first_line (x ∷ xs) = if x == b'\r' || x == b'\n' then [] else x ∷ first_line xs

clear-tail : (c x : ℕ) (xs : List ℕ) (i : ℕ) → clear c (x ∷ xs) (i + 1) ≡ x ∷ clear c xs i
clear-tail c x [] i = ground arith
clear-tail c x (y ∷ ys) i = ground arith

strip_from-tail :
    (n i : ℕ) (x : ℕ) (xs : List ℕ) → strip_from n (i + 1) (x ∷ xs) ≡ x ∷ strip_from n i xs
unfolding strip_from
strip_from-tail zero i x xs = refl
strip_from-tail (suc n) i x xs =
    rw (clear-tail b'\r' x xs i, clear-tail b'\n' x (clear b'\r' xs i) i)
      (strip_from-tail n (i + 1) x (clear b'\n' (clear b'\r' xs i) i))

-- The string that `strip` leaves is the string it is given up to the first carriage return or line
-- feed.
pub strip-first_line : (path : List ℕ) → c_string (strip path) ≡ first_line (c_string path)
unfolding strip strip_from
strip-first_line [] = refl
strip-first_line (x ∷ xs) = ground (
  arith,
  strip-first_line xs,
  strip_from-tail (length (c_string xs)) 0 x xs,
  strip_from-tail (length (c_string xs)) 0 0 xs,
)

-- The bytes of a file that are stored in a larger buffer, and ended by a zero, are its string.
c_string-cut :
    (bs xs : List ℕ)
    → length bs < length xs
    → c_string (set (bs ++ drop (length bs) xs) (length bs) 0) ≡ c_string bs
c_string-cut [] [] h = absurd (omega arith)
c_string-cut [] (x ∷ xs) h = refl
c_string-cut (b ∷ bs) [] h = absurd (omega arith)
c_string-cut (b ∷ bs) (x ∷ xs) h = ground (arith, c_string-cut bs xs)

length-overwrite : (xs : List ℕ) (at : ℕ) (bs : List ℕ) → length (overwrite xs at bs) ≡ length xs
length-overwrite xs at [] = refl
length-overwrite xs at (b ∷ bs) = length-overwrite (set xs at b) (at + 1) bs ∙ length-set xs at b

no_bytes : (bs : List ℕ) → length bs ≡ 0 → bs ≡ []
no_bytes [] h = refl
no_bytes (b ∷ bs) h = absurd (omega arith)

module _ {W : Type 0} (files : Files W) (w : W) where
  abbrev pub bytes_of : Option (List ℕ) → List ℕ
  bytes_of none = []
  bytes_of (some bytes) = bytes

  -- what the file holds, nothing if it cannot be opened or read
  abbrev pub content : List ℕ
  content = if (files.fopen w).0 then bytes_of (files.read 62 (files.fopen w).1).0 else []

  abbrev pub closed : W
  closed =
      if (files.fopen w).0
      then files.fclose (files.read 62 (files.fopen w).1).1
      else (files.fopen w).1

  stored :
      (bs : List ℕ)
      → length bs ≤ 62
      → c_string (set (overwrite (replicate 64 0) 0 bs) (length bs) 0) ≡ c_string bs
  stored bs h =
      ap (λ l. c_string (set l (length bs) 0))
        (overwrite-within [] (replicate 64 0) bs 0 refl (omega arith))
      ∙ c_string-cut bs (replicate 64 0) (omega arith)

  answered :
      (r : Option (List ℕ)) (v : W)
      → length (bytes_of r) ≤ 62
      → keep files (replicate 64 0) r v
        ≡ done
            (
              length (bytes_of r),
              set (overwrite (replicate 64 0) 0 (bytes_of r)) (length (bytes_of r)) 0,
            )
            v
  answered none v h = refl
  answered (some []) v h = refl
  answered (some (b ∷ bs)) v h = ground (arith, length-overwrite (replicate 64 0) 0 (b ∷ bs))

  readfilebuf-content :
      length content ≤ 62
      → (buffer : List ℕ) × (readfilebuf files (replicate 64 0) 63 w
          ≡ done (length content, buffer) closed)
        × (c_string buffer ≡ c_string content)
  unfolding readfilebuf
  readfilebuf-content h = (
    set (overwrite (replicate 64 0) 0 content) (length content) 0,
    elim (Bool-cases (files.fopen w).0) [
      | inl e ↦ ground (
        arith,
        answered (files.read 62 (files.fopen w).1).0
            (files.fclose (files.read 62 (files.fopen w).1).1) (rw e at h),
      )
      | inr e ↦ ground arith
    ],
    stored content h,
  )

  -- If a read returns at most the 62 bytes it asks for, `isrealtime` returns; it closes the file
  -- if it was opened, and locks the memory, with the result of the lock, if the first line of the
  -- file's string is 1, and returns -3 without locking otherwise.
  pub isrealtime-mlockall :
      length content ≤ 62
      → isrealtime files w ≡ (
          if is_one (first_line (c_string content))
          then done (files.mlockall closed).0 (files.mlockall closed).1
          else done (neg 3) closed)
  unfolding isrealtime
  isrealtime-mlockall h =
      let (buffer, e, s) = readfilebuf-content h in
      let line = strip-first_line buffer in ground (arith, e, s, line, no_bytes content)
