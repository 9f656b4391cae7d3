-- ===== src/ThreadName/Laws.antt =====
-- The name that fix_threadname makes of a long one, and whether the system takes it.
use rpi_rt_ether_cat_slave_i.Common.{
  ℕ, zero, suc, ◌+◌, ◌-◌, ◌/◌, ◌%◌, ◌^◌, ◌≤◌, ◌<◌, ◌≡◌, ◌↔◌, refl, sym, ◌∙◌, ap, List, [], ◌∷◌,
  ◌++◌, ltb, true, length, take, drop, set, arith, append_assoc, length-append, set-append,
}
use Prim.Native.Nat.{min}
use rpi_rt_ether_cat_slave_i.Word.{overwrite}
use rpi_rt_ether_cat_slave_i.ThreadName.{
  c_string, padded, strncpy, strncat, digits, print_d, fix_threadname,
}

abbrev pub NoZero : List ℕ → Type 0
NoZero [] = Unit {0}
NoZero (x ∷ xs) = (0 < x) × NoZero xs

pub c_string-append : (xs ys : List ℕ) → NoZero xs → c_string (xs ++ 0 ∷ ys) ≡ xs
c_string-append [] ys h = refl
c_string-append (x ∷ xs) ys h = ground (arith, c_string-append xs ys)

pub NoZero-append : (xs ys : List ℕ) → NoZero xs → NoZero ys → NoZero (xs ++ ys)
NoZero-append [] ys h k = k
NoZero-append (x ∷ xs) ys h k = (h.0, NoZero-append xs ys h.1 k)

pub NoZero-take : (n : ℕ) (xs : List ℕ) → NoZero xs → NoZero (take n xs)
NoZero-take zero xs h = tt
NoZero-take (suc n) [] h = tt
NoZero-take (suc n) (x ∷ xs) h = (h.0, NoZero-take n xs h.1)

pub length-padded : (n : ℕ) (xs : List ℕ) → length (padded n xs) ≡ n
length-padded zero xs = refl
length-padded (suc n) [] = ap suc (length-padded n [])
length-padded (suc n) (x ∷ xs) = ap suc (length-padded n xs)

pub padded-append :
    (n : ℕ) (xs ys : List ℕ) (m : ℕ) → m ≡ length xs + n → padded m (xs ++ ys) ≡ xs ++ padded n ys
padded-append n [] ys m h = let e : m ≡ n = omega arith in ap (λ k. padded k ys) e
padded-append n (x ∷ xs) ys zero h = absurd (omega arith)
padded-append n (x ∷ xs) ys (suc m) h = ap (λ l. x ∷ l) (padded-append n xs ys m (omega arith))

-- Overwriting within a list keeps what stands before and behind.
pub overwrite-within :
    (pre old new : List ℕ) (at : ℕ)
    → at ≡ length pre
    → length new ≤ length old
    → overwrite (pre ++ old) at new ≡ pre ++ (new ++ drop (length new) old)
overwrite-within pre old [] at h e = refl
overwrite-within pre [] (b ∷ new) at h e = absurd (omega arith)
overwrite-within pre (x ∷ old) (b ∷ new) at h e =
    rw (set-append pre old at x b h, ← append_assoc pre (b ∷ []) old)
      (overwrite-within (pre ++ b ∷ []) old new (at + 1) (omega (arith, length-append pre (b ∷ [])))
          (omega arith)
        ∙ append_assoc pre (b ∷ []) (new ++ drop (length new) old))

digits-NoZero : (f n : ℕ) (acc : List ℕ) → NoZero acc → NoZero (digits f n acc)
unfolding digits
digits-NoZero zero n acc h = h
digits-NoZero (suc f) n acc h = ground (arith, digits-NoZero f (n / 10) ((b'0' + n % 10) ∷ acc))

print_d-NoZero : (x : ℕ) → NoZero (print_d x)
unfolding print_d
print_d-NoZero x = ground (arith, digits-NoZero 10 x [], digits-NoZero 10 (2 ^ 32 - x) [])

length-digits : (f n : ℕ) (acc : List ℕ) → length acc + 1 ≤ length (digits (suc f) n acc)
unfolding digits
length-digits zero n acc = ground arith
length-digits (suc f) n acc = ground (arith, length-digits f (n / 10) ((b'0' + n % 10) ∷ acc))

pub take_of_le : (n : ℕ) (xs : List ℕ) → length xs ≤ n → take n xs ≡ xs
take_of_le zero [] h = refl
take_of_le zero (x ∷ xs) h = absurd (omega arith)
take_of_le (suc n) [] h = refl
take_of_le (suc n) (x ∷ xs) h = ap (λ l. x ∷ l) (take_of_le n xs (omega arith))

pub length-take-le : (n : ℕ) (xs : List ℕ) → length (take n xs) ≤ n
length-take-le zero xs = omega arith
length-take-le (suc n) [] = omega arith
length-take-le (suc n) (x ∷ xs) = omega (arith, length-take-le n xs)

pub length-drop : (n m : ℕ) (xs : List ℕ) → length xs ≡ n + m → length (drop n xs) ≡ m
length-drop zero m xs h = omega arith
length-drop (suc n) m [] h = absurd (omega arith)
length-drop (suc n) m (x ∷ xs) h = length-drop n m xs (omega arith)

-- The name that a long one becomes: its first 11 characters, `@`, and the running number.
abbrev pub short_name : List ℕ → ℕ → List ℕ
short_name pre threadunique = (pre ++ b'@' ∷ []) ++ take 8 (print_d threadunique)

module _ (pre rest buffer : List ℕ) (a b : ℕ) (cut : length pre ≡ 11)
    (room : length buffer ≡ 64) where
  abbrev cname : List ℕ
  cname = pre ++ a ∷ b ∷ rest

  -- what stands behind the two characters that are replaced
  abbrev tail : List ℕ
  tail = padded 49 rest ++ drop 62 buffer

  copied : strncpy buffer cname 62 ≡ pre ++ a ∷ b ∷ tail
  copied =
      overwrite-within [] buffer (padded 62 cname) 0 refl (omega (arith, length-padded 62 cname))
      ∙ ap (λ k. padded 62 cname ++ drop k buffer) (length-padded 62 cname)
      ∙ ap (λ l. l ++ drop 62 buffer) (padded-append 51 pre (a ∷ b ∷ rest) 62 (omega arith))
      ∙ append_assoc pre (a ∷ b ∷ padded 49 rest) (drop 62 buffer)

  replaced : set (set (strncpy buffer cname 62) 11 b'@') 12 0 ≡ (pre ++ b'@' ∷ []) ++ 0 ∷ tail
  replaced =
      ap (λ l. set (set l 11 b'@') 12 0) copied
      ∙ ap (λ l. set l 12 0)
          (set-append pre (b ∷ tail) 11 a b'@' (sym cut)
            ∙ sym (append_assoc pre (b'@' ∷ []) (b ∷ tail)))
      ∙ set-append (pre ++ b'@' ∷ []) tail 12 b 0 (omega (arith, length-append pre (b'@' ∷ [])))

  appended :
      (temp : List ℕ)
      → NoZero pre
      → NoZero temp
      → length temp ≤ 8
      → c_string (strncat ((pre ++ b'@' ∷ []) ++ 0 ∷ tail) temp 62) ≡ (pre ++ b'@' ∷ []) ++ temp
  appended temp hp ht short =
      ap (λ n. c_string (overwrite (front ++ 0 ∷ tail) n (take 62 temp ++ 0 ∷ []))) at
      ∙ ap (λ t. c_string (overwrite (front ++ 0 ∷ tail) (length front) (t ++ 0 ∷ []))) whole
      ∙ ap c_string (overwrite-within front (0 ∷ tail) (temp ++ 0 ∷ []) (length front) refl space)
      ∙ ap c_string (
          ap (λ l. front ++ l) (append_assoc temp (0 ∷ []) left)
          ∙ sym (append_assoc front temp (0 ∷ left)))
      ∙ c_string-append (front ++ temp) left (NoZero-append front temp front-NoZero ht)
    where
      front : List ℕ
      front = pre ++ b'@' ∷ []

      left : List ℕ
      left = drop (length (temp ++ 0 ∷ [])) (0 ∷ tail)

      front-NoZero : NoZero front
      front-NoZero = NoZero-append pre (b'@' ∷ []) hp (omega arith)

      at : length (c_string (front ++ 0 ∷ tail)) ≡ length front
      at = ap length (c_string-append front tail front-NoZero)

      whole : take 62 temp ≡ temp
      whole = take_of_le 62 temp (omega arith)

      space : length (temp ++ 0 ∷ []) ≤ length (0 ∷ tail)
      space = omega (
        arith,
        length-append temp (0 ∷ []),
        length-append (padded 49 rest) (drop 62 buffer),
        length-padded 49 rest,
      )

  -- A name of at least 13 characters without a zero byte in its first 11, in a buffer of 64
  -- bytes, becomes its first 11 characters, `@` and at most 8 characters of the running number,
  -- and the running number, below 2 ^ 32, goes up by one modulo 2 ^ 32.
  pub fix_threadname-short_name :
      (threadunique : ℕ)
      → NoZero pre
      → threadunique < 2 ^ 32
      → fix_threadname cname buffer 63 threadunique
        ≡ (short_name pre threadunique, (threadunique + 1) % 2 ^ 32)
  unfolding fix_threadname
  fix_threadname-short_name threadunique hp lt =
      let test : ltb 12 (length cname) ≡ true = ground (arith, length-append pre (a ∷ b ∷ rest)) in
      let number : ((threadunique + 1) % 2 ^ 32 + 2 ^ 32 - 1) % 2 ^ 32 ≡ threadunique =
        omega arith in
      let next = (threadunique + 1) % 2 ^ 32 in
      let temp = take 8 (print_d threadunique) in
      let short = length-take-le 8 (print_d threadunique) in
      let clean = NoZero-take 8 (print_d threadunique) (print_d-NoZero threadunique) in
      rw (test, number)
        (ap (λ l. (c_string (strncat l temp 62), next)) replaced
          ∙ ap (λ l. (l, next)) (appended temp hp clean short))

length-take : (n : ℕ) (xs : List ℕ) → length (take n xs) ≡ min n (length xs)
length-take zero xs = omega arith
length-take (suc n) [] = omega arith
length-take (suc n) (x ∷ xs) = omega (arith, length-take n xs)

length-digits-two : (n : ℕ) → 10 ≤ n → n < 100 → length (digits 10 n []) ≡ 2
unfolding digits
length-digits-two n lo hi = ground arith

length-digits-one : (n : ℕ) → n < 10 → length (digits 10 n []) ≡ 1
unfolding digits
length-digits-one n h = ground arith

length-digits-three : (n : ℕ) → 100 ≤ n → n < 1000 → length (digits 10 n []) ≡ 3
unfolding digits
length-digits-three n lo hi = ground arith

length-digits-many : (n : ℕ) → 1000 ≤ n → 4 ≤ length (digits 10 n [])
unfolding digits
length-digits-many n lo = ground (
  arith,
  length-digits 6 (n / 10 / 10 / 10)
      ((b'0' + n / 10 / 10 % 10) ∷ (b'0' + n / 10 % 10) ∷ (b'0' + n % 10) ∷ []),
)

length-print_d : (n : ℕ) → n < 2 ^ 31 → (length (print_d n) ≤ 3) ↔ (n < 1000)
unfolding print_d
length-print_d n lt =
    ground
      (arith, length-digits-one n, length-digits-two n, length-digits-three n, length-digits-many n)

-- For a name of at least 13 characters without a zero byte in its first 11, in a buffer of 64
-- bytes, and a running number below 2 ^ 31, the name returned has at most 15 characters exactly if
-- the running number is below 1000.
pub fix_threadname-fits :
    (pre rest buffer : List ℕ) (a b threadunique : ℕ)
    → length pre ≡ 11
    → length buffer ≡ 64
    → NoZero pre
    → threadunique < 2 ^ 31
    → (length (fix_threadname (pre ++ a ∷ b ∷ rest) buffer 63 threadunique).0 ≤ 15)
      ↔ (threadunique < 1000)
fix_threadname-fits pre rest buffer a b threadunique cut room hp lt =
    let name =
      fix_threadname-short_name pre rest buffer a b cut room threadunique hp (omega arith) in
    let size = ap (λ r. length r.0) name in
    let total = length-append (pre ++ b'@' ∷ []) (take 8 (print_d threadunique)) in
    let front = length-append pre (b'@' ∷ []) in
    let digits_left = length-take 8 (print_d threadunique) in
    let few = length-print_d threadunique lt in
    (λ h. few.0 (omega arith), λ h. let short = few.1 h in omega arith)
