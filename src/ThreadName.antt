-- ===== src/ThreadName.antt =====
-- thread/src/thread.cpp: fix_threadname. A C string is the bytes of its buffer up to the first 0.
pub mod Laws
mod Tests
use rpi_rt_ether_cat_slave_i.Common.{
  ℕ, zero, suc, ◌+◌, ◌-◌, ◌/◌, ◌%◌, ◌^◌, List, [], ◌∷◌, ◌++◌, if◌then◌else◌, ltb, ◌==◌, length,
  take, set,
}
use rpi_rt_ether_cat_slave_i.Word.{overwrite}

abbrev pub c_string : List ℕ → List ℕ
c_string [] = []
c_string (x ∷ xs) = if x == 0 then [] else x ∷ c_string xs

-- `n` bytes: the string, filled up with zeros
abbrev pub padded : ℕ → List ℕ → List ℕ
padded zero xs = []
padded (suc n) [] = 0 ∷ padded n []
padded (suc n) (x ∷ xs) = x ∷ padded n xs

abbrev pub strncpy : List ℕ → List ℕ → ℕ → List ℕ
strncpy dest src n = overwrite dest 0 (padded n src)

abbrev pub strncat : List ℕ → List ℕ → ℕ → List ℕ
strncat dest src n = overwrite dest (length (c_string dest)) (take n src ++ 0 ∷ [])

-- decimal digits of a number in front of `acc`, on fuel; 10 digits hold every `unsigned int`
unfoldable pub digits : ℕ → ℕ → List ℕ → List ℕ
digits zero n acc = acc
digits (suc f) n acc =
    let rest = digits f (n / 10) ((b'0' + n % 10) ∷ acc) in
    if ltb n 10 then (b'0' + n) ∷ acc else rest

-- what `%d` prints for the bits of an `unsigned int`
unfoldable pub print_d : ℕ → List ℕ
unfolding digits
print_d x = if ltb x (2 ^ 31) then digits 10 x [] else b'-' ∷ digits 10 (2 ^ 32 - x) []

-- The name returned, and the new value of `s_threadunique`.
unfoldable pub fix_threadname : List ℕ → List ℕ → ℕ → ℕ → List ℕ × ℕ
unfolding print_d
fix_threadname cname buffer maxsize threadunique =
    if ltb 12 (length cname)
    then (let copied = strncpy buffer cname (maxsize - 1) in
        let cut = set (set copied 11 b'@') 12 0 in
        let next = (threadunique + 1) % 2 ^ 32 in
        let temp = take 8 (print_d ((next + 2 ^ 32 - 1) % 2 ^ 32)) in
        (c_string (strncat cut temp (maxsize - 1)), next))
    else (cname, threadunique)
