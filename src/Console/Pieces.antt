-- ===== src/Console/Pieces.antt =====
-- Strings that are appended to a buffer, one behind the other.
use rpi_rt_ether_cat_slave_i.Common.{
  leb, Bool-cases, inl, inr, subst, ℕ, suc, ◌+◌, ◌-◌, ◌≤◌, ◌≡◌, refl, sym, ◌∙◌, ap, List, [], ◌∷◌,
  ◌++◌, ltb, true, false, done, fault, M, ◌>>◌, >>=-done, >>=-fault, length, take, drop, arith,
  append_assoc, append-nil, length-append,
}
use rpi_rt_ether_cat_slave_i.Word.{overwrite}
use rpi_rt_ether_cat_slave_i.ThreadName.{c_string, padded, strncpy, strncat}
use rpi_rt_ether_cat_slave_i.ThreadName.Laws.{
  NoZero, c_string-append, NoZero-append, take_of_le, length-drop, length-padded, padded-append,
  overwrite-within,
}
use rpi_rt_ether_cat_slave_i.Console.{append, copy}

-- A buffer of 256 bytes that holds the string `s`.
pub record Holds (b s : List ℕ) : Type 0 where
  pub rest : List ℕ
  pub content : b ≡ s ++ 0 ∷ rest
  pub room : length s + 1 + length rest ≡ 256
  pub clean : NoZero s

pub Holds-c_string : {b s : List ℕ} → Holds b s → c_string b ≡ s
Holds-c_string h = ap c_string h.content ∙ c_string-append _ h.rest h.clean

pub Holds-length : {b s : List ℕ} → Holds b s → length b ≡ 256
Holds-length {b} {s} h = ap length h.content ∙ length-append s (0 ∷ h.rest) ∙ omega (arith, h.room)

-- a piece that can be appended
abbrev pub IsPiece : List ℕ → Type 0
IsPiece x = NoZero x × (length x ≤ 255)

module _ {b s : List ℕ} (x : List ℕ) (h : Holds b s) (piece : IsPiece x) where
  left : List ℕ
  left = drop (length (x ++ 0 ∷ [])) (0 ∷ h.rest)

  strncat-append : length s + length x ≤ 255 → strncat b x 255 ≡ (s ++ x) ++ 0 ∷ left
  unfolding left
  strncat-append fits =
      ap (λ n. overwrite b n (take 255 x ++ 0 ∷ [])) (ap length (Holds-c_string h))
      ∙ ap (λ t. overwrite b (length s) (t ++ 0 ∷ [])) (take_of_le 255 x piece.1)
      ∙ ap (λ l. overwrite l (length s) (x ++ 0 ∷ [])) h.content
      ∙ overwrite-within s (0 ∷ h.rest) (x ++ 0 ∷ []) (length s) refl
          (omega (arith, length-append x (0 ∷ []), h.room))
      ∙ ap (λ l. s ++ l) (append_assoc x (0 ∷ []) (drop (length (x ++ 0 ∷ [])) (0 ∷ h.rest)))
      ∙ sym (append_assoc s x (0 ∷ drop (length (x ++ 0 ∷ [])) (0 ∷ h.rest)))

  length-left : length s + length x ≤ 255 → length (s ++ x) + 1 + length left ≡ 256
  unfolding left
  length-left fits = omega (
    arith,
    h.room,
    length-append s x,
    length-append x (0 ∷ []),
    length-drop (length (x ++ 0 ∷ [])) (255 - (length s + length x)) (0 ∷ h.rest)
        (omega (arith, h.room, length-append x (0 ∷ []))),
  )

  append-fits :
      length s + length x ≤ 255 → (b' : List ℕ) × (append x 255 b ≡ done tt b') × Holds b' (s ++ x)
  unfolding append
  append-fits fits =
      let test : ltb (length (c_string b) + length (take 255 x)) (length b) ≡ true =
        ground (arith, take_of_le 255 x piece.1, Holds-length h, Holds-c_string h) in
      (
        strncat b x 255,
        rw (test) refl,
        record {
          rest = left;
          content = strncat-append fits;
          room = length-left fits;
          clean = NoZero-append s x h.clean piece.0;
        },
      )

  append-overflows : 256 ≤ length s + length x → append x 255 b ≡ fault
  unfolding append
  append-overflows over =
      let test : ltb (length (c_string b) + length (take 255 x)) (length b) ≡ false =
        ground (arith, take_of_le 255 x piece.1, Holds-length h, Holds-c_string h) in
      rw (test) refl

-- A short string, copied with zeros behind it.
pub copy-Holds :
    (b src : List ℕ) (n : ℕ)
    → length b ≡ 256
    → NoZero src
    → length src + n + 1 ≡ 255
    → (b' : List ℕ) × (copy src 255 b ≡ done tt b') × Holds b' src
unfolding copy
copy-Holds b src n size clean short =
    let test : leb 255 (length b) ≡ true = ground arith in
    let filled : padded 255 src ≡ src ++ 0 ∷ padded n [] =
      ap (padded 255) (sym (append-nil src)) ∙ padded-append (suc n) src [] 255 (omega arith) in
    let whole : strncpy b src 255 ≡ padded 255 src ++ drop 255 b =
      overwrite-within [] b (padded 255 src) 0 refl (omega (arith, length-padded 255 src))
      ∙ ap (λ k. padded 255 src ++ drop k b) (length-padded 255 src) in
    (
      strncpy b src 255,
      rw (test) refl,
      record {
        rest = padded n [] ++ drop 255 b;
        content =
            whole
            ∙ ap (λ l. l ++ drop 255 b) filled
            ∙ append_assoc src (0 ∷ padded n []) (drop 255 b);
        room = omega (
          arith,
          length-append (padded n []) (drop 255 b),
          length-padded n [],
          length-drop 255 1 b (omega arith),
        );
        clean = clean;
      },
    )

-- The pieces in a row, and what follows them.
abbrev pub append_then : {A : Type 0} → List (List ℕ) → M (List ℕ) A → M (List ℕ) A
append_then [] k = k
append_then (x ∷ xs) k = append x 255 >> append_then xs k

abbrev pub concat : List (List ℕ) → List ℕ
concat [] = []
concat (x ∷ xs) = x ++ concat xs

abbrev pub ArePieces : List (List ℕ) → Type 0
ArePieces [] = Unit {0}
ArePieces (x ∷ xs) = IsPiece x × ArePieces xs

pub append_then-fits :
    {A : Type 0} (xs : List (List ℕ)) (k : M (List ℕ) A) {b s : List ℕ}
    → Holds b s
    → ArePieces xs
    → length s + length (concat xs) ≤ 255
    → (b' : List ℕ) × (append_then xs k b ≡ k b') × Holds b' (s ++ concat xs)
append_then-fits [] k {b} {s} h pieces fits =
    (b, refl, subst (λ l. Holds b l) (sym (append-nil s)) h)
append_then-fits (x ∷ xs) k {b} {s} h pieces fits =
    let (b1, e1, h1) = append-fits x h pieces.0 (omega (arith, length-append x (concat xs))) in
    let (b2, e2, h2) =
      append_then-fits xs k h1 pieces.1
        (omega (arith, length-append x (concat xs), length-append s x)) in
    (
      b2,
      >>=-done (append x 255) (λ u. append_then xs k) b e1 ∙ e2,
      subst (λ l. Holds b2 l) (append_assoc s x (concat xs)) h2,
    )

pub append_then-overflows :
    {A : Type 0} (xs : List (List ℕ)) (k : M (List ℕ) A) {b s : List ℕ}
    → Holds b s
    → ArePieces xs
    → length s ≤ 255
    → 256 ≤ length s + length (concat xs)
    → append_then xs k b ≡ fault
append_then-overflows [] k h pieces small over = absurd (omega arith)
append_then-overflows (x ∷ xs) k {b} {s} h pieces small over =
    elim (Bool-cases (ltb (length s + length x) 256)) [
      | inl e ↦
          let fits : length s + length x ≤ 255 = ground arith in
          let (b1, e1, h1) = append-fits x h pieces.0 fits in
          >>=-done (append x 255) (λ u. append_then xs k) b e1
          ∙ append_then-overflows xs k h1 pieces.1 (omega (arith, length-append s x))
              (omega (arith, length-append x (concat xs), length-append s x))
      | inr e ↦
          >>=-fault (append x 255) (λ u. append_then xs k) b
            (append-overflows x h pieces.0 (ground arith))
    ]
