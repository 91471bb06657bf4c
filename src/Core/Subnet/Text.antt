-- ===== src/Core/Subnet/Text.antt =====
-- Addresses printed and read back.
use mathlib.Core.List.{append-nil}
use dhcpserver.Base.{
  is_empty, ℕ, suc, ◌+◌, ◌-◌, ◌*◌, ◌/◌, ◌%◌, ◌<◌, ◌≡◌, refl, sym, ap, subst, ◌∙◌, inl, inr, true,
  false, ◌||◌, List, [], ◌∷◌, ◌++◌, some, ltb, leb, ◌==◌, length, length-append, u32_mod, arith,
  Bool-cases,
}
use dhcpserver.Core.Subnet.{
  is_space, is_digit, strip_begin, strip_end, octet, place, parts, parse_ip4, decimal, to_string,
}

octet-digit :
    (c : ℕ) (cs : List ℕ) (v d w : ℕ)
    → is_digit c ≡ true
    → d < 3
    → v * 10 + (c - 48) ≡ w
    → w < 256
    → octet (c ∷ cs) v d ≡ octet cs w (d + 1)
unfolding octet
octet-digit c cs v d w digit h e l =
    let short : (ltb 3 (d + 1) || ltb 255 w) ≡ false = ground arith in rw (e, digit, short) refl

-- The text goes on with something that is no digit.
abbrev Stops : List ℕ → Type 0
Stops rest = (v d : ℕ) → octet rest v d ≡ some (v, d, rest)

-- An octet is read up to the first character that is no digit.
octet-decimal :
    (n : ℕ) (rest : List ℕ)
    → n < 256
    → Stops rest
    → (d : ℕ) × (0 < d) × (octet (decimal n ++ rest) 0 0 ≡ some (n, d, rest))
unfolding decimal
octet-decimal n rest h stop = elim (Bool-cases (ltb n 10)) [
  | inl a ↦ (
    1,
    omega arith,
    rw a (octet-digit (48 + n) rest 0 0 n (ground arith) (omega arith) (omega arith) h ∙ stop n 1),
  )
  | inr a ↦ elim (Bool-cases (ltb n 100)) [
    | inl b ↦ (
      2,
      omega arith,
      rw (a, b)
          (octet-digit (48 + n / 10) _ 0 0 (n / 10) (ground arith) (omega arith) (omega arith)
              (ground arith)
            ∙ octet-digit (48 + n % 10) rest (n / 10) 1 n (ground arith) (omega arith) (omega arith)
                h
            ∙ stop n 2),
    )
    | inr b ↦ (
      3,
      omega arith,
      rw (a, b)
          (octet-digit (48 + n / 100) _ 0 0 (n / 100) (ground arith) (omega arith) (omega arith)
              (omega arith)
            ∙ octet-digit (48 + n / 10 % 10) _ (n / 100) 1 (n / 10) (ground arith) (omega arith)
                (omega arith) (omega arith)
            ∙ octet-digit (48 + n % 10) rest (n / 10) 2 n (ground arith) (omega arith) (omega arith)
                h
            ∙ stop n 3),
    )
  ]
]

Stops-end : Stops []
unfolding octet
Stops-end v d = refl

Stops-dot : (cs : List ℕ) → Stops (b'.' ∷ cs)
unfolding octet
Stops-dot cs v d = refl

is_empty-decimal : (n : ℕ) (rest : List ℕ) → is_empty (decimal n ++ rest) ≡ false
unfolding decimal
is_empty-decimal n rest = elim (Bool-cases (ltb n 10)) [
  | inl a ↦ rw a refl
  | inr a ↦ elim (Bool-cases (ltb n 100)) [ inl b ↦ rw (a, b) refl | inr b ↦ rw (a, b) refl ]
]

-- One round of the outer loop, over a part and a dot.
parts-part :
    (fuel n part addr : ℕ) (cs : List ℕ)
    → n < 256
    → part < 3
    → is_empty cs ≡ false
    → parts (suc fuel) (decimal n ++ (b'.' ∷ cs)) part addr
      ≡ parts fuel cs (part + 1) (place addr n part)
unfolding parts
parts-part fuel n part addr cs h p more =
    let (d, pos, e) = octet-decimal n (b'.' ∷ cs) h (Stops-dot cs) in
    let counted : (d == 0 || leb 4 part) ≡ false = ground arith in
    rw (e, parts) (rw (counted, more) refl)

parts-last :
    (fuel n addr : ℕ) → n < 256 → parts (suc fuel) (decimal n) 3 addr ≡ some (place addr n 3)
unfolding parts
parts-last fuel n addr h =
    let (d, pos, e) = octet-decimal n [] h Stops-end in
    let read = ap (λ t. octet t 0 0) (sym (append-nil (decimal n))) ∙ e in
    let counted : (d == 0 || leb 4 3) ≡ false = ground arith in rw (read, parts) (rw counted refl)

abbrev NoSpace : List ℕ → Type 0
NoSpace [] = Unit {0}
NoSpace (c ∷ cs) = (is_space c ≡ false) × NoSpace cs

strip_begin-NoSpace : (cs : List ℕ) → NoSpace cs → strip_begin cs ≡ cs
unfolding strip_begin
strip_begin-NoSpace [] s = refl
strip_begin-NoSpace (c ∷ cs) (s, rest) = rw s refl

strip_end-NoSpace : (cs : List ℕ) → NoSpace cs → strip_end cs ≡ cs
unfolding strip_end
strip_end-NoSpace [] s = refl
strip_end-NoSpace (c ∷ cs) (s, rest) = rw (s, strip_end-NoSpace cs rest) refl

NoSpace-decimal : (n : ℕ) (rest : List ℕ) → NoSpace rest → NoSpace (decimal n ++ rest)
unfolding decimal
NoSpace-decimal n rest s = elim (Bool-cases (ltb n 10)) [
  | inl a ↦ rw a (ground arith, s)
  | inr a ↦ elim (Bool-cases (ltb n 100)) [
    | inl b ↦ rw (a, b) (ground arith, (ground arith, s))
    | inr b ↦ rw (a, b) (ground arith, (ground arith, (ground arith, s)))
  ]
]

-- Four octets with dots between them.
abbrev dotted : ℕ → ℕ → ℕ → ℕ → List ℕ
dotted a b c d = decimal a ++ (b'.' ∷ (decimal b ++ (b'.' ∷ (decimal c ++ (b'.' ∷ decimal d)))))

NoSpace-dotted : (a b c d : ℕ) → NoSpace (dotted a b c d)
NoSpace-dotted a b c d = NoSpace-decimal a _ (
  refl,
  NoSpace-decimal b _ (
    refl,
    NoSpace-decimal c _ (refl, subst NoSpace (append-nil (decimal d)) (NoSpace-decimal d [] tt)),
  ),
)

length-decimal : (n : ℕ) → 0 < length (decimal n)
unfolding decimal
length-decimal n = elim (Bool-cases (ltb n 10)) [
  | inl a ↦ rw a (omega arith)
  | inr a ↦ elim (Bool-cases (ltb n 100)) [
    | inl b ↦ rw (a, b) (omega arith)
    | inr b ↦ rw (a, b) (omega arith)
  ]
]

length-dotted : (a b c d : ℕ) → 3 < length (dotted a b c d)
length-dotted a b c d = omega (
  arith,
  length-decimal a,
  length-append (decimal a) (b'.' ∷ (decimal b ++ (b'.' ∷ (decimal c ++ (b'.' ∷ decimal d))))),
  length-append (decimal b) (b'.' ∷ (decimal c ++ (b'.' ∷ decimal d))),
  length-append (decimal c) (b'.' ∷ decimal d),
)

parts-dotted :
    (fuel a b c d : ℕ)
    → a < 256
    → b < 256
    → c < 256
    → d < 256
    → parts (suc (suc (suc (suc fuel)))) (dotted a b c d) 0 0
      ≡ some (place (place (place (place 0 a 0) b 1) c 2) d 3)
parts-dotted fuel a b c d ha hb hc hd =
    parts-part _ a 0 0 _ ha (omega arith) (is_empty-decimal b _)
    ∙ parts-part _ b 1 _ _ hb (omega arith) (is_empty-decimal c _)
    ∙ parts-part _ c 2 _ _ hc (omega arith)
        (ap is_empty (sym (append-nil (decimal d))) ∙ is_empty-decimal d [])
    ∙ parts-last fuel d _ hd

parse_ip4-plain :
    (text : List ℕ)
    → NoSpace text
    → is_empty text ≡ false
    → parse_ip4 text ≡ parts (length text) text 0 0
unfolding parse_ip4
parse_ip4-plain text s filled =
    let inner = ap strip_end (strip_begin-NoSpace text s) ∙ strip_end-NoSpace text s in
    rw (inner, filled) refl

parse_ip4-dotted :
    (a b c d : ℕ)
    → a < 256
    → b < 256
    → c < 256
    → d < 256
    → parse_ip4 (dotted a b c d) ≡ some (a * 16777216 + b * 65536 + c * 256 + d)
parse_ip4-dotted a b c d ha hb hc hd =
    let text = dotted a b c d in
    let fuel : length text ≡ suc (suc (suc (suc (length text - 4)))) =
      omega (arith, length-dotted a b c d) in
    let total : place (place (place (place 0 a 0) b 1) c 2) d 3
        ≡ a * 16777216 + b * 65536 + c * 256 + d =
      omega arith in
    parse_ip4-plain text (NoSpace-dotted a b c d) (is_empty-decimal a _)
    ∙ ap (λ f. parts f text 0 0) fuel
    ∙ parts-dotted (length text - 4) a b c d ha hb hc hd
    ∙ ap (λ x. some x) total

-- An address that is printed is read back as itself, whatever the address.
pub parse_ip4-to_string : (addr : ℕ) → addr < u32_mod → parse_ip4 (to_string addr) ≡ some addr
unfolding to_string
parse_ip4-to_string addr h =
    let whole : addr / 16777216 % 256 * 16777216
          + addr / 65536 % 256 * 65536
          + addr / 256 % 256 * 256
          + addr % 256
        ≡ addr =
      omega arith in
    parse_ip4-dotted (addr / 16777216 % 256) (addr / 65536 % 256) (addr / 256 % 256) (addr % 256)
      (omega arith) (omega arith) (omega arith) (omega arith)
    ∙ ap (λ x. some x) whole
