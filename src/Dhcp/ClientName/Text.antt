-- ===== src/Dhcp/ClientName/Text.antt =====
-- The text that the sanitizer of src/dhcp/DhcpClientName.cpp keeps of a name: printable ASCII and
-- lead bytes with the continuation bytes that they announce.
use dhcpserver.Base.{
  ℕ, ◌≤◌, ◌<◌, ◌≡◌, ◌≢◌, ◌⊎◌, inl, inr, true, ◌&&◌, List, [], ◌∷◌, ◌++◌, ltb, leb, take, arith,
  Bool-cases,
}
use dhcpserver.Dhcp.ClientName.{char_len, keeps}

-- A byte that continues a UTF-8 sequence.
abbrev pub Continues : ℕ → Type 0
Continues d = (128 ≤ d) × (d < 192)

-- Printable ASCII without the separator, and sequences of two to four bytes with the lead bytes of
-- UTF-8. Behind a lead any continuation byte may stand, as in the code: overlong forms of three and
-- four bytes, surrogates, values past U+10FFFF and the control characters from U+0080 on are texts.
pub data IsText : List ℕ → Type 0 where
  ended : IsText []
  ascii : {c : ℕ} {cs : List ℕ} → 32 ≤ c → c < 127 → c ≢ b'|' → IsText cs → IsText (c ∷ cs)
  two : {c d : ℕ} {cs : List ℕ} → 194 ≤ c → c ≤ 223 → Continues d → IsText cs → IsText (c ∷ d ∷ cs)
  three :
      {c d e : ℕ} {cs : List ℕ}
      → 224 ≤ c
      → c ≤ 239
      → Continues d
      → Continues e
      → IsText cs
      → IsText (c ∷ d ∷ e ∷ cs)
  four :
      {c d e f : ℕ} {cs : List ℕ}
      → 240 ≤ c
      → c ≤ 244
      → Continues d
      → Continues e
      → Continues f
      → IsText cs
      → IsText (c ∷ d ∷ e ∷ f ∷ cs)

-- The character that a kept byte leads, with its length.
pub data Lead : ℕ → List ℕ → Type 0 where
  lead_ascii : {c : ℕ} {rest : List ℕ} → char_len c ≡ 1 → 32 ≤ c → c < 127 → c ≢ b'|' → Lead c rest
  lead_two :
      {c d : ℕ} {rest : List ℕ}
      → char_len c ≡ 2
      → 194 ≤ c
      → c ≤ 223
      → Continues d
      → Lead c (d ∷ rest)
  lead_three :
      {c d e : ℕ} {rest : List ℕ}
      → char_len c ≡ 3
      → 224 ≤ c
      → c ≤ 239
      → Continues d
      → Continues e
      → Lead c (d ∷ e ∷ rest)
  lead_four :
      {c d e f : ℕ} {rest : List ℕ}
      → char_len c ≡ 4
      → 240 ≤ c
      → c ≤ 244
      → Continues d
      → Continues e
      → Continues f
      → Lead c (d ∷ e ∷ f ∷ rest)

range_cases :
    (c : ℕ) (rest : List ℕ)
    → keeps c rest ≡ true
    → ((32 ≤ c) × (c < 127) × (c ≢ b'|'))
      ⊎ ((194 ≤ c) × (c ≤ 223))
      ⊎ ((224 ≤ c) × (c ≤ 239))
      ⊎ ((240 ≤ c) × (c ≤ 244))
unfolding keeps
range_cases c rest k = elim (Bool-cases (leb 32 c && ltb c 127)) [
  | inl a ↦ inl (ground arith, ground arith, ground arith)
  | inr a ↦ elim (Bool-cases (leb 194 c && leb c 223)) [
    | inl b ↦ inr (inl (ground arith, ground arith))
    | inr b ↦ elim (Bool-cases (leb 224 c && leb c 239)) [
      | inl d ↦ inr (inr (inl (ground arith, ground arith)))
      | inr d ↦ inr (inr (inr (ground arith, ground arith)))
    ]
  ]
]

pub Lead-keeps : (c : ℕ) (rest : List ℕ) → keeps c rest ≡ true → Lead c rest
unfolding keeps char_len
Lead-keeps c [] k = elim (range_cases c [] k) [
  | inl a ↦ lead_ascii (ground arith) a.0 a.1 a.2
  | inr (inl a) ↦ absurd (ground arith)
  | inr (inr (inl a)) ↦ absurd (ground arith)
  | inr (inr (inr a)) ↦ absurd (ground arith)
]
Lead-keeps c (d ∷ []) k = elim (range_cases c (d ∷ []) k) [
  | inl a ↦ lead_ascii (ground arith) a.0 a.1 a.2
  | inr (inl a) ↦ lead_two (ground arith) a.0 a.1 (ground arith)
  | inr (inr (inl a)) ↦ absurd (ground arith)
  | inr (inr (inr a)) ↦ absurd (ground arith)
]
Lead-keeps c (d ∷ e ∷ []) k = elim (range_cases c (d ∷ e ∷ []) k) [
  | inl a ↦ lead_ascii (ground arith) a.0 a.1 a.2
  | inr (inl a) ↦ lead_two (ground arith) a.0 a.1 (ground arith)
  | inr (inr (inl a)) ↦ lead_three (ground arith) a.0 a.1 (ground arith) (ground arith)
  | inr (inr (inr a)) ↦ absurd (ground arith)
]
Lead-keeps c (d ∷ e ∷ f ∷ rest) k = elim (range_cases c (d ∷ e ∷ f ∷ rest) k) [
  | inl a ↦ lead_ascii (ground arith) a.0 a.1 a.2
  | inr (inl a) ↦ lead_two (ground arith) a.0 a.1 (ground arith)
  | inr (inr (inl a)) ↦ lead_three (ground arith) a.0 a.1 (ground arith) (ground arith)
  | inr (inr (inr a)) ↦
      lead_four (ground arith) a.0 a.1 (ground arith) (ground arith) (ground arith)
]

pub join_char :
    (c : ℕ) (rest cs : List ℕ)
    → Lead c rest
    → IsText cs
    → IsText (take (char_len c) (c ∷ rest) ++ cs)
join_char c rest cs (lead_ascii q l h n) t = rw q (ascii l h n t)
join_char c (d ∷ rest) cs (lead_two q l h x) t = rw q (two l h x t)
join_char c (d ∷ e ∷ rest) cs (lead_three q l h x y) t = rw q (three l h x y t)
join_char c (d ∷ e ∷ f ∷ rest) cs (lead_four q l h x y z) t = rw q (four l h x y z t)

-- What stays of a text when its last ASCII byte is cut off is a text.
pub IsText-init : (c : ℕ) (xs ys : List ℕ) → c < 128 → IsText ys → ys ≡ xs ++ (c ∷ []) → IsText xs
IsText-init c [] ys h t e = ended
IsText-init c (x ∷ xs) [] h ended e = absurd (cc e)
IsText-init c (x ∷ xs) (a ∷ cs) h (ascii l u n t) e =
    let at_a : a ≡ x = cc e in
    ascii (omega arith) (omega arith) (ground arith) (IsText-init c xs cs h t (cc e))
IsText-init c (x ∷ []) (a ∷ d ∷ cs) h (two l u p t) e =
    let at_d : d ≡ c = cc e in absurd (omega arith)
IsText-init c (x ∷ y ∷ xs) (a ∷ d ∷ cs) h (two l u p t) e =
    let at_a : a ≡ x = cc e in
    let at_d : d ≡ y = cc e in
    two (omega arith) (omega arith) (omega arith, omega arith) (IsText-init c xs cs h t (cc e))
IsText-init c (x ∷ []) (a ∷ d ∷ f ∷ cs) h (three l u p q t) e = absurd (cc e)
IsText-init c (x ∷ y ∷ []) (a ∷ d ∷ f ∷ cs) h (three l u p q t) e =
    let at_f : f ≡ c = cc e in absurd (omega arith)
IsText-init c (x ∷ y ∷ z ∷ xs) (a ∷ d ∷ f ∷ cs) h (three l u p q t) e =
    let at_a : a ≡ x = cc e in
    let at_d : d ≡ y = cc e in
    let at_f : f ≡ z = cc e in
    three (omega arith) (omega arith) (omega arith, omega arith) (omega arith, omega arith)
      (IsText-init c xs cs h t (cc e))
IsText-init c (x ∷ []) (a ∷ d ∷ f ∷ g ∷ cs) h (four l u p q r t) e = absurd (cc e)
IsText-init c (x ∷ y ∷ []) (a ∷ d ∷ f ∷ g ∷ cs) h (four l u p q r t) e = absurd (cc e)
IsText-init c (x ∷ y ∷ z ∷ []) (a ∷ d ∷ f ∷ g ∷ cs) h (four l u p q r t) e =
    let at_g : g ≡ c = cc e in absurd (omega arith)
IsText-init c (x ∷ y ∷ z ∷ w ∷ xs) (a ∷ d ∷ f ∷ g ∷ cs) h (four l u p q r t) e =
    let at_a : a ≡ x = cc e in
    let at_d : d ≡ y = cc e in
    let at_f : f ≡ z = cc e in
    let at_g : g ≡ w = cc e in
    four (omega arith) (omega arith) (omega arith, omega arith) (omega arith, omega arith)
      (omega arith, omega arith) (IsText-init c xs cs h t (cc e))
