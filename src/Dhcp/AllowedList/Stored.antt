-- ===== src/Dhcp/AllowedList/Stored.antt =====
-- Entries of the allowed list as the settings hold them, and what their fields do not hold.
use dhcpserver.Base.{
  is_empty, ℕ, zero, suc, ◌/◌, ◌%◌, ◌<◌, ◌≡◌, ◌⊎◌, inl, refl, sym, ap, ◌∙◌, true, false, List, [],
  ◌∷◌, ◌++◌, ◌==◌, take, map, arith, is_free,
}
use dhcpserver.Dhcp.Mac.{
  IsMac, AllBytes, is_space, hex_char, format_mac, normalize_mac, parse_mac-format_mac,
}
use dhcpserver.Dhcp.AllowedList.{AllowedComputer}
use dhcpserver.Dhcp.AllowedList.Codec.{
  max_name_len, trim_begin, trim, blanked, storage_field_text, sanitize_name,
}

-- An entry as the settings hold it: the address in its printed form, and a name that its cleaning
-- leaves as it is.
pub record IsStored (e : AllowedComputer) : Type 0 where
  pub bytes : List ℕ
  pub address : IsMac bytes
  pub printed : e.mac ≡ format_mac bytes
  pub clean : sanitize_name e.name ≡ e.name

unfoldable pub AllStored : List AllowedComputer → Type 0
AllStored [] = Unit {0}
AllStored (e ∷ es) = IsStored e × AllStored es

pub is_free-append :
    (sep : ℕ) (xs ys : List ℕ)
    → is_free sep xs ≡ true
    → is_free sep ys ≡ true
    → is_free sep (xs ++ ys) ≡ true
is_free-append sep [] ys h k = k
is_free-append sep (x ∷ xs) ys h k =
    let others : is_free sep xs ≡ true = ground (arith, h) in
    ground (arith, h, is_free-append sep xs ys others k)

-- A printed address holds no separator and no space.
hex_char-free :
    (sep v : ℕ)
    → v < 16
    → (sep < 48) ⊎ (102 < sep)
    → ((hex_char v == sep) ≡ false) × (is_space (hex_char v) ≡ false)
unfolding hex_char
hex_char-free sep v h o = (ground (arith, h, o), ground (arith, h))

pub is_free-format_mac :
    (sep : ℕ) (bs : List ℕ)
    → (sep < 48) ⊎ (102 < sep)
    → AllBytes bs
    → is_free sep (format_mac bs) ≡ true
unfolding format_mac
is_free-format_mac sep [] o h = refl
is_free-format_mac sep (b ∷ []) o (h, hs) =
    let high = (hex_char-free sep (b / 16) (omega (arith, h)) o).0 in
    let low = (hex_char-free sep (b % 16) (omega arith) o).0 in rw (high, low) refl
is_free-format_mac sep (b ∷ c ∷ bs) o (h, hs) =
    let high = (hex_char-free sep (b / 16) (omega (arith, h)) o).0 in
    let low = (hex_char-free sep (b % 16) (omega arith) o).0 in
    let colon : (b':' == sep) ≡ false = ground (arith, o) in
    rw (high, low, colon, is_free-format_mac sep (c ∷ bs) o hs) refl

pub trim_begin-format_mac :
    (bs rest : List ℕ) → IsMac bs → trim_begin (format_mac bs ++ rest) ≡ format_mac bs ++ rest
trim_begin-format_mac [] rest v = absurd (omega (arith, v.size))
trim_begin-format_mac (b ∷ []) rest v = absurd (omega (arith, v.size))
trim_begin-format_mac (b ∷ c ∷ bs) rest v =
    let solid = (hex_char-free 10 (b / 16) (omega (arith, v.bytes.0)) (inl (omega arith))).1 in
    unfold trim_begin format_mac in rw solid refl

pub is_empty-format_mac : (bs : List ℕ) → IsMac bs → is_empty (format_mac bs) ≡ false
is_empty-format_mac [] v = absurd (omega (arith, v.size))
is_empty-format_mac (b ∷ []) v = absurd (omega (arith, v.size))
is_empty-format_mac (b ∷ c ∷ bs) v = unfold format_mac in refl

pub normalize_mac-format_mac :
    (bs : List ℕ) → IsMac bs → normalize_mac (format_mac bs) ≡ format_mac bs
unfolding normalize_mac
normalize_mac-format_mac bs v = rw (parse_mac-format_mac bs v, normalize_mac) refl

-- A cleaned name holds no separator.
is_free-blanked :
    (sep : ℕ) (xs : List ℕ) → (sep ≡ 10) ⊎ (sep ≡ b'|') → is_free sep (map blanked xs) ≡ true
is_free-blanked sep [] o = refl
is_free-blanked sep (x ∷ xs) o =
    let here : (blanked x == sep) ≡ false = ground (arith, o) in
    rw (here, is_free-blanked sep xs o) refl

is_free-take : (sep n : ℕ) (xs : List ℕ) → is_free sep xs ≡ true → is_free sep (take n xs) ≡ true
is_free-take sep zero xs h = refl
is_free-take sep (suc n) [] h = refl
is_free-take sep (suc n) (x ∷ xs) h =
    let others : is_free sep xs ≡ true = ground (arith, h) in
    ground (arith, h, is_free-take sep n xs others)

pub is_free-name :
    (sep : ℕ) (name : List ℕ)
    → (sep ≡ 10) ⊎ (sep ≡ b'|')
    → sanitize_name name ≡ name
    → is_free sep name ≡ true
unfolding sanitize_name storage_field_text
is_free-name sep name o clean =
    ap (is_free sep) (sym clean)
    ∙ is_free-take sep max_name_len (map blanked (trim name)) (is_free-blanked sep (trim name) o)
