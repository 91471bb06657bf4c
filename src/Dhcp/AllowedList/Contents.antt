-- ===== src/Dhcp/AllowedList/Contents.antt =====
-- What an entry of the list puts into the table.
use dhcpserver.Base.{
  ℕ, ◌+◌, ◌≤◌, ◌<◌, ◌≡◌, refl, subst, ◌∙◌, ◌≢◌, ◌⊎◌, inl, inr, Bool, true, false, ◌&&◌, ◌||◌, List,
  ap, [], ◌∷◌, Option, none, some, set, length, length-set, bytes_eq, bytes_eq_iff, Bool-cases,
  Option-cases, arith, get_or-set_self, get_or-set_ne, leb, ◌==◌,
}
use dhcpserver.Dhcp.Mac.{parse_mac}
use dhcpserver.Dhcp.AllowedList.{
  Slot, AllowedComputer, Filling, slot_count, max_entries, empty_slot, slot_at, home, free_slot,
  contains_from, insert_entry,
}
use dhcpserver.Dhcp.AllowedList.Probing.{
  stored_slot, Stored, contains_from-Stored, contains_from-set, free_from-contains, used_count,
  used_count-set, free_slot-none,
}

abbrev pub finds : List Slot → List ℕ → Bool
finds table mac = contains_from slot_count table (home mac) mac

-- The table has its size, every address in it is found by a look-up, and the number of slots in
-- use is the number of insertions, which the limit bounds.
pub record IsFilled (f : Filling) : Type 0 where
  pub size : length f.table ≡ slot_count
  pub found : (mac : List ℕ) → Stored f.table mac → finds f.table mac ≡ true
  pub counted : used_count f.table ≡ f.inserted
  pub bounded : f.inserted ≤ max_entries

module _ (table : List Slot) (size : length table ≡ slot_count) (new : List ℕ) (p : ℕ)
    (free : free_slot table new ≡ some p) where
  taken :
      ((slot_at table p).used ≡ false)
      × (p < slot_count)
      × (finds (set table p (stored_slot new)) new ≡ true)
  unfolding free_slot
  taken = free_from-contains slot_count table (home new) p new (omega arith) size free

  Stored-after :
      (mac : List ℕ) → Stored (set table p (stored_slot new)) mac → (new ≡ mac) ⊎ Stored table mac
  Stored-after mac (i, b, u, m) = elim (Bool-cases (i == p)) [
    | inl e ↦
        let q : i ≡ p = ground arith in
        inl (ground (arith, q, get_or-set_self table p (stored_slot new) empty_slot, taken.1))
    | inr e ↦
        let apart : p ≢ i = ground arith in
        let same = get_or-set_ne table p i (stored_slot new) empty_slot apart in
        inr (i, b, rw same at u, rw same at m)
  ]

  found_new : (mac : List ℕ) → new ≡ mac → finds (set table p (stored_slot new)) mac ≡ true
  found_new mac e = subst (λ m. finds (set table p (stored_slot new)) m ≡ true) e taken.2

  found_old :
      (mac : List ℕ) → finds table mac ≡ true → finds (set table p (stored_slot new)) mac ≡ true
  found_old mac =
      contains_from-set slot_count table (home mac) p mac new taken.0 (omega (arith, taken.1, size))

  insert_found :
      ((mac : List ℕ) → Stored table mac → finds table mac ≡ true)
      → (mac : List ℕ) → Stored (set table p (stored_slot new)) mac
      → finds (set table p (stored_slot new)) mac ≡ true
  insert_found found mac s = elim (Stored-after mac s) [
    | inl e ↦ found_new mac e
    | inr old ↦ found_old mac (found mac old)
  ]

  nothing_else :
      ((mac : List ℕ) → Stored table mac → finds table mac ≡ true)
      → (mac : List ℕ) → finds table mac ≡ false
      → bytes_eq new mac ≡ false
      → finds (set table p (stored_slot new)) mac ≡ true
      → ⊥
  nothing_else found mac old e y =
      elim (Stored-after mac (contains_from-Stored slot_count _ (home mac) mac (omega arith) y)) [
        | inl q ↦ cc ((bytes_eq_iff new mac).1 q)
        | inr s ↦ cc (found mac s)
      ]

  -- An insertion adds the new address to what the table finds, and nothing else.
  insert_finds :
      ((mac : List ℕ) → Stored table mac → finds table mac ≡ true)
      → (mac : List ℕ)
      → finds (set table p (stored_slot new)) mac ≡ (finds table mac || bytes_eq new mac)
  insert_finds found mac = elim (Bool-cases (finds table mac)) [
    | inl old ↦ rw (found_old mac old, old) refl
    | inr old ↦ elim (Bool-cases (bytes_eq new mac)) [
      | inl e ↦ rw (found_new mac ((bytes_eq_iff new mac).0 e), old, e) refl
      | inr e ↦ elim (Bool-cases (finds (set table p (stored_slot new)) mac)) [
        | inr n ↦ rw (n, old, e) refl
        | inl y ↦ absurd (nothing_else found mac old e y)
      ]
    ]
  ]

abbrev pub names : Option (List ℕ) → List ℕ → Bool
names none mac = false
names (some m) mac = bytes_eq m mac

-- An enabled entry of the list names the address.
unfoldable pub lists : List AllowedComputer → List ℕ → Bool
lists [] mac = false
lists (entry ∷ rest) mac = (entry.enabled && names (parse_mac entry.mac) mac) || lists rest mac

-- The ways through one round of the loop.
pub data Inserted (f : Filling) (entry : AllowedComputer) : Filling → Type 0 where
  off : entry.enabled ≡ false → Inserted f entry f
  damaged : parse_mac entry.mac ≡ none → Inserted f entry (record f { dropped = f.dropped + 1 })
  full : max_entries ≤ f.inserted → Inserted f entry (record f { dropped = f.dropped + 1 })
  refused :
      (mac : List ℕ)
      → parse_mac entry.mac ≡ some mac
      → free_slot f.table mac ≡ none
      → Inserted f entry (record f { dropped = f.dropped + 1 })
  placed :
      (mac : List ℕ) (p : ℕ)
      → entry.enabled ≡ true
      → parse_mac entry.mac ≡ some mac
      → f.inserted < max_entries
      → free_slot f.table mac ≡ some p
      → Inserted f entry
          (record f { table = set f.table p (stored_slot mac); inserted = f.inserted + 1 })

pub Inserted-insert_entry :
    (f : Filling) (entry : AllowedComputer) → Inserted f entry (insert_entry f entry)
unfolding insert_entry
Inserted-insert_entry f entry = elim (Bool-cases entry.enabled) [
  | inr e ↦ simp (e, insert_entry) (off e)
  | inl e ↦ elim (Option-cases (parse_mac entry.mac)) [
    | inl m ↦ simp (e, m, insert_entry) (damaged m)
    | inr (mac, m) ↦ elim (Bool-cases (leb max_entries f.inserted)) [
      | inl l ↦ simp (e, m, l, insert_entry) (full (ground arith))
      | inr l ↦ elim (Option-cases (free_slot f.table mac)) [
        | inl s ↦ simp (e, m, l, s, insert_entry) (refused mac m s)
        | inr (p, s) ↦ simp (e, m, l, s, insert_entry) (placed mac p e m (ground arith) s)
      ]
    ]
  ]
]

pub Inserted-IsFilled :
    {f g : Filling} {entry : AllowedComputer} → Inserted f entry g → IsFilled f → IsFilled g
Inserted-IsFilled (off e) v = v
Inserted-IsFilled (damaged m) v = record {
  size = v.size;
  found = v.found;
  counted = v.counted;
  bounded = v.bounded;
}
Inserted-IsFilled (full l) v = record {
  size = v.size;
  found = v.found;
  counted = v.counted;
  bounded = v.bounded;
}
Inserted-IsFilled (refused mac m s) v = record {
  size = v.size;
  found = v.found;
  counted = v.counted;
  bounded = v.bounded;
}
Inserted-IsFilled {f} (placed mac p e m l s) v =
    let free = taken f.table v.size mac p s in
    record {
      size = length-set f.table p (stored_slot mac) ∙ v.size;
      found = insert_found f.table v.size mac p s v.found;
      counted =
          used_count-set f.table p mac (omega (arith, free.1, v.size)) free.0
          ∙ ap (λ (n : ℕ). n + 1) v.counted;
      bounded = omega arith;
    }

abbrev pub entry_names : AllowedComputer → List ℕ → Bool
entry_names entry mac = entry.enabled && names (parse_mac entry.mac) mac

already :
    (table : List Slot) (new mac : List ℕ) (b : Bool)
    → finds table new ≡ true
    → finds table mac ≡ (finds table mac || (b && bytes_eq new mac))
already table new mac b h = elim (Bool-cases (bytes_eq new mac)) [
  | inl e ↦
      let found : finds table mac ≡ true =
        subst (λ m. finds table m ≡ true) ((bytes_eq_iff new mac).0 e) h in
      rw found refl
  | inr e ↦ rw e (ground arith)
]

-- While there is room, the table finds afterwards what it found before and what the entry names.
pub Inserted-finds :
    {f g : Filling} {entry : AllowedComputer}
    → Inserted f entry g
    → IsFilled f
    → f.inserted < max_entries
    → (mac : List ℕ) → finds g.table mac ≡ (finds f.table mac || entry_names entry mac)
Inserted-finds {f} (off e) v l mac = simp e (ground arith)
Inserted-finds {f} {entry = entry} (damaged m) v l mac = rw m (ground arith)
Inserted-finds (full h) v l mac = absurd (omega arith)
Inserted-finds {f} {entry = entry} (refused new m s) v l mac = rw m (
    already f.table new mac entry.enabled
      (free_slot-none f.table new v.size (omega (arith, v.counted)) s))
Inserted-finds {f} (placed new p e m k s) v l mac =
    simp (e, m) (insert_finds f.table v.size new p s v.found mac)
