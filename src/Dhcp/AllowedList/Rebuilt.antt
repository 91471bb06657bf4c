-- ===== src/Dhcp/AllowedList/Rebuilt.antt =====
-- What the rebuilt table contains, against the list that it was built from.
use dhcpserver.Base.{
  ℕ, ◌+◌, ◌≤◌, ◌≡◌, refl, ◌∙◌, inl, inr, Bool, true, false, ◌||◌, List, [], ◌∷◌, length,
  length-replicate, get_or-replicate, Bool-cases, arith,
}
use dhcpserver.Dhcp.AllowedList.{
  AllowedList, AllowedComputer, Filling, slot_count, max_entries, empty_slot, slot_at, home,
  contains_from, contains, cleared, insert_entry, fill, rebuild,
}
use dhcpserver.Dhcp.AllowedList.Probing.{used_count}
use dhcpserver.Dhcp.AllowedList.Contents.{
  finds, IsFilled, lists, Inserted, Inserted-insert_entry, Inserted-IsFilled, entry_names,
  Inserted-finds, off, damaged, full, refused, placed,
}

fill-IsFilled : (f : Filling) (list : List AllowedComputer) → IsFilled f → IsFilled (fill f list)
unfolding fill
fill-IsFilled f [] v = v
fill-IsFilled f (entry ∷ rest) v =
    fill-IsFilled (insert_entry f entry) rest (Inserted-IsFilled (Inserted-insert_entry f entry) v)

Inserted-inserted :
    {f g : Filling} {entry : AllowedComputer} → Inserted f entry g → g.inserted ≤ f.inserted + 1
Inserted-inserted (off e) = omega arith
Inserted-inserted (damaged m) = omega arith
Inserted-inserted (full h) = omega arith
Inserted-inserted (refused new m s) = omega arith
Inserted-inserted (placed new p e m k s) = omega arith

fill-finds :
    (f : Filling) (list : List AllowedComputer)
    → IsFilled f
    → f.inserted + length list ≤ max_entries
    → (mac : List ℕ) → finds (fill f list).table mac ≡ (finds f.table mac || lists list mac)
unfolding fill lists
fill-finds f [] v h mac = ground arith
fill-finds f (entry ∷ rest) v h mac =
    let i = Inserted-insert_entry f entry in
    rw
      (
        fill-finds (insert_entry f entry) rest (Inserted-IsFilled i v)
            (omega (arith, Inserted-inserted i)) mac,
        Inserted-finds i v (omega arith) mac,
      )
      (or_assoc (finds f.table mac) (entry_names entry mac) (lists rest mac))
  where
    or_assoc : (a b c : Bool) → ((a || b) || c) ≡ (a || (b || c))
    or_assoc a b c = ground arith

abbrev start : Filling
start = record { table = cleared; inserted = 0; dropped = 0 }

slot_at-cleared : (i : ℕ) → slot_at cleared i ≡ empty_slot
slot_at-cleared i = get_or-replicate slot_count i empty_slot

start_finds : (mac : List ℕ) → finds cleared mac ≡ false
unfolding contains_from
start_finds mac = rw (slot_at-cleared (home mac)) refl

start-IsFilled : IsFilled start
unfolding used_count
start-IsFilled = record {
  size = length-replicate slot_count empty_slot;
  found = λ mac s. ground (arith, slot_at-cleared s.0, s.2);
  counted = refl;
  bounded = omega arith;
}

-- After a rebuild from at most max_entries entries an address is in the table exactly when an
-- enabled entry of the list names it, whatever the table held before and whichever buffer it was
-- in; the rebuild reports success.
pub contains-rebuild :
    (l : AllowedList) (list : List AllowedComputer) (mac : List ℕ)
    → l.available ≡ true
    → length list ≤ max_entries
    → (contains (rebuild l list).0 mac ≡ lists list mac) × ((rebuild l list).1 ≡ true)
unfolding contains rebuild
contains-rebuild l list mac a h =
    let filled = fill-finds start list start-IsFilled (omega arith) mac ∙ none_before in
    elim (Bool-cases l.active) [
      | inl b ↦ simp (a, b, filled) (refl, refl)
      | inr b ↦ simp (a, b, filled) (refl, refl)
    ]
  where
    none_before : (finds cleared mac || lists list mac) ≡ lists list mac
    none_before = rw (start_finds mac) refl

pub available-rebuild :
    (l : AllowedList) (list : List AllowedComputer) → (rebuild l list).0.available ≡ l.available
unfolding rebuild
available-rebuild l list = elim (Bool-cases l.available) [
  | inr a ↦ simp a refl
  | inl a ↦ elim (Bool-cases l.active) [ inl b ↦ simp (a, b) refl | inr b ↦ simp (a, b) refl ]
]
