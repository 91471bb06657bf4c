-- ===== src/Dhcp/AllowedList.antt =====
-- src/dhcp/DhcpAllowedList.cpp: the hash table of allowed computers and the policy over it. The
-- table is open addressing with linear probing in one of two buffers; masking by kSlots - 1 is
-- written as the remainder by kSlots, a power of two.
pub mod Probing
pub mod Contents
pub mod Rebuilt
pub mod Codec
pub mod Stored
pub mod Lines
pub mod Budget
use dhcpserver.Base.{
  ℕ, zero, suc, ◌+◌, ◌*◌, ◌%◌, bit_xor, Bool, true, false, not, ◌&&◌, ◌||◌, List, [], ◌∷◌, Option,
  none, some, leb, if◌then◌else◌, replicate, set, get_or, length, bytes_eq, u32_mod,
}
use dhcpserver.Dhcp.Mac.{parse_mac}

-- kSlots and kMaxEntries.
abbrev pub slot_count : ℕ
slot_count = 64

abbrev pub max_entries : ℕ
max_entries = 25

pub record Slot : Type 0 where
  pub mac : List ℕ
  pub used : Bool

pub record AllowedComputer : Type 0 where
  pub mac : List ℕ
  pub name : List ℕ
  pub enabled : Bool

pub record StaticRef : Type 0 where
  pub mac : List ℕ
  pub enabled : Bool

-- `slots_` is null until `init` is given storage; `active` is false for buffer 0.
pub record AllowedList : Type 0 where
  pub available : Bool
  pub slots0 : List Slot
  pub slots1 : List Slot
  pub active : Bool
  pub count : ℕ

abbrev pub empty_slot : Slot
empty_slot = record { mac = 0 ∷ 0 ∷ 0 ∷ 0 ∷ 0 ∷ 0 ∷ []; used = false }

abbrev pub cleared : List Slot
cleared = replicate slot_count empty_slot

-- FNV-1a over the address bytes.
unfoldable pub hash_from : ℕ → List ℕ → ℕ
hash_from h [] = h
hash_from h (b ∷ bs) = hash_from (bit_xor h b * 16777619 % u32_mod) bs

unfoldable pub hash_mac : List ℕ → ℕ
unfolding hash_from
hash_mac mac = hash_from 2166136261 mac

abbrev pub home : List ℕ → ℕ
home mac = hash_mac mac % slot_count

abbrev pub slot_at : List Slot → ℕ → Slot
slot_at table i = get_or table i empty_slot

-- The probe loop of `freeSlot`: the index of the free slot, none for a duplicate or a full table.
unfoldable pub free_from : ℕ → List Slot → ℕ → List ℕ → Option ℕ
free_from zero table idx mac = none
free_from (suc probes) table idx mac =
    let next = free_from probes table ((idx + 1) % slot_count) mac in
    if not (slot_at table idx).used
    then some idx
    else if bytes_eq (slot_at table idx).mac mac
    then none
    else next

unfoldable pub free_slot : List Slot → List ℕ → Option ℕ
free_slot table mac = free_from slot_count table (home mac) mac

unfoldable pub init : AllowedList
init = record { available = true; slots0 = cleared; slots1 = cleared; active = false; count = 0 }

pub record Filling : Type 0 where
  pub table : List Slot
  pub inserted : ℕ
  pub dropped : ℕ

-- One round of the loop of `rebuild`.
unfoldable pub insert_entry : Filling → AllowedComputer → Filling
insert_entry f entry = if not entry.enabled then f else elim (parse_mac entry.mac) [
  | none ↦ record f { dropped = f.dropped + 1 }
  | some mac ↦
      if leb max_entries f.inserted
      then record f { dropped = f.dropped + 1 }
      else elim (free_slot f.table mac) [
        | none ↦ record f { dropped = f.dropped + 1 }
        | some i ↦ record f {
          table = set f.table i (record { mac = mac; used = true });
          inserted = f.inserted + 1;
        }
      ]
]

unfoldable pub fill : Filling → List AllowedComputer → Filling
fill f [] = f
fill f (entry ∷ rest) = fill (insert_entry f entry) rest

-- `rebuild`: the new list, the answer, and the number of entries skipped. The buffer that is not
-- active is cleared and filled, and then becomes the active one.
unfoldable pub rebuild : AllowedList → List AllowedComputer → AllowedList × Bool × ℕ
rebuild l list =
    let f = fill (record { table = cleared; inserted = 0; dropped = 0 }) list in
    if not l.available
    then (l, false, length list)
    else if l.active
    then (record l { slots0 = f.table; active = false; count = f.inserted }, true, f.dropped)
    else (record l { slots1 = f.table; active = true; count = f.inserted }, true, f.dropped)

abbrev pub active_table : AllowedList → List Slot
active_table l = if l.active then l.slots1 else l.slots0

-- The probe loop of `contains`.
unfoldable pub contains_from : ℕ → List Slot → ℕ → List ℕ → Bool
contains_from zero table idx mac = false
contains_from (suc probes) table idx mac =
    let next = contains_from probes table ((idx + 1) % slot_count) mac in
    if not (slot_at table idx).used
    then false
    else if bytes_eq (slot_at table idx).mac mac
    then true
    else next

unfoldable pub contains : AllowedList → List ℕ → Bool
contains l mac = l.available && contains_from slot_count (active_table l) (home mac) mac

unfoldable pub any_static : List StaticRef → List ℕ → Bool
any_static [] mac = false
any_static (r ∷ rs) mac = (r.enabled && bytes_eq r.mac mac) || any_static rs mac

unfoldable pub is_client_allowed : List ℕ → Bool → AllowedList → List StaticRef → Bool
is_client_allowed mac allow_only list bindings =
    if not allow_only
    then true
    else if not list.available
    then true
    else contains list mac || any_static bindings mac

-- `haveOwner` and `mac` are one option.
unfoldable pub is_address_allowed : Bool → Option (List ℕ) → AllowedList → List StaticRef → Bool
is_address_allowed allow_only owner list bindings =
    if not allow_only
    then true
    else elim owner [ none ↦ false | some mac ↦ is_client_allowed mac true list bindings ]
