-- ===== src/Web/Multipart.antt =====
-- src/web/MultipartExtractor.h and MultipartExtractor.cpp: the payload of an upload, taken out of its
-- multipart envelope while the body arrives in chunks. The receiver of the payload is a parameter,
-- with a state of its own.
pub mod Find
pub mod Extraction
pub mod Feeding
pub mod Payload
pub mod Examples
use dhcpserver.Base.{
  is_empty, ℕ, ◌+◌, ◌-◌, ◌%◌, Bool, true, false, not, ◌||◌, ◌&&◌, List, [], ◌∷◌, ◌++◌, Option, none,
  some, ltb, ◌==◌, if◌then◌else◌, length, take, drop, u64_mod,
}

-- The Boolean test and the search of std::string::find.
unfoldable pub is_prefix : List ℕ → List ℕ → Bool
is_prefix [] xs = true
is_prefix (d ∷ ds) [] = false
is_prefix (d ∷ ds) (x ∷ xs) = d == x && is_prefix ds xs

abbrev pub shifted : ℕ → Option ℕ → Option ℕ
shifted n none = none
shifted n (some i) = some (i + n)

unfoldable pub find : List ℕ → List ℕ → Option ℕ
find [] d = if is_prefix d [] then some 0 else none
find (x ∷ xs) d =
    let later = shifted 1 (find xs d) in if is_prefix d (x ∷ xs) then some 0 else later

-- kMaxHeaderBytes and kHeaderTerminatorBytes
abbrev pub max_header_bytes : ℕ
max_header_bytes = 8192

abbrev pub header_terminator_bytes : ℕ
header_terminator_bytes = 4

abbrev pub header_terminator : List ℕ
header_terminator = 13 ∷ 10 ∷ 13 ∷ 10 ∷ []

-- Sink: the bytes that it is handed change its state, and it may refuse them.
abbrev pub Sink : Type 0 → Type 0
Sink S = S → List ℕ → S × Bool

pub record Extractor : Type 0 where
  pub delimiter : List ℕ
  pub header_acc : List ℕ
  pub pending : List ℕ
  pub payload_bytes : ℕ
  pub data_started : Bool
  pub data_done : Bool
  pub failed : Bool

abbrev pub delimiter_of : List ℕ → List ℕ
delimiter_of boundary = 13 ∷ 10 ∷ 45 ∷ 45 ∷ boundary

-- The constructor.
unfoldable pub make : List ℕ → Extractor
make boundary = record {
  delimiter = delimiter_of boundary;
  header_acc = [];
  pending = [];
  payload_bytes = 0;
  data_started = false;
  data_done = false;
  failed = is_empty boundary;
}

module _ {S : Type 0} where
  -- The first n pending bytes go to the sink, when there is one.
  unfoldable pub forward : Option (Sink S) → Extractor → S → ℕ → Extractor × S × Bool
  forward none x s n = (record x { payload_bytes = (x.payload_bytes + n) % u64_mod }, s, true)
  forward (some sink) x s n =
      let told = sink s (take n x.pending) in
      if told.1
      then (record x { payload_bytes = (x.payload_bytes + n) % u64_mod }, told.0, true)
      else (record x { failed = true }, told.0, false)

  unfoldable pub consume : Option (Sink S) → Extractor → S → List ℕ → Extractor × S × Bool
  consume sink x s bytes =
      let y = record x { pending = x.pending ++ bytes } in
      let keep = length y.delimiter - 1 in
      let surplus = length y.pending - keep in
      elim (find y.pending y.delimiter) [
        | some pos ↦
            let told = if ltb 0 pos then forward sink y s pos else (y, s, true) in
            if told.2
            then (record told.0 { pending = []; data_done = true }, told.1, true)
            else told
        | none ↦
            let told = forward sink y s surplus in
            if not (ltb keep (length y.pending))
            then (y, s, true)
            else if told.2
            then (record told.0 { pending = drop surplus y.pending }, told.1, true)
            else told
      ]

  unfoldable pub feed : Option (Sink S) → Extractor → S → List ℕ → Extractor × S × Bool
  feed sink x s bytes =
      let acc = x.header_acc ++ bytes in
      if x.failed || x.data_done
      then (x, s, not x.failed)
      else if is_empty bytes
      then (x, s, true)
      else if x.data_started
      then consume sink x s bytes
      else elim (find acc header_terminator) [
        | none ↦
            if ltb max_header_bytes (length acc)
            then (record x { header_acc = acc; failed = true }, s, false)
            else (record x { header_acc = acc }, s, true)
        | some end_pos ↦
            let payload = drop (end_pos + header_terminator_bytes) acc in
            let y = record x { header_acc = []; data_started = true } in
            if is_empty payload then (y, s, true) else consume sink y s payload
      ]

  -- The calls of feed for the chunks of a body, in order.
  unfoldable pub feed_all : Option (Sink S) → List (List ℕ) → Extractor → S → Extractor × S
  feed_all sink [] x s = (x, s)
  feed_all sink (bytes ∷ rest) x s = let fed = feed sink x s bytes in feed_all sink rest fed.0 fed.1

unfoldable pub finish : Extractor → Bool
finish x = not x.failed && x.data_done
