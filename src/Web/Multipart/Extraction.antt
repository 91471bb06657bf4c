-- ===== src/Web/Multipart/Extraction.antt =====
-- How far the extractor has come after the bytes of a body, in any chunks.
use dhcpserver.Base.{
  drop-append, take-append_past, ℕ, ◌+◌, ◌%◌, ◌≤◌, ◌<◌, ◌≡◌, ◌⊎◌, inl, inr, refl, sym, ap, ◌∙◌,
  Bool, true, false, List, [], ◌++◌, none, some, if◌then◌else◌, length, length-append, append_assoc,
  take, drop, u64_mod, arith, Option-cases,
}
use dhcpserver.Web.Multipart.{
  shifted, find, max_header_bytes, header_terminator, header_terminator_bytes, Sink, Extractor,
  delimiter_of, make,
}
use dhcpserver.Web.Multipart.Find.{find-bound, find-append_some, find-append_late, find-append_skip}

-- A sink that collects what it takes, and decides by what it holds and is handed.
unfoldable pub collect : (List ℕ → List ℕ → Bool) → Sink (List ℕ)
collect takes out bytes = if takes out bytes then (out ++ bytes, true) else (out, false)

-- The part headers with their terminator left out by one byte, or all of a body without one.
abbrev pub header_length : List ℕ → ℕ
header_length body = elim (find body header_terminator) [ none ↦ length body | some e ↦ e + 3 ]

abbrev pub payload_from : ℕ → List ℕ → List ℕ
payload_from e body = drop (e + header_terminator_bytes) body

abbrev pub streaming_state : List ℕ → List ℕ → ℕ → Extractor
streaming_state b pending sent = record {
  delimiter = delimiter_of b;
  header_acc = [];
  pending = pending;
  payload_bytes = sent % u64_mod;
  data_started = true;
  data_done = false;
  failed = false;
}

-- The state after a body, and what the sink holds: the headers are being read; the payload is being
-- handed on, but for the last bytes, which could begin the delimiter; the delimiter was met; the
-- headers were too long; or the sink refused, and holds no byte at or behind the delimiter.
pub data Extracts (b : List ℕ) (takes : List ℕ → List ℕ → Bool) (body : List ℕ)
    : Extractor → List ℕ → Type 0 where
  reading :
      find body header_terminator ≡ none
      → length body ≤ max_header_bytes
      → Extracts b takes body (record (make b) { header_acc = body; failed = false }) []
  streaming :
      (e : ℕ) (out pending : List ℕ)
      → find body header_terminator ≡ some e
      → payload_from e body ≡ out ++ pending
      → find (out ++ pending) (delimiter_of b) ≡ none
      → (out ≡ []) ⊎ (length (delimiter_of b) ≤ length pending + 1)
      → Extracts b takes body (streaming_state b pending (length out)) out
  complete :
      (e p : ℕ)
      → find body header_terminator ≡ some e
      → find (payload_from e body) (delimiter_of b) ≡ some p
      → Extracts b takes body
          (record (streaming_state b [] p) { data_done = true })
          (take p (payload_from e body))
  oversized :
      (x : Extractor)
      → x.failed ≡ true
      → max_header_bytes < header_length body
      → Extracts b takes body x []
  refused :
      (x : Extractor) (e : ℕ) (out more held bytes : List ℕ)
      → x.failed ≡ true
      → takes held bytes ≡ false
      → find body header_terminator ≡ some e
      → payload_from e body ≡ out ++ more
      → ((c : List ℕ) (p : ℕ)
          → find ((out ++ more) ++ c) (delimiter_of b) ≡ some p
          → length out ≤ p)
      → Extracts b takes body x out

pub header_length_mono : (body c : List ℕ) → header_length body ≤ header_length (body ++ c)
header_length_mono body c = elim (Option-cases (find body header_terminator)) [
  | inr (e, found) ↦
      rw (found, find-append_some body c header_terminator e found, header_length) (omega arith)
  | inl gone ↦ elim (Option-cases (find (body ++ c) header_terminator)) [
    | inl still ↦ rw (gone, still, header_length) (omega (arith, length-append body c))
    | inr (e, found) ↦
        rw (gone, found, header_length)
          (omega (arith, find-append_late body c header_terminator e gone found))
  ]
]

-- The payload grows with the body.
pub payload_from-append :
    (body c : List ℕ) (e : ℕ)
    → find body header_terminator ≡ some e
    → payload_from e (body ++ c) ≡ payload_from e body ++ c
payload_from-append body c e found =
    drop-append (e + header_terminator_bytes) body c (find-bound body header_terminator e found)

-- No delimiter begins in bytes that were handed on.
pub settled :
    (d out pending : List ℕ)
    → find (out ++ pending) d ≡ none
    → (out ≡ []) ⊎ (length d ≤ length pending + 1)
    → (c : List ℕ) (p : ℕ) → find ((out ++ pending) ++ c) d ≡ some p
    → length out ≤ p
settled d out pending gone (inl blank) c p found = rw blank (omega arith)
settled d out pending gone (inr fits) c p found =
    let skipped = find-append_skip out pending c d gone fits in
    let found' = ap (λ l. find l d) (sym (append_assoc out pending c)) ∙ found in
    elim (Option-cases (find (pending ++ c) d)) [
      | inl n ↦ absurd (ground (arith, skipped, n, found'))
      | inr (k, at_k) ↦
          let sum : k + length out ≡ p = ground (arith, skipped, at_k, found') in omega (arith, sum)
    ]

-- The search in the whole payload is the search in the bytes that were held back.
pub joined :
    (d out pending bytes : List ℕ)
    → find (out ++ pending) d ≡ none
    → (out ≡ []) ⊎ (length d ≤ length pending + 1)
    → find (out ++ (pending ++ bytes)) d ≡ shifted (length out) (find (pending ++ bytes) d)
joined d out pending bytes gone (inl blank) =
    rw blank (elim (find (pending ++ bytes) d) as (λ o. o ≡ shifted 0 o) [
      | none ↦ refl
      | some i ↦ ap (λ (n : ℕ). some n) (omega arith)
    ])
joined d out pending bytes gone (inr fits) = find-append_skip out pending bytes d gone fits

pub sum_mod : (a n : ℕ) → (a % u64_mod + n) % u64_mod ≡ (n + a) % u64_mod
sum_mod a n = omega arith

pub sent : (out xs : List ℕ) (n : ℕ) → take (n + length out) (out ++ xs) ≡ out ++ take n xs
sent out xs n =
    take-append_past out xs (n + length out) (omega arith)
    ∙ ap (λ k. out ++ take k xs) (omega arith)

-- The two outcomes of a chunk that the sink takes, with the count of the bytes handed on.
pub completed :
    (b : List ℕ) (takes : List ℕ → List ℕ → Bool) (body : List ℕ) (e p count : ℕ) (out : List ℕ)
    → find body header_terminator ≡ some e
    → find (payload_from e body) (delimiter_of b) ≡ some p
    → take p (payload_from e body) ≡ out
    → count ≡ p % u64_mod
    → Extracts b takes body
        (record (streaming_state b [] p) { data_done = true; payload_bytes = count })
        out
completed b takes body e p count out head at_p given counted =
    rw (counted, ← given) (complete e p head at_p)

pub flowing :
    (b : List ℕ) (takes : List ℕ → List ℕ → Bool) (body : List ℕ) (e count : ℕ)
    (out pending : List ℕ)
    → find body header_terminator ≡ some e
    → payload_from e body ≡ out ++ pending
    → find (out ++ pending) (delimiter_of b) ≡ none
    → (out ≡ []) ⊎ (length (delimiter_of b) ≤ length pending + 1)
    → count ≡ length out % u64_mod
    → Extracts b takes body
        (record (streaming_state b pending (length out)) { payload_bytes = count })
        out
flowing b takes body e count out pending head all gone fits counted =
    rw counted (streaming e out pending head all gone fits)
