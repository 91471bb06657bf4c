-- ===== src/Web/Multipart/Payload.antt =====
-- What an upload in chunks hands to its sink, against the body as a whole.
use dhcpserver.Base.{
  if◌then◌else◌, false, take-append_past, drop-append_exact, take-append_exact, ℕ, ◌+◌, ◌-◌, ◌≤◌,
  ◌≡◌, ◌≢◌, inl, inr, refl, sym, ap, ◌∙◌, Bool, true, List, [], ◌∷◌, ◌++◌, Option, none, some,
  length, length-append, append_assoc, append-nil, take, arith, Option-cases,
}
use dhcpserver.Web.Multipart.{
  is_prefix, find, max_header_bytes, header_terminator, header_terminator_bytes, Extractor,
  delimiter_of, make, feed, feed_all, finish,
}
use dhcpserver.Web.Multipart.Find.{find-append_some}
use dhcpserver.Web.Multipart.Extraction.{
  collect, header_length, payload_from, Extracts, reading, streaming, complete, oversized, refused,
}
use dhcpserver.Web.Multipart.Feeding.{feed-Extracts}

-- The bytes of a body that came in chunks.
unfoldable pub concat : List (List ℕ) → List ℕ
concat [] = []
concat (bytes ∷ rest) = bytes ++ concat rest

-- The payload of a whole body: what stands behind the part headers and before the delimiter.
unfoldable pub payload_of : List ℕ → List ℕ → Option (List ℕ)
payload_of b body = elim (find body header_terminator) [
  | none ↦ none
  | some e ↦ elim (find (payload_from e body) (delimiter_of b)) [
    | none ↦ none
    | some p ↦ some (take p (payload_from e body))
  ]
]

-- All bytes behind the part headers that the envelope does not take.
unfoldable pub payload_bounds : List ℕ → List ℕ → List ℕ
payload_bounds b body = elim (find body header_terminator) [
  | none ↦ []
  | some e ↦ elim (find (payload_from e body) (delimiter_of b)) [
    | none ↦ payload_from e body
    | some p ↦ take p (payload_from e body)
  ]
]

feed_all-Extracts :
    (chunks : List (List ℕ)) (b : List ℕ) (takes : List ℕ → List ℕ → Bool) (body : List ℕ)
    (x : Extractor) (out : List ℕ)
    → Extracts b takes body x out
    → Extracts b takes
        (body ++ concat chunks)
        (feed_all (some (collect takes)) chunks x out).0
        (feed_all (some (collect takes)) chunks x out).1
unfolding feed_all concat
feed_all-Extracts [] b takes body x out h = rw (append-nil body) h
feed_all-Extracts (bytes ∷ rest) b takes body x out h =
    rw (sym (append_assoc body bytes (concat rest))) (
      feed_all-Extracts rest b takes (body ++ bytes) (feed (some (collect takes)) x out bytes).0
        (feed (some (collect takes)) x out bytes).1 (feed-Extracts b takes body bytes x out h))

pub upload-Extracts :
    (b : List ℕ) (takes : List ℕ → List ℕ → Bool) (chunks : List (List ℕ))
    → b ≢ []
    → Extracts b takes
        (concat chunks)
        (feed_all (some (collect takes)) chunks (make b) []).0
        (feed_all (some (collect takes)) chunks (make b) []).1
upload-Extracts [] takes chunks named = absurd (named refl)
upload-Extracts (c ∷ cs) takes chunks named =
    feed_all-Extracts chunks (c ∷ cs) takes [] (make (c ∷ cs)) []
      (unfold make find is_prefix in reading refl (omega arith))

Exact : List ℕ → List ℕ → Extractor → List ℕ → Type 0
Exact b body x out = payload_of b body ≡ (if finish x then some out else none)

Extracts-Exact :
    (b : List ℕ) (takes : List ℕ → List ℕ → Bool) (body : List ℕ) (x : Extractor) (out : List ℕ)
    → ((held bytes : List ℕ) → takes held bytes ≡ true)
    → header_length body ≤ max_header_bytes
    → Extracts b takes body x out
    → Exact b body x out
unfolding Exact payload_of finish make
Extracts-Exact b takes body x out ready fits (reading none_yet small) =
    rw (none_yet, payload_of) refl
Extracts-Exact b takes body x out ready fits (streaming e out' pending head all gone short) =
    let missing = ap (λ l. find l (delimiter_of b)) all ∙ gone in
    rw (head, missing, payload_of) refl
Extracts-Exact b takes body x out ready fits (complete e p head at_p) =
    rw (head, at_p, payload_of) refl
Extracts-Exact b takes body x out ready fits (oversized y broken long) = absurd (omega arith)
Extracts-Exact b takes body x out ready fits
      (refused y e out' more held bytes broken not_ok head all early) =
    absurd (cc (ready held bytes, not_ok))

-- When the boundary is not empty, the sink takes everything and the part headers fit their bound,
-- the upload is reported complete exactly when the whole body has a payload, and the sink then
-- holds that payload, however the body was cut into chunks.
pub extraction_exact :
    (b : List ℕ) (takes : List ℕ → List ℕ → Bool) (chunks : List (List ℕ))
    → b ≢ []
    → ((held bytes : List ℕ) → takes held bytes ≡ true)
    → header_length (concat chunks) ≤ max_header_bytes
    → payload_of b (concat chunks) ≡ (
        if finish (feed_all (some (collect takes)) chunks (make b) []).0
        then some (feed_all (some (collect takes)) chunks (make b) []).1
        else none)
unfolding Exact
extraction_exact b takes chunks named ready fits =
    Extracts-Exact b takes (concat chunks) _ _ ready fits (upload-Extracts b takes chunks named)

Within : List ℕ → List ℕ → List ℕ → Type 0
Within b body out = (more : List ℕ) × (out ++ more ≡ payload_bounds b body)

Extracts-Within :
    (b : List ℕ) (takes : List ℕ → List ℕ → Bool) (body : List ℕ) (x : Extractor) (out : List ℕ)
    → Extracts b takes body x out
    → Within b body out
unfolding Within payload_bounds
Extracts-Within b takes body x out (reading none_yet small) = (payload_bounds b body, refl)
Extracts-Within b takes body x out (oversized y broken long) = (payload_bounds b body, refl)
Extracts-Within b takes body x out (complete e p head at_p) =
    ([], rw (head, at_p, payload_bounds) (append-nil _))
Extracts-Within b takes body x out (streaming e out' pending head all gone short) =
    let missing = ap (λ l. find l (delimiter_of b)) all ∙ gone in
    (pending, rw (head, missing, payload_bounds) (sym all))
Extracts-Within b takes body x out (refused y e out' more held bytes broken not_ok head all early) =
    let d = delimiter_of b in
    elim (Option-cases (find (payload_from e body) d)) [
      | inl missing ↦ (more, rw (head, missing, payload_bounds) (sym all))
      | inr (p, at_p) ↦
          let before =
            early [] p (ap (λ l. find l d) (append-nil (out' ++ more) ∙ sym all) ∙ at_p) in
          (
            take (p - length out') more,
            rw (head, at_p, payload_bounds)
                (sym (ap (take p) all ∙ take-append_past out' more p before)),
          )
    ]

-- Whatever the sink refuses and however the body is cut into chunks, the bytes that the sink holds
-- begin what stands between the part headers and the delimiter: none of the envelope reaches it.
pub extraction_within :
    (b : List ℕ) (takes : List ℕ → List ℕ → Bool) (chunks : List (List ℕ))
    → b ≢ []
    → (more : List ℕ) × ((feed_all (some (collect takes)) chunks (make b) []).1 ++ more
        ≡ payload_bounds b (concat chunks))
unfolding Within
extraction_within b takes chunks named =
    Extracts-Within b takes (concat chunks) _ _ (upload-Extracts b takes chunks named)

-- The body of an upload: the part headers, the payload, the delimiter and what follows it.
abbrev pub envelope : List ℕ → List ℕ → List ℕ → List ℕ → List ℕ
envelope b headers payload epilogue =
    (headers ++ header_terminator) ++ ((payload ++ delimiter_of b) ++ epilogue)

payload_of-envelope :
    (b headers payload epilogue : List ℕ)
    → find (headers ++ header_terminator) header_terminator ≡ some (length headers)
    → find (payload ++ delimiter_of b) (delimiter_of b) ≡ some (length payload)
    → payload_of b (envelope b headers payload epilogue) ≡ some payload
unfolding payload_of
payload_of-envelope b headers payload epilogue head clean =
    let d = delimiter_of b in
    let body = envelope b headers payload epilogue in
    let at_head =
      find-append_some (headers ++ header_terminator) ((payload ++ d) ++ epilogue) header_terminator
        (length headers) head in
    let behind : payload_from (length headers) body ≡ (payload ++ d) ++ epilogue =
      drop-append_exact (headers ++ header_terminator) ((payload ++ d) ++ epilogue)
        (length headers + header_terminator_bytes)
        (omega (arith, length-append headers header_terminator)) in
    let at_end =
      ap (λ l. find l d) behind
      ∙ find-append_some (payload ++ d) epilogue d (length payload) clean in
    rw (at_head, at_end, payload_of)
      (ap (λ (l : List ℕ). some l)
        (ap (take (length payload)) behind
          ∙ ap (take (length payload)) (append_assoc payload d epilogue)
          ∙ take-append_exact payload (d ++ epilogue)))

header_length-envelope :
    (b headers payload epilogue : List ℕ)
    → find (headers ++ header_terminator) header_terminator ≡ some (length headers)
    → header_length (envelope b headers payload epilogue) ≡ length headers + 3
header_length-envelope b headers payload epilogue head =
    let at_head =
      find-append_some (headers ++ header_terminator) ((payload ++ delimiter_of b) ++ epilogue)
        header_terminator (length headers) head in
    rw (at_head, header_length) refl

-- An envelope around a payload that does not hold the delimiter, with part headers that fit their
-- bound, is unpacked: however it is cut into chunks, a sink that takes everything holds the payload
-- at the end, and the upload is reported complete.
pub extraction-envelope :
    (b headers payload epilogue : List ℕ) (chunks : List (List ℕ))
    → b ≢ []
    → find (headers ++ header_terminator) header_terminator ≡ some (length headers)
    → find (payload ++ delimiter_of b) (delimiter_of b) ≡ some (length payload)
    → length headers + 3 ≤ max_header_bytes
    → concat chunks ≡ envelope b headers payload epilogue
    → (finish (feed_all (some (collect (λ held bytes. true))) chunks (make b) []).0 ≡ true)
      × ((feed_all (some (collect (λ held bytes. true))) chunks (make b) []).1 ≡ payload)
extraction-envelope b headers payload epilogue chunks named head clean fits cut =
    let whole = ap (payload_of b) cut ∙ payload_of-envelope b headers payload epilogue head clean in
    let exact =
      extraction_exact b (λ held bytes. true) chunks named (λ held bytes. refl)
        (omega (
          arith,
          fits,
          ap header_length cut,
          header_length-envelope b headers payload epilogue head,
        )) in
    told (finish (feed_all (some (collect (λ held bytes. true))) chunks (make b) []).0) _ payload
      (sym whole ∙ exact)
  where
    told :
        (done : Bool) (out p : List ℕ)
        → some p ≡ (if done then some out else none)
        → (done ≡ true) × (out ≡ p)
    told true out p e = (refl, cc e)
    told false out p e = absurd (cc e)
