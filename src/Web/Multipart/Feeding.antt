-- ===== src/Web/Multipart/Feeding.antt =====
-- What one chunk does to the extractor.
use dhcpserver.Base.{
  is_empty, take-append, take-drop, length-take, length-drop, ℕ, ◌+◌, ◌-◌, ◌%◌, ◌≤◌, ◌<◌, ◌≡◌, ◌⊎◌,
  inl, inr, refl, sym, ap, ◌∙◌, Bool, true, false, not, ◌||◌, List, [], ◌∷◌, ◌++◌, Option, none,
  some, ltb, if◌then◌else◌, length, length-append, append_assoc, append-nil, take, drop, u64_mod,
  arith, Bool-cases, Option-cases,
}
use dhcpserver.Web.Multipart.{
  shifted, is_prefix, find, max_header_bytes, header_terminator, Sink, Extractor, delimiter_of,
  make, forward, consume, feed,
}
use dhcpserver.Web.Multipart.Find.{find-bound, find-append_some}
use dhcpserver.Web.Multipart.Extraction.{
  collect, header_length, payload_from, streaming_state, Extracts, header_length_mono,
  payload_from-append, settled, joined, sum_mod, sent, completed, flowing, reading, streaming,
  complete, oversized, refused,
}

consume-Extracts :
    (b : List ℕ) (takes : List ℕ → List ℕ → Bool) (body : List ℕ) (e : ℕ)
    (out pending bytes : List ℕ)
    → find body header_terminator ≡ some e
    → payload_from e body ≡ out ++ (pending ++ bytes)
    → find (out ++ pending) (delimiter_of b) ≡ none
    → (out ≡ []) ⊎ (length (delimiter_of b) ≤ length pending + 1)
    → Extracts b takes body
        (consume (some (collect takes)) (streaming_state b pending (length out)) out bytes).0
        (consume (some (collect takes)) (streaming_state b pending (length out)) out bytes).1
unfolding consume forward collect
consume-Extracts b takes body e out pending bytes head all gone fits =
    let d = delimiter_of b in
    let xs = pending ++ bytes in
    let whole = joined d out pending bytes gone fits in
    let settled_here : (c : List ℕ) (p : ℕ) → find ((out ++ xs) ++ c) d ≡ some p → length out ≤ p =
      λ c p f. settled d out pending gone fits (bytes ++ c) p (
        ap (λ l. find l d)
          (append_assoc out pending (bytes ++ c)
            ∙ ap (λ l. out ++ l) (sym (append_assoc pending bytes c))
            ∙ sym (append_assoc out xs c))
        ∙ f) in
    elim (Option-cases (find xs d)) [
      | inr (pos, found) ↦
          let at_p : find (payload_from e body) d ≡ some (pos + length out) =
            ap (λ l. find l d) all ∙ whole ∙ ap (shifted (length out)) found in
          let given : take (pos + length out) (payload_from e body) ≡ out ++ take pos xs =
            ap (take (pos + length out)) all ∙ sent out xs pos in
          elim (Bool-cases (ltb 0 pos)) [
            | inr first ↦
                let none_sent : pos ≡ 0 = ground (arith, first) in
                rw (found, first, consume)
                  (completed b takes body e (pos + length out) (length out % u64_mod) out head at_p
                    (given ∙ ap (λ k. out ++ take k xs) none_sent ∙ append-nil out)
                    (ap (λ k. k % u64_mod) (omega (arith, none_sent))))
            | inl later ↦ elim (Bool-cases (takes out (take pos xs))) [
              | inl ok ↦
                  rw (found, later, ok, consume)
                    (completed b takes body e (pos + length out)
                      ((length out % u64_mod + pos) % u64_mod) (out ++ take pos xs) head at_p given
                      (sum_mod (length out) pos))
              | inr not_ok ↦
                  rw (found, later, not_ok, consume)
                    (refused (record (streaming_state b xs (length out)) { failed = true }) e out xs
                      out (take pos xs) refl not_ok head all settled_here)
            ]
          ]
      | inl missing ↦
          let keep = length d - 1 in
          let n = length xs - keep in
          let back : (out ++ take n xs) ++ drop n xs ≡ out ++ xs =
            append_assoc out (take n xs) (drop n xs) ∙ ap (λ l. out ++ l) (take-drop n xs) in
          let none_yet : find (out ++ xs) d ≡ none = whole ∙ ap (shifted (length out)) missing in
          elim (Bool-cases (ltb keep (length xs))) [
            | inr short ↦
                rw (missing, short, consume)
                  (streaming e out xs head all none_yet (elim fits [
                    | inl blank ↦ inl blank
                    | inr far ↦ inr (omega (arith, far, length-append pending bytes))
                  ]))
            | inl long ↦
                let more : keep < length xs = ground (arith, long) in
                elim (Bool-cases (takes out (take n xs))) [
                  | inl ok ↦
                      rw (missing, long, ok, consume)
                        (flowing b takes body e ((length out % u64_mod + n) % u64_mod)
                          (out ++ take n xs) (drop n xs) head (all ∙ sym back)
                          (ap (λ l. find l d) back ∙ none_yet)
                          (inr (omega (arith, length-drop n xs, more)))
                          (sum_mod (length out) n
                            ∙ ap (λ k. k % u64_mod)
                                (omega (
                                  arith,
                                  length-append out (take n xs),
                                  length-take n xs (omega arith),
                                ))))
                  | inr not_ok ↦
                      rw (missing, long, not_ok, consume)
                        (refused (record (streaming_state b xs (length out)) { failed = true }) e
                          out xs out (take n xs) refl not_ok head all settled_here)
                ]
          ]
    ]

pub is_empty_sound : (xs : List ℕ) → is_empty xs ≡ true → xs ≡ []
is_empty_sound [] h = refl
is_empty_sound (x ∷ xs) h = absurd (cc h)

assoc4 : (a b c d : List ℕ) → (a ++ (b ++ c)) ++ d ≡ (a ++ b) ++ (c ++ d)
assoc4 a b c d = ap (λ l. l ++ d) (sym (append_assoc a b c)) ∙ append_assoc (a ++ b) c d

feed_nothing :
    {S : Type 0} (sink : Option (Sink S)) (x : Extractor) (s : S)
    → ((feed sink x s []).0 ≡ x) × ((feed sink x s []).1 ≡ s)
unfolding feed
feed_nothing sink x s = elim (Bool-cases (x.failed || x.data_done)) [
  | inl over ↦ rw over (refl, refl)
  | inr on ↦ rw on (refl, refl)
]

if_true : {A : Type 0} (c : Bool) (u v : A) → c ≡ true → (if c then u else v) ≡ u
if_true true u v h = refl
if_true false u v h = absurd (cc h)

feed_over :
    {S : Type 0} (sink : Option (Sink S)) (x : Extractor) (s : S) (bytes : List ℕ)
    → x.failed ≡ true
    → feed sink x s bytes ≡ (x, s, not x.failed)
unfolding feed
feed_over sink x s bytes broken = if_true (x.failed || x.data_done) _ _ (ground (arith, broken))

pub feed-Extracts :
    (b : List ℕ) (takes : List ℕ → List ℕ → Bool) (body bytes : List ℕ) (x : Extractor)
    (out : List ℕ)
    → Extracts b takes body x out
    → Extracts b takes
        (body ++ bytes)
        (feed (some (collect takes)) x out bytes).0
        (feed (some (collect takes)) x out bytes).1
unfolding feed make
feed-Extracts b takes body [] x out at_body =
    let (same, still) = feed_nothing (some (collect takes)) x out in
    rw (append-nil body, same, still) at_body
feed-Extracts b takes body (c ∷ cs) x out (oversized y broken long) =
    rw (feed_over (some (collect takes)) y [] (c ∷ cs) broken)
      (oversized y broken (omega (arith, long, header_length_mono body (c ∷ cs))))
feed-Extracts b takes body (c ∷ cs) x out
      (refused y e out' more held bytes broken not_ok head all early) =
    let d = delimiter_of b in
    rw (feed_over (some (collect takes)) y out' (c ∷ cs) broken) (
      refused y e out (more ++ (c ∷ cs)) held bytes broken not_ok
        (find-append_some body (c ∷ cs) header_terminator e head)
        (payload_from-append body (c ∷ cs) e head
          ∙ ap (λ l. l ++ (c ∷ cs)) all
          ∙ append_assoc out' more (c ∷ cs))
        (λ rest p found.
          early ((c ∷ cs) ++ rest) p
            (ap (λ l. find l d) (sym (assoc4 out' more (c ∷ cs) rest)) ∙ found)))
feed-Extracts b takes body (c ∷ cs) x out (complete e p head at_p) =
    let grown = payload_from-append body (c ∷ cs) e head in
    let fits = find-bound (payload_from e body) (delimiter_of b) p at_p in
    rw
      (sym (ap (take p) grown ∙ take-append p (payload_from e body) (c ∷ cs) (omega (arith, fits))))
      (complete e p (find-append_some body (c ∷ cs) header_terminator e head) (
        ap (λ l. find l (delimiter_of b)) grown
        ∙ find-append_some (payload_from e body) (c ∷ cs) (delimiter_of b) p at_p))
feed-Extracts b takes body (c ∷ cs) x out (streaming e out' pending head all gone fits) =
    consume-Extracts b takes (body ++ (c ∷ cs)) e out' pending (c ∷ cs)
      (find-append_some body (c ∷ cs) header_terminator e head)
      (payload_from-append body (c ∷ cs) e head
        ∙ ap (λ l. l ++ (c ∷ cs)) all
        ∙ append_assoc out' pending (c ∷ cs))
      gone fits
feed-Extracts b takes body (c ∷ cs) x out (reading none_yet small) =
    let acc = body ++ (c ∷ cs) in
    elim (Option-cases (find acc header_terminator)) [
      | inl still ↦ elim (Bool-cases (ltb max_header_bytes (length acc))) [
        | inl large ↦
            rw (still, large, feed)
              (oversized (record (make b) { header_acc = acc; failed = true }) refl
                (rw (still, header_length) (ground (arith, large))))
        | inr fits ↦ rw (still, fits, feed) (reading still (ground (arith, fits)))
      ]
      | inr (e, head) ↦ elim (Bool-cases (is_empty (payload_from e acc))) [
        | inl empty ↦
            rw (head, empty, feed)
              (streaming e [] [] head (is_empty_sound (payload_from e acc) empty)
                (unfold find is_prefix in refl) (inl refl))
        | inr more ↦
            rw (head, more, feed)
              (consume-Extracts b takes acc e [] [] (payload_from e acc) head refl
                (unfold find is_prefix in refl) (inl refl))
      ]
    ]
