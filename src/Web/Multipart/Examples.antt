-- ===== src/Web/Multipart/Examples.antt =====
-- The multipart extractor at work.
use dhcpserver.Base.{
  if◌then◌else◌, none, ℕ, ◌≡◌, ◌≢◌, refl, Bool, true, false, List, [], ◌∷◌, ◌++◌, some, arith,
}
use dhcpserver.Web.Multipart.{is_prefix, find, make, forward, consume, feed, feed_all, finish}
use dhcpserver.Web.Multipart.Extraction.{collect}
use dhcpserver.Web.Multipart.Payload.{
  concat, payload_of, payload_bounds, extraction_exact, extraction_within, extraction-envelope,
}

abbrev boundary : List ℕ
boundary = b'X' ∷ []

abbrev headers : List ℕ
headers = b'-' ∷ b'-' ∷ b'X' ∷ []

abbrev image : List ℕ
image = b'a' ∷ 13 ∷ 10 ∷ b'-' ∷ b'b' ∷ []

-- "--X", an empty line, "a\r\n-b", "\r\n--X--" in four chunks, one of them empty.
abbrev upload : List (List ℕ)
upload =
    (b'-' ∷ b'-' ∷ b'X' ∷ 13 ∷ 10 ∷ 13 ∷ [])
    ∷ (10 ∷ b'a' ∷ 13 ∷ 10 ∷ [])
    ∷ []
    ∷ (b'-' ∷ b'b' ∷ 13 ∷ 10 ∷ b'-' ∷ [])
    ∷ (b'-' ∷ b'X' ∷ b'-' ∷ b'-' ∷ [])
    ∷ []

abbrev always : List ℕ → List ℕ → Bool
always held bytes = true

-- A sink that refuses as soon as it holds anything.
abbrev one_time : List ℕ → List ℕ → Bool
one_time [] bytes = true
one_time (x ∷ xs) bytes = false

received : (feed_all (some (collect always)) upload (make boundary) []).1 ≡ image
unfolding feed_all feed make find is_prefix consume forward collect
received = refl

received_in_part :
    (feed_all (some (collect one_time)) upload (make boundary) []).1 ≡ b'a' ∷ 13 ∷ 10 ∷ b'-' ∷ []
unfolding feed_all feed make find is_prefix consume forward collect
received_in_part = refl

boundary_named : boundary ≢ []
boundary_named e = cc e

extraction_exact_example : payload_of boundary (concat upload) ≡ (
    if finish (feed_all (some (collect always)) upload (make boundary) []).0
    then some (feed_all (some (collect always)) upload (make boundary) []).1
    else none)
extraction_exact_example =
    extraction_exact boundary always upload boundary_named (λ held bytes. refl)
      (unfold concat find is_prefix in omega arith)

extraction_within_example :
    (more : List ℕ) × ((feed_all (some (collect one_time)) upload (make boundary) []).1 ++ more
      ≡ payload_bounds boundary (concat upload))
extraction_within_example = extraction_within boundary one_time upload boundary_named

extraction-envelope_example :
    (finish (feed_all (some (collect always)) upload (make boundary) []).0 ≡ true)
    × ((feed_all (some (collect always)) upload (make boundary) []).1 ≡ image)
extraction-envelope_example =
    extraction-envelope boundary headers image (b'-' ∷ b'-' ∷ []) upload boundary_named
      (unfold find is_prefix in refl) (unfold find is_prefix in refl) (omega arith)
      (unfold concat in refl)
