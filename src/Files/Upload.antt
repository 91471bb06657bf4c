-- ===== src/Files/Upload.antt =====
-- src/files/UploadRange.h and UploadRange.cpp: the numbers of an upload request against the partial
-- file on the device. A text that refuses a request is a value of `Refusal` with its numbers.
pub mod Accepts
pub mod Examples
use dhcpserver.Base.{ℕ, ◌+◌, ◌-◌, ◌%◌, ◌^◌, Bool, true, false, not, ltb, leb, ◌==◌, if◌then◌else◌}

abbrev pub u64_mod : ℕ
u64_mod = 2 ^ 64

pub record UploadRange : Type 0 where
  pub part_size : ℕ
  pub offset : ℕ
  pub chunk : ℕ
  pub total : ℕ
  pub resumable : Bool

-- endOffset, completes and neededBytes, in uint64_t.
unfoldable pub end_offset : UploadRange → ℕ
end_offset r = (r.offset + r.chunk) % u64_mod

unfoldable pub completes : UploadRange → Bool
completes r = leb r.total (end_offset r)

unfoldable pub needed_bytes : UploadRange → ℕ
needed_bytes r = if ltb r.offset r.total then r.total - r.offset else 0

pub data Refusal : Type 0 where
  empty_body zero_total : Refusal
  wrong_offset : ℕ → ℕ → Refusal
  at_end : ℕ → ℕ → Refusal
  past_end : ℕ → ℕ → ℕ → Refusal

pub data Answer : Type 0 where
  accepted : UploadRange → Answer
  refused : Refusal → Answer

abbrev pub range_of : ℕ → ℕ → ℕ → ℕ → Bool → UploadRange
range_of part_size offset chunk total resumable = record {
  part_size = part_size;
  offset = offset;
  chunk = chunk;
  total = total;
  resumable = resumable;
}

-- UploadRange::check; `out` is what is accepted.
unfoldable pub check : ℕ → ℕ → ℕ → Bool → ℕ → Answer
check part_size offset chunk has_total total =
    if not has_total
    then accepted (range_of part_size 0 chunk chunk false)
    else if chunk == 0
    then refused empty_body
    else if total == 0
    then refused zero_total
    else if not (offset == part_size)
    then refused (wrong_offset offset part_size)
    else if leb total offset
    then refused (at_end offset total)
    else if ltb total (end_offset (range_of part_size offset chunk total true))
    then refused (past_end chunk offset total)
    else accepted (range_of part_size offset chunk total true)
