-- ===== src/Files/Upload/Accepts.antt =====
-- Which chunks an upload accepts.
use dhcpserver.Base.{ℕ, ◌+◌, ◌≤◌, ◌<◌, ◌≡◌, ◌↔◌, true, arith}
use dhcpserver.Files.Upload.{
  UploadRange, accepted, check, range_of, end_offset, completes, needed_bytes, u64_mod,
}

accepted_needs :
    (part offset chunk total : ℕ) (r : UploadRange)
    → offset + chunk < u64_mod
    → check part offset chunk true total ≡ accepted r
    → (0 < chunk) × (offset ≡ part) × (offset + chunk ≤ total)
unfolding check end_offset
accepted_needs part offset chunk total r h e =
    (ground (arith, e), ground (arith, e), ground (arith, e))

-- A resumable chunk, whose end does not wrap, is accepted exactly when it is not empty, begins where
-- the partial file ends and does not reach past the total; accepted, it completes the file exactly
-- when it ends at the total, and never needs less room than it has bytes.
pub check_resumable :
    (part offset chunk total : ℕ)
    → offset + chunk < u64_mod
    → let r = range_of part offset chunk total true in
      ((check part offset chunk true total ≡ accepted r)
        ↔ ((0 < chunk) × (offset ≡ part) × (offset + chunk ≤ total)))
      × (check part offset chunk true total ≡ accepted r
          → ((completes r ≡ true) ↔ (offset + chunk ≡ total)) × (chunk ≤ needed_bytes r))
unfolding check completes needed_bytes end_offset
check_resumable part offset chunk total h = (
  (
    λ e. accepted_needs part offset chunk total _ h e,
    λ (some_bytes, at_part, inside). ground arith,
  ),
  λ e.
      let (some_bytes, at_part, inside) = accepted_needs part offset chunk total _ h e in
      ((λ q. ground arith, λ q. ground arith), ground arith),
)
