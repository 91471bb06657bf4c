-- ===== src/Files/Upload/Examples.antt =====
-- Uploads at concrete numbers.
use dhcpserver.Base.{ℕ, ◌+◌, ◌≤◌, ◌<◌, ◌≡◌, ◌↔◌, refl, true, arith}
use dhcpserver.Files.Upload.{
  check, accepted, refused, past_end, range_of, completes, needed_bytes, end_offset,
}
use dhcpserver.Files.Upload.Accepts.{check_resumable}

-- The last six bytes of a file of ten.
check_resumable_example :
    ((check 4 4 6 true 10 ≡ accepted (range_of 4 4 6 10 true))
      ↔ ((0 < 6) × ◌≡◌ {A = ℕ} 4 4 × (4 + 6 ≤ 10)))
    × (check 4 4 6 true 10 ≡ accepted (range_of 4 4 6 10 true)
        → ((completes (range_of 4 4 6 10 true) ≡ true) ↔ ◌≡◌ {A = ℕ} (4 + 6) 10)
          × (6 ≤ needed_bytes (range_of 4 4 6 10 true)))
check_resumable_example = check_resumable 4 4 6 10 (omega arith)

last_chunk : check 4 4 6 true 10 ≡ accepted (range_of 4 4 6 10 true)
unfolding check end_offset
last_chunk = refl

too_long : check 4 4 7 true 10 ≡ refused (past_end 7 4 10)
unfolding check end_offset
too_long = refl
