-- ===== src/Decode/Truncated.antt =====
-- wiring/src/core/unwire.rs: a text whose bytes end early.
use wiring.Base.{
  unexpected_eof, [], List, ℕ, Bool, ◌≤◌, length, ◌<◌, ◌≡◌, true, ◌++◌, err, ok, ◌^◌, arith, ltb,
  lt→ltb, ◌∙◌, ap, sym, ge→ltb, take_beyond, drop_beyond,
}
use wiring.Bytes.{to_be_bytes, isize_max}
use wiring.Decode.{unread, safe_string, read_exact, split_slice, safe}
use wiring.Decode.Async.{string_async_unwiring, u64_async_unwiring}
use wiring.Decode.AsyncReads.{u64-Follows}
use wiring.Decode.Containers.{string_unwiring}
use wiring.Decode.Laws.{u64_read}
use wiring.Decode.Numbers.{u64_unwiring}

-- On a text of n bytes, at most isize::MAX, whose bytes end early, sync_unwiring returns
-- UnexpectedEof, but the asynchronous unwiring returns the shorter text, if that is valid UTF-8.
pub truncated_string :
    (valid_utf8 : List ℕ → Bool) (n : ℕ) (s : List ℕ)
    → n ≤ isize_max
    → length s < n
    → valid_utf8 s ≡ true
    → ((string_unwiring valid_utf8).sync_unwiring (safe (to_be_bytes 8 n ++ s))
        ≡ err unexpected_eof)
      × (string_async_unwiring valid_utf8 (to_be_bytes 8 n ++ s) ≡ ok (s, []))
unfolding string_unwiring string_async_unwiring safe_string read_exact split_slice u64_unwiring
truncated_string valid_utf8 n s small short valid =
    let big : n < 2 ^ 64 = omega arith in
    let (c, same, async) = u64-Follows (to_be_bytes 8 n ++ s) n (safe s) (u64_read n s big) in
    let eof : ltb (length s) n ≡ true = lt→ltb (length s) n short in
    let async_read : u64_async_unwiring (to_be_bytes 8 n ++ s) ≡ ok (n, s) =
      async ∙ ap (λ (d : List ℕ). ok (n, d)) (sym (ap unread same)) in
    (
      rw (u64_read n s big, ge→ltb isize_max n small, eof),
      rw (async_read, take_beyond n s (omega arith), drop_beyond n s (omega arith), valid),
    )
