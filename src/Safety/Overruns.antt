-- ===== src/Safety/Overruns.antt =====
-- wiring/src/core/unwire.rs: inputs on which the measured length of a value is too small for the read.
use wiring.Base.{
  ◌<◌, ◌≡◌, ◌^◌, suc, ◌*◌, undefined, ◌≤◌, leb, ◌++◌, ◌+◌, false, ok, ap, refl, ◌%◌, true, drop,
  ge→ltb, le→leb, length-append, ℕ, List, length, arith, sym, Bool, length-drop, ltb,
}
use wiring.Bytes.{to_be_bytes, length-to_be_bytes, isize_max}
use wiring.Decode.{
  Unwiring, safe, raw, UnsafeReader, read_raw, unsafe_sync_unwire, new_unsafe_reader,
  sync_unwire_u64, default_bytes_length, sync_unwiring_vec, unread,
}
use wiring.Decode.Containers.{vec_unwiring, pair_unwiring, string_unwiring}
use wiring.Decode.Laws.{u64_read}
use wiring.Decode.Numbers.{f32_unwiring, u64_unwiring, u8_unwiring}
use wiring.Safety.{At, read_raw-At}
use wiring.Safety.Containers.{u64-Agrees, u64_inv}

-- A raw read past the end.
read_raw_beyond :
    (n : ℕ) (r : UnsafeReader) (b : List ℕ) → At r b → length b < n → read_raw n r ≡ undefined
unfolding read_raw
read_raw_beyond n r b h lt =
    let beyond : leb (r.position + n) (length r.slice) ≡ false = ground arith in rw beyond

start-At : (b : List ℕ) → At (new_unsafe_reader b) b
unfolding new_unsafe_reader
start-At b = (refl, omega arith)

-- The length in front of a buffer, read by the raw reader.
raw_len :
    (n : ℕ) (rest : List ℕ) (r : UnsafeReader)
    → n < 2 ^ 64
    → At r (to_be_bytes 8 n ++ rest)
    → (r' : UnsafeReader) × (sync_unwire_u64 (raw r) ≡ ok (n, raw r')) × At r' rest
raw_len n rest r small h =
    let (c, ec, found) =
      u64-Agrees (to_be_bytes 8 n ++ rest) n (safe rest) (u64_read n rest small) in
    let (r', e, a) = found r h in (r', e, rw (ap unread (sym ec)) at a)

-- If the first element's read is undefined, so is the vector's.
vec_undefined :
    {A : Type 0} (u : Unwiring A) (n : ℕ) (rest : List ℕ) (r : UnsafeReader)
    → suc n < 2 ^ 64
    → suc n * u.size_of ≤ isize_max
    → ((r' : UnsafeReader) → At r' rest → u.sync_unwiring (raw r') ≡ undefined)
    → At r (to_be_bytes 8 (suc n) ++ rest)
    → sync_unwiring_vec u (raw r) ≡ undefined
unfolding sync_unwiring_vec
vec_undefined u n rest r small fits bad h =
    let (r', e, h') = raw_len (suc n) rest r small h in
    rw (e, ge→ltb isize_max (suc n * u.size_of) fits, bad r' h')

-- The measured length of a vector whose elements are not `MIXED`.
vec_measured :
    {A : Type 0} (u : Unwiring A) (n : ℕ) (rest : List ℕ)
    → n < 2 ^ 64
    → u.mixed ≡ false
    → u.fixed_size * n ≤ length rest
    → length rest < 2 ^ 63
    → (vec_unwiring u).bytes_length 1 (safe (to_be_bytes 8 n ++ rest))
      ≡ ok (8 + u.fixed_size * n, safe (drop (u.fixed_size * n) rest))
unfolding vec_unwiring default_bytes_length
vec_measured u n rest small m le short =
    let exact : u.fixed_size * n % 2 ^ 64 ≡ u.fixed_size * n = omega arith in
    let total : (8 + u.fixed_size * n) % 2 ^ 64 ≡ 8 + u.fixed_size * n = omega arith in
    rw (u64_read n rest small, m, exact, ge→ltb (length rest) (u.fixed_size * n) le, total)

-- Measured inside the buffer, and read outside of it.
overrun :
    {A : Type 0} (u : Unwiring A) (n : ℕ) (rest : List ℕ)
    → suc n < 2 ^ 64
    → suc n * u.size_of ≤ isize_max
    → u.mixed ≡ false
    → u.fixed_size * suc n ≤ length rest
    → length rest < 2 ^ 63
    → ((r : UnsafeReader) → At r rest → u.sync_unwiring (raw r) ≡ undefined)
    → unsafe_sync_unwire (vec_unwiring u) (new_unsafe_reader (to_be_bytes 8 (suc n) ++ rest))
      ≡ undefined
unfolding unsafe_sync_unwire new_unsafe_reader
overrun u n rest small fits m le short bad =
    let b = to_be_bytes 8 (suc n) ++ rest in
    let inside : leb ((0 + (8 + u.fixed_size * suc n)) % 2 ^ 64) (length b) ≡ true =
      le→leb _ (length b)
        (omega (arith, length-append (to_be_bytes 8 (suc n)) rest, length-to_be_bytes 8 (suc n))) in
    rw (vec_measured u (suc n) rest small m le short, inside)
      (unfold vec_unwiring in
        vec_undefined u n rest (new_unsafe_reader b) small fits bad (start-At b))

-- A buffer with the length of a vector of at least one f32 and fewer than 4 bytes behind it makes
-- BufUnWire::unwire::<Vec<f32>>() read outside the buffer, for every such length whose elements fit
-- isize::MAX bytes.
pub vec_f32_overrun :
    (n : ℕ) (rest : List ℕ)
    → suc n * 4 ≤ isize_max
    → length rest < 4
    → unsafe_sync_unwire
        (vec_unwiring f32_unwiring)
        (new_unsafe_reader (to_be_bytes 8 (suc n) ++ rest))
      ≡ undefined
unfolding f32_unwiring
vec_f32_overrun n rest small short =
    overrun f32_unwiring n rest (omega arith) small refl (omega arith) (omega arith)
      λ r h. rw (read_raw_beyond 4 r rest h short)

-- A buffer with the length of a vector of at least one (u8, String) and behind it at least that many
-- bytes, but fewer than 9, makes BufUnWire::unwire read outside the buffer, for every size of the
-- pair with which the vector fits isize::MAX bytes.
pub vec_pair_overrun :
    (valid_utf8 : List ℕ → Bool) (size n : ℕ) (rest : List ℕ)
    → suc n * size ≤ isize_max
    → suc n ≤ length rest
    → length rest < 9
    → unsafe_sync_unwire
        (vec_unwiring (pair_unwiring u8_unwiring (string_unwiring valid_utf8) size))
        (new_unsafe_reader (to_be_bytes 8 (suc n) ++ rest))
      ≡ undefined
unfolding pair_unwiring u8_unwiring string_unwiring
vec_pair_overrun valid_utf8 size n rest small one short =
    overrun (pair_unwiring u8_unwiring (string_unwiring valid_utf8) size) n rest (omega arith) small
      refl (omega arith) (omega arith)
      λ r h.
        let (r', e, h') = read_raw-At 1 r rest h (omega arith) in
        rw (e, read_raw_beyond 8 r' (drop 1 rest) h' (omega (arith, length-drop 1 rest)))

module _ (valid_utf8 : List ℕ → Bool) (n : ℕ) (rest : List ℕ) (small : n < 2 ^ 64)
    (held : length rest < n) (short : length rest < 2 ^ 63) where
  abbrev two_values : List ℕ
  two_values = to_be_bytes 8 0 ++ (to_be_bytes 8 n ++ rest)

  abbrev after_first : UnsafeReader
  after_first = record { slice = two_values; source_buffer_len = length two_values; position = 8 }

  length-two_values : length two_values ≡ 16 + length rest
  length-two_values = omega (
    arith,
    length-append (to_be_bytes 8 0) (to_be_bytes 8 n ++ rest),
    length-append (to_be_bytes 8 n) rest,
    length-to_be_bytes 8 0,
    length-to_be_bytes 8 n,
  )

  first_value :
      unsafe_sync_unwire u64_unwiring (new_unsafe_reader two_values) ≡ ok (0, raw after_first)
  unfolding unsafe_sync_unwire u64_unwiring new_unsafe_reader read_raw
  first_value =
      let (le, en, er) =
        u64_inv two_values 0 _ (u64_read 0 (to_be_bytes 8 n ++ rest) (omega arith)) in
      let whole : ltb (length two_values) 8 ≡ false = ge→ltb (length two_values) 8 le in
      let held_first : leb 8 (length two_values) ≡ true = le→leb 8 (length two_values) le in
      rw (whole, held_first, sym en)

  after_first-At : At after_first (to_be_bytes 8 n ++ rest)
  after_first-At =
      let (le, en, er) =
        u64_inv two_values 0 _ (u64_read 0 (to_be_bytes 8 n ++ rest) (omega arith)) in
      (
        ap unread (sym er),
        omega (
          arith,
          length-two_values,
          length-append (to_be_bytes 8 n) rest,
          length-to_be_bytes 8 n,
        ),
      )

  text_undefined :
      (r : UnsafeReader)
      → At r (to_be_bytes 8 n ++ rest)
      → (string_unwiring valid_utf8).sync_unwiring (raw r) ≡ undefined
  unfolding string_unwiring
  text_undefined r h =
      let (le, en, er) = u64_inv (to_be_bytes 8 n ++ rest) n (safe rest) (u64_read n rest small) in
      let (r', e', h') = read_raw-At 8 r (to_be_bytes 8 n ++ rest) h le in
      rw (e', sym en, read_raw_beyond n r' rest (rw (ap unread er) h') held)

  measured_empty :
      (string_unwiring valid_utf8).bytes_length 1 (safe two_values)
      ≡ ok (8, safe (to_be_bytes 8 n ++ rest))
  unfolding string_unwiring
  measured_empty =
      let nothing : ltb (length (to_be_bytes 8 n ++ rest)) 0 ≡ false = ge→ltb _ 0 (omega arith) in
      rw (u64_read 0 (to_be_bytes 8 n ++ rest) (omega arith), nothing)

  overrun_after_first : unsafe_sync_unwire (string_unwiring valid_utf8) after_first ≡ undefined
  unfolding unsafe_sync_unwire
  overrun_after_first =
      let inside : leb 16 (length two_values) ≡ true =
        le→leb 16 _ (omega (arith, length-two_values)) in
      rw (measured_empty, inside, text_undefined after_first after_first-At)

  -- On a buffer of a zero u64, a length n and fewer than n bytes, unwire::<u64>() succeeds, and
  -- unwire::<String>() on the same reader then reads outside the buffer: every call measures from
  -- the start of the buffer.
  pub second_unwire_overrun :
      (r : UnsafeReader) × (unsafe_sync_unwire u64_unwiring
          (new_unsafe_reader (to_be_bytes 8 0 ++ (to_be_bytes 8 n ++ rest)))
        ≡ ok (0, raw r))
      × (unsafe_sync_unwire (string_unwiring valid_utf8) r ≡ undefined)
  second_unwire_overrun = (after_first, first_value, overrun_after_first)
