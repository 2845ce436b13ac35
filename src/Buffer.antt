-- ===== src/Buffer.antt =====
-- buffer.h and buffer.cpp: the byte buffer between a socket and the parser.
-- `std::vector<char>` is a list of bytes, a pointer into it its index; an access outside it is a
-- fault. Sums and differences of `size_t` wrap. `readv` and `write` are functions from what they
-- are handed to what they answer.
pub mod Content
pub mod Writing
pub mod Reading
pub mod Find
pub mod Ints
pub mod Fd
use httpd_cpp.Base.{
  ℕ, ◌+◌, ◌-◌, ◌%◌, ◌^◌, List, [], ◌++◌, length, take, drop, replicate, slice, ltb, leb, ◌==◌,
  if◌then◌else◌, add_size, sub_size, Result, ok, fail, length_error, out_of_bounds, assert, ◌>>=◌,
  ◌>>◌,
}

pub record Buffer : Type 0 where
  pub bytes : List ℕ
  pub reader_index : ℕ
  pub writer_index : ℕ

abbrev pub cheap_prepend : ℕ
cheap_prepend = 8

abbrev pub initial_size : ℕ
initial_size = 1024

-- No vector or string of `char` is longer.
abbrev pub max_size : ℕ
max_size = 2 ^ 63 - 1

-- `vector::resize`: new bytes are 0.
pub resize : ℕ → List ℕ → Result (List ℕ)
resize n bytes =
    if ltb max_size n
    then fail length_error
    else ok (take n bytes ++ replicate (n - length bytes) 0)

-- `std::copy` and `memcpy` into a vector, and out of it.
pub copy_to : ℕ → List ℕ → List ℕ → Result (List ℕ)
copy_to i xs bytes =
    if leb (i + length xs) (length bytes)
    then ok (take i bytes ++ (xs ++ drop (i + length xs) bytes))
    else fail out_of_bounds

pub copy_from : ℕ → ℕ → List ℕ → Result (List ℕ)
copy_from i n bytes =
    if leb (i + n) (length bytes) then ok (slice bytes i (i + n)) else fail out_of_bounds

unfoldable pub readable_bytes : Buffer → ℕ
readable_bytes b = sub_size b.writer_index b.reader_index

unfoldable pub writable_bytes : Buffer → ℕ
writable_bytes b = sub_size (length b.bytes) b.writer_index

unfoldable pub prependable_bytes : Buffer → ℕ
prependable_bytes b = b.reader_index

unfoldable pub new : ℕ → Result Buffer
new n = do
  bytes ← resize (add_size cheap_prepend n) []
  let b : Buffer = record {
    bytes = bytes;
    reader_index = cheap_prepend;
    writer_index = cheap_prepend;
  }
  assert (readable_bytes b == 0)
  assert (writable_bytes b == n)
  assert (prependable_bytes b == cheap_prepend)
  ok b

-- The two buffers after the exchange of their fields.
unfoldable pub swap : Buffer → Buffer → Buffer × Buffer
swap b rhs = (
  record { bytes = rhs.bytes; reader_index = rhs.reader_index; writer_index = rhs.writer_index },
  record { bytes = b.bytes; reader_index = b.reader_index; writer_index = b.writer_index },
)

unfoldable pub retrieve_all : Buffer → Buffer
retrieve_all b = record b { reader_index = cheap_prepend; writer_index = cheap_prepend }

unfoldable pub retrieve : ℕ → Buffer → Result Buffer
retrieve len b = do
  assert (leb len (readable_bytes b))
  ok (
      if ltb len (readable_bytes b)
      then record b { reader_index = add_size b.reader_index len }
      else retrieve_all b)

unfoldable pub retrieve_until : ℕ → Buffer → Result Buffer
retrieve_until end b = do
  assert (leb b.reader_index end)
  assert (leb end b.writer_index)
  retrieve (sub_size end b.reader_index) b

unfoldable pub retrieve_as_string : ℕ → Buffer → Result (List ℕ × Buffer)
retrieve_as_string len b = do
  assert (leb len (readable_bytes b))
  result ← copy_from b.reader_index len b.bytes
  rest ← retrieve len b
  ok (result, rest)

unfoldable pub retrieve_all_as_string : Buffer → Result (List ℕ × Buffer)
retrieve_all_as_string b = retrieve_as_string (readable_bytes b) b

-- The length goes through an `int`: a negative one becomes a `size_t` that no string can have.
unfoldable pub to_string : Buffer → Result (List ℕ)
to_string b =
    let n = readable_bytes b % 2 ^ 32 in
    if ltb n (2 ^ 31) then copy_from b.reader_index n b.bytes else fail length_error

unfoldable pub has_written : ℕ → Buffer → Result Buffer
has_written len b = do
  assert (leb len (writable_bytes b))
  ok (record b { writer_index = add_size b.writer_index len })

unfoldable pub unwrite : ℕ → Buffer → Result Buffer
unwrite len b = do
  assert (leb len (readable_bytes b))
  ok (record b { writer_index = sub_size b.writer_index len })

-- The readable bytes are moved down when that makes the space; else the vector grows.
unfoldable pub make_space : ℕ → Buffer → Result Buffer
make_space len b =
    if ltb (add_size (writable_bytes b) (prependable_bytes b)) (add_size len cheap_prepend)
    then (do bytes ← resize (add_size b.writer_index len) b.bytes; ok (record b { bytes = bytes }))
    else (do
      assert (ltb cheap_prepend b.reader_index)
      let readable = readable_bytes b
      content ← copy_from b.reader_index (sub_size b.writer_index b.reader_index) b.bytes
      bytes ← copy_to cheap_prepend content b.bytes
      let b' : Buffer = record {
        bytes = bytes;
        reader_index = cheap_prepend;
        writer_index = add_size cheap_prepend readable;
      }
      assert (readable == readable_bytes b')
      ok b')

unfoldable pub ensure_writable_bytes : ℕ → Buffer → Result Buffer
ensure_writable_bytes len b = do
  b' ← if ltb (writable_bytes b) len then make_space len b else ok b
  assert (leb len (writable_bytes b'))
  ok b'

unfoldable pub append : List ℕ → Buffer → Result Buffer
append xs b = do
  room ← ensure_writable_bytes (length xs) b
  bytes ← copy_to room.writer_index xs room.bytes
  has_written (length xs) (record room { bytes = bytes })

unfoldable pub prepend : List ℕ → Buffer → Result Buffer
prepend xs b = do
  assert (leb (length xs) (prependable_bytes b))
  let start = sub_size b.reader_index (length xs)
  bytes ← copy_to start xs b.bytes
  ok (record b { bytes = bytes; reader_index = start })

unfoldable pub shrink : ℕ → Buffer → Result Buffer
shrink reserve b = do
  fresh ← new initial_size
  roomy ← ensure_writable_bytes (add_size (readable_bytes b) reserve) fresh
  text ← to_string b
  other ← append text roomy
  ok (swap b other).0
