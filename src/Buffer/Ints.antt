-- ===== src/Buffer/Ints.antt =====
-- Integers in network byte order, written to and read from a buffer. An integer is its bit pattern.
use httpd_cpp.Base.{
  ℕ, ◌+◌, ◌^◌, ◌≤◌, ◌<◌, ◌≡◌, refl, ap, ◌∙◌, List, [], ◌++◌, length, drop, Result, ok, Returns,
  Returns-bind, bind_ok, assert, leb, le→leb, ◌>>=◌, ◌>>◌, arith,
}
use httpd_cpp.SocketOps.{
  to_memory, from_memory, host_to_net32, host_to_net16, net_to_host32, net_to_host16,
}
use httpd_cpp.SocketOps.Order.{host_to_net32_memory, host_to_net16_memory}
use httpd_cpp.Buffer.{Buffer, max_size, readable_bytes, copy_from, retrieve, append, prepend}
use httpd_cpp.Buffer.Content.{
  IsValid, contents, length-contents, copy_from-take, readable_bytes_lem,
}
use httpd_cpp.Buffer.Writing.{append_lem}
use httpd_cpp.Buffer.Reading.{Holds, retrieve_lem, prepend_lem}

unfoldable pub append_int32 : ℕ → Buffer → Result Buffer
append_int32 x b = append (to_memory 4 (host_to_net32 x)) b

unfoldable pub append_int16 : ℕ → Buffer → Result Buffer
append_int16 x b = append (to_memory 2 (host_to_net16 x)) b

unfoldable pub append_int8 : ℕ → Buffer → Result Buffer
append_int8 x b = append (to_memory 1 x) b

unfoldable pub prepend_int32 : ℕ → Buffer → Result Buffer
prepend_int32 x b = prepend (to_memory 4 (host_to_net32 x)) b

unfoldable pub prepend_int16 : ℕ → Buffer → Result Buffer
prepend_int16 x b = prepend (to_memory 2 (host_to_net16 x)) b

unfoldable pub prepend_int8 : ℕ → Buffer → Result Buffer
prepend_int8 x b = prepend (to_memory 1 x) b

unfoldable pub peek_int32 : Buffer → Result ℕ
peek_int32 b = do
  assert (leb 4 (readable_bytes b))
  be32 ← copy_from b.reader_index 4 b.bytes
  ok (net_to_host32 (from_memory be32))

unfoldable pub peek_int16 : Buffer → Result ℕ
peek_int16 b = do
  assert (leb 2 (readable_bytes b))
  be16 ← copy_from b.reader_index 2 b.bytes
  ok (net_to_host16 (from_memory be16))

unfoldable pub peek_int8 : Buffer → Result ℕ
peek_int8 b = do
  assert (leb 1 (readable_bytes b))
  x ← copy_from b.reader_index 1 b.bytes
  ok (from_memory x)

unfoldable pub retrieve_int32 : Buffer → Result Buffer
retrieve_int32 b = retrieve 4 b

unfoldable pub retrieve_int16 : Buffer → Result Buffer
retrieve_int16 b = retrieve 2 b

unfoldable pub retrieve_int8 : Buffer → Result Buffer
retrieve_int8 b = retrieve 1 b

unfoldable pub retrieve_int64 : Buffer → Result Buffer
retrieve_int64 b = retrieve 8 b

unfoldable pub read_int32 : Buffer → Result (ℕ × Buffer)
read_int32 b = do result ← peek_int32 b; rest ← retrieve_int32 b; ok (result, rest)

unfoldable pub read_int8 : Buffer → Result (ℕ × Buffer)
read_int8 b = do result ← peek_int8 b; rest ← retrieve_int8 b; ok (result, rest)

-- The four bytes in network order stand before `rest`: `readInt32` returns the word and leaves `rest`.
read_int32_lem :
    {b : Buffer} (x : ℕ) (rest : List ℕ)
    → IsValid b
    → x < 2 ^ 32
    → contents b ≡ to_memory 4 (host_to_net32 x) ++ rest
    → Returns (read_int32 b) (λ r. (r.0 ≡ x) × Holds rest r.1)
unfolding read_int32 peek_int32 retrieve_int32
read_int32_lem {b} x rest v h e =
    rw
      (
        le→leb 4 (readable_bytes b) size,
        copy_from-take 4 v (omega (arith, size, readable_bytes_lem v)),
        e,
      )
      (Returns-bind (retrieve 4 b) _ (retrieve_lem 4 v (omega (arith, size, length-contents v)))
        λ b' held. (
          (_, b'),
          refl,
          (
            (host_to_net32_memory x h).0,
            record { valid = held.valid; content = held.content ∙ ap (drop 4) e },
          ),
        ))
  where
    size : 4 ≤ readable_bytes b
    size = omega (arith, length-contents v, ap length e)

peek_int16_lem :
    {b : Buffer} (x : ℕ) (rest : List ℕ)
    → IsValid b
    → x < 2 ^ 16
    → contents b ≡ to_memory 2 (host_to_net16 x) ++ rest
    → peek_int16 b ≡ ok x
unfolding peek_int16
peek_int16_lem {b} x rest v h e =
    rw
      (
        le→leb 2 (readable_bytes b) size,
        copy_from-take 2 v (omega (arith, size, readable_bytes_lem v)),
        e,
      )
      (ap ok (host_to_net16_memory x h).0)
  where
    size : 2 ≤ readable_bytes b
    size = omega (arith, length-contents v, ap length e)

-- `appendInt32` of a 32-bit word to an empty valid buffer, within the vector's limit, and then
-- `readInt32`, give the word back and leave the buffer empty.
read-append_int32 :
    {b : Buffer} (x : ℕ)
    → IsValid b
    → x < 2 ^ 32
    → contents b ≡ []
    → b.writer_index + 4 ≤ max_size
    → Returns (append_int32 x b >>= read_int32) (λ r. (r.0 ≡ x) × Holds [] r.1)
unfolding append_int32
read-append_int32 {b} x v h e k =
    Returns-bind (append (to_memory 4 (host_to_net32 x)) b) read_int32 (append_lem _ v k) λ b' a.
      read_int32_lem x [] a.valid h (a.content ∙ ap (λ c. c ++ to_memory 4 (host_to_net32 x)) e)

-- `prependInt32` of a 32-bit word to a valid buffer with four bytes before its content, and then
-- `readInt32`, give the word back and leave the content as it was.
pub read-prepend_int32 :
    {b : Buffer} (x : ℕ)
    → IsValid b
    → x < 2 ^ 32
    → 4 ≤ b.reader_index
    → Returns (prepend_int32 x b >>= read_int32) (λ r. (r.0 ≡ x) × Holds (contents b) r.1)
unfolding prepend_int32
read-prepend_int32 {b} x v h k =
    Returns-bind (prepend (to_memory 4 (host_to_net32 x)) b) read_int32 (prepend_lem _ v k)
      λ b' a. read_int32_lem x (contents b) a.valid h a.content

-- `prependInt16` of a 16-bit word to a valid buffer with two bytes before its content, and then
-- `peekInt16`, give the word back.
pub peek-prepend_int16 :
    {b : Buffer} (x : ℕ)
    → IsValid b
    → x < 2 ^ 16
    → 2 ≤ b.reader_index
    → (prepend_int16 x b >>= peek_int16) ≡ ok x
unfolding prepend_int16
peek-prepend_int16 {b} x v h k =
    let (b', e, held) = prepend_lem (to_memory 2 (host_to_net16 x)) v k in
    bind_ok (prepend (to_memory 2 (host_to_net16 x)) b) peek_int16 e
      (peek_int16_lem x (contents b) held.valid h held.content)
