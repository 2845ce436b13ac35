-- ===== src/Buffer/Content.antt =====
-- The readable bytes of a buffer, and when its indices are in order.
use httpd_cpp.Base.{
  ℕ, ◌+◌, ◌-◌, ◌≤◌, ◌≡◌, ap, ◌∙◌, List, ◌++◌, length, take, drop, slice, arith, length-append,
  length-take, length-drop, length-slice, slice_of_parts, ok, sym, take_all, take-slice, sub_size,
  sub_size_lem, le→leb,
}
use httpd_cpp.Buffer.{
  Buffer, cheap_prepend, max_size, readable_bytes, writable_bytes, copy_to, copy_from,
}

pub record IsValid (b : Buffer) : Type 0 where
  pub ordered : b.reader_index ≤ b.writer_index
  pub inside : b.writer_index ≤ length b.bytes
  pub room : cheap_prepend ≤ length b.bytes
  pub small : length b.bytes ≤ max_size

-- The content: the bytes from the reader's index to the writer's.
abbrev pub contents : Buffer → List ℕ
contents b = slice b.bytes b.reader_index b.writer_index

pub readable_bytes_lem :
    {b : Buffer} → IsValid b → readable_bytes b ≡ b.writer_index - b.reader_index
unfolding readable_bytes
readable_bytes_lem v = omega arith

pub writable_bytes_lem :
    {b : Buffer} → IsValid b → writable_bytes b ≡ length b.bytes - b.writer_index
unfolding writable_bytes
writable_bytes_lem v = omega arith

pub length-contents : {b : Buffer} → IsValid b → length (contents b) ≡ readable_bytes b
length-contents {b} v = omega (
  arith,
  readable_bytes_lem v,
  length-slice b.bytes b.reader_index b.writer_index v.ordered v.inside,
)

-- The content stands between what was read and what can be written.
pub contents_of_parts :
    (p c s : List ℕ) (i j : ℕ)
    → i ≡ length p
    → j ≡ i + length c
    → contents (record { bytes = p ++ (c ++ s); reader_index = i; writer_index = j }) ≡ c
contents_of_parts p c s i j hi hj = slice_of_parts p c s i j hi hj

pub copy_to_lem :
    (i : ℕ) (xs bytes : List ℕ)
    → i + length xs ≤ length bytes
    → copy_to i xs bytes ≡ ok (take i bytes ++ (xs ++ drop (i + length xs) bytes))
unfolding copy_to
copy_to_lem i xs bytes h = rw (le→leb _ _ h)

pub copy_from_lem :
    (i n : ℕ) (bytes : List ℕ)
    → i + n ≤ length bytes
    → copy_from i n bytes ≡ ok (slice bytes i (i + n))
unfolding copy_from
copy_from_lem i n bytes h = rw (le→leb _ _ h)

-- A copy keeps the length.
pub length-overwrite :
    (i : ℕ) (xs bytes : List ℕ)
    → i + length xs ≤ length bytes
    → length (take i bytes ++ (xs ++ drop (i + length xs) bytes)) ≡ length bytes
length-overwrite i xs bytes h = omega (
  arith,
  length-append (take i bytes) (xs ++ drop (i + length xs) bytes),
  length-append xs (drop (i + length xs) bytes),
  length-take i bytes,
  length-drop (i + length xs) bytes,
)

-- The bytes at `peek()` are the content, or a first part of it.
pub copy_from-take :
    {b : Buffer} (n : ℕ)
    → IsValid b
    → n ≤ b.writer_index - b.reader_index
    → copy_from b.reader_index n b.bytes ≡ ok (take n (contents b))
copy_from-take {b} n v h =
    copy_from_lem b.reader_index n b.bytes (omega arith)
    ∙ ap ok (sym (take-slice n b.reader_index b.writer_index b.bytes (omega arith)))

pub copy_from-contents :
    {b : Buffer}
    → IsValid b
    → copy_from b.reader_index (sub_size b.writer_index b.reader_index) b.bytes ≡ ok (contents b)
copy_from-contents {b} v = rw (sub_size_lem b.writer_index b.reader_index v.ordered (omega arith)) (
    copy_from-take (b.writer_index - b.reader_index) v (omega arith)
    ∙ ap ok (take_all _ (contents b) (omega (arith, length-contents v, readable_bytes_lem v))))
