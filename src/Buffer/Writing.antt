-- ===== src/Buffer/Writing.antt =====
-- Writing into a buffer.
use httpd_cpp.Base.{
  ℕ, ◌+◌, ◌-◌, ◌≤◌, ◌<◌, ◌≡◌, refl, ap, ◌∙◌, List, ◌++◌, length, take, drop, slice, replicate,
  arith, length-append, length-take, length-replicate, slice_of_parts, take-append-slice, take_all,
  slice-append_le, append_assoc, ok, Returns, Returns-bind, ltb, le→leb, lt→ltb, ltb→lt, ltb→le,
  ltb-false_of_le, ==_refl, Bool-cases, inl, inr, add_size, ◌>>=◌, add_size_lem,
}
use httpd_cpp.Buffer.{
  Buffer, cheap_prepend, max_size, readable_bytes, writable_bytes, prependable_bytes, copy_to,
  resize, has_written, make_space, ensure_writable_bytes, append,
}
use httpd_cpp.Buffer.Content.{
  IsValid, contents, readable_bytes_lem, writable_bytes_lem, length-contents, copy_to_lem,
  copy_from-contents, length-overwrite,
}

pub resize_lem :
    (n : ℕ) (bytes : List ℕ)
    → length bytes ≤ n
    → n ≤ max_size
    → resize n bytes ≡ ok (bytes ++ replicate (n - length bytes) 0)
unfolding resize
resize_lem n bytes h k = rw (ltb-false_of_le max_size n k, take_all n bytes h)

-- What `makeSpace` and `ensureWritableBytes` leave: the same content, and the space asked for.
pub record Roomy (b : Buffer) (len : ℕ) (b' : Buffer) : Type 0 where
  pub valid : IsValid b'
  pub content : contents b' ≡ contents b
  pub fits : len ≤ writable_bytes b'
  pub bound : b'.writer_index ≤ b.writer_index
  pub grown : (n : ℕ) → length b.bytes ≤ n → b.writer_index + len ≤ n → length b'.bytes ≤ n

module _ {b : Buffer} (len : ℕ) (v : IsValid b) (full : writable_bytes b < len)
    (h : b.writer_index + len ≤ max_size) where
  -- The vector grows to the writer's index and `len` bytes behind it.
  make_space_grow :
      add_size (writable_bytes b) (prependable_bytes b) < add_size len cheap_prepend
      → Returns (make_space len b) (Roomy b len)
  unfolding make_space writable_bytes
  make_space_grow t =
      rw
        (
          lt→ltb _ _ t,
          add_size_lem b.writer_index len (omega arith),
          resize_lem (b.writer_index + len) b.bytes (omega (arith, writable_bytes_lem v)) h,
        )
        (
          b',
          refl,
          record {
            valid = record {
              ordered = v.ordered;
              inside = omega (arith, size);
              room = omega (arith, size, v.room);
              small = omega (arith, size);
            };
            content =
                slice-append_le b.bytes zeros b.reader_index b.writer_index v.ordered v.inside;
            fits = omega (arith, size);
            bound = omega arith;
            grown = λ n p q. omega (arith, size, writable_bytes_lem v);
          },
        )
    where
      zeros : List ℕ
      zeros = replicate (b.writer_index + len - length b.bytes) 0

      b' : Buffer
      b' = record b { bytes = b.bytes ++ zeros }

      size : length (b.bytes ++ zeros) ≡ b.writer_index + len
      size = omega (
        arith,
        writable_bytes_lem v,
        length-append b.bytes zeros,
        length-replicate {A = ℕ} (b.writer_index + len - length b.bytes) 0,
      )

  -- The content moves down to the first index behind the cheap prepend.
  make_space_move :
      add_size len cheap_prepend ≤ add_size (writable_bytes b) (prependable_bytes b)
      → Returns (make_space len b) (Roomy b len)
  unfolding make_space prependable_bytes
  make_space_move t =
      rw
        (
          ltb-false_of_le _ _ t,
          lt→ltb cheap_prepend b.reader_index spare,
          copy_from-contents v,
          copy_to_lem cheap_prepend (contents b) b.bytes (omega (arith, size)),
          same,
          ==_refl (readable_bytes b),
        )
        (
          b',
          refl,
          record {
            valid = valid;
            content =
                slice_of_parts (take cheap_prepend b.bytes) (contents b) _ cheap_prepend
                  b'.writer_index (omega (arith, length-take cheap_prepend b.bytes, v.room))
                  (omega (arith, size, reach));
            fits = omega (arith, t, reach, kept, writable_bytes_lem valid, writable_bytes_lem v);
            bound = omega (arith, reach);
            grown = λ n p q. omega (arith, kept);
          },
        )
    where
      spare : cheap_prepend < b.reader_index
      spare = omega (arith, writable_bytes_lem v)

      size : length (contents b) ≡ b.writer_index - b.reader_index
      size = length-contents v ∙ readable_bytes_lem v

      moved : List ℕ
      moved =
          take cheap_prepend b.bytes
          ++ (contents b ++ drop (cheap_prepend + length (contents b)) b.bytes)

      b' : Buffer
      b' = record {
        bytes = moved;
        reader_index = cheap_prepend;
        writer_index = add_size cheap_prepend (readable_bytes b);
      }

      reach : b'.writer_index ≡ cheap_prepend + (b.writer_index - b.reader_index)
      reach = omega (arith, readable_bytes_lem v)

      kept : length moved ≡ length b.bytes
      kept = length-overwrite cheap_prepend (contents b) b.bytes (omega (arith, size))

      valid : IsValid b'
      valid = record {
        ordered = omega (arith, reach);
        inside = omega (arith, reach, kept);
        room = omega (arith, kept, v.room);
        small = omega (arith, kept, v.small);
      }

      same : readable_bytes b' ≡ readable_bytes b
      same = omega (arith, reach, readable_bytes_lem valid, readable_bytes_lem v)

-- `makeSpace` is called only where the space is short: then it makes it, and keeps the content.
make_space_lem :
    {b : Buffer} (len : ℕ)
    → IsValid b
    → writable_bytes b < len
    → b.writer_index + len ≤ max_size
    → Returns (make_space len b) (Roomy b len)
make_space_lem {b} len v full h =
    elim (Bool-cases
      (ltb (add_size (writable_bytes b) (prependable_bytes b)) (add_size len cheap_prepend))) [
        | inl e ↦ make_space_grow len v full h (ltb→lt _ _ e)
        | inr e ↦ make_space_move len v full h (ltb→le _ _ e)
      ]

-- On a valid buffer no assert of `ensureWritableBytes` and `makeSpace` fails and no copy leaves
-- the vector, as long as the writer index and `len` stay within the vector's limit; the content
-- stays the same, and `len` bytes can be written.
pub ensure_writable_bytes_lem :
    {b : Buffer} (len : ℕ)
    → IsValid b
    → b.writer_index + len ≤ max_size
    → Returns (ensure_writable_bytes len b) (Roomy b len)
unfolding ensure_writable_bytes
ensure_writable_bytes_lem {b} len v h = elim (Bool-cases (ltb (writable_bytes b) len)) [
  | inl e ↦ rw e (
      Returns-bind (make_space len b) _ (make_space_lem len v (ltb→lt _ _ e) h)
        (λ b' roomy. rw (le→leb _ _ roomy.fits) (b', refl, roomy)))
  | inr e ↦
      rw (e, le→leb _ _ (ltb→le _ _ e))
        (
          b,
          refl,
          record {
            valid = v;
            content = refl;
            fits = ltb→le _ _ e;
            bound = omega arith;
            grown = λ n p q. p;
          },
        )
]

-- What `append` leaves: the appended bytes behind the content.
pub record Appended (b : Buffer) (xs : List ℕ) (b' : Buffer) : Type 0 where
  pub valid : IsValid b'
  pub content : contents b' ≡ contents b ++ xs
  pub bound : b'.writer_index ≤ b.writer_index + length xs
  pub grown : (n : ℕ) → length b.bytes ≤ n → b.writer_index + length xs ≤ n → length b'.bytes ≤ n

-- The bytes of a buffer after `xs` was copied to where writing begins.
abbrev pub overwritten : Buffer → List ℕ → List ℕ
overwritten b xs = take b.writer_index b.bytes ++ (xs ++ drop (b.writer_index + length xs) b.bytes)

module _ {b : Buffer} (xs : List ℕ) (v : IsValid b) (fits : length xs ≤ writable_bytes b) where
  pub length-overwritten : length (overwritten b xs) ≡ length b.bytes
  length-overwritten =
      length-overwrite b.writer_index xs b.bytes (omega (arith, writable_bytes_lem v))

  pub copy_to_writer : copy_to b.writer_index xs b.bytes ≡ ok (overwritten b xs)
  copy_to_writer = copy_to_lem b.writer_index xs b.bytes (omega (arith, writable_bytes_lem v))

  content_overwritten :
      slice (overwritten b xs) b.reader_index (b.writer_index + length xs) ≡ contents b ++ xs
  content_overwritten =
      rw
        (
          ← take-append-slice b.reader_index b.writer_index b.bytes v.ordered,
          append_assoc,
          ← append_assoc (contents b) xs,
        )
        (slice_of_parts (take b.reader_index b.bytes) (contents b ++ xs) _ b.reader_index
          (b.writer_index + length xs) (omega (arith, length-take b.reader_index b.bytes))
          (omega (arith, length-append (contents b) xs, length-contents v, readable_bytes_lem v)))

  -- Advancing the writer's index over what was copied appends it.
  pub overwritten-Appended :
      Appended b xs
        (record b { bytes = overwritten b xs; writer_index = b.writer_index + length xs })
  overwritten-Appended = record {
    valid = record {
      ordered = omega arith;
      inside = omega (arith, length-overwritten, writable_bytes_lem v);
      room = omega (arith, v.room, length-overwritten);
      small = omega (arith, length-overwritten);
    };
    content = content_overwritten;
    bound = omega arith;
    grown = λ n p q. omega (arith, length-overwritten);
  }

  copied-IsValid : IsValid (record b { bytes = overwritten b xs })
  copied-IsValid = record {
    ordered = v.ordered;
    inside = omega (arith, length-overwritten);
    room = omega (arith, v.room, length-overwritten);
    small = omega (arith, length-overwritten);
  }

  copy_written :
      Returns
        (copy_to b.writer_index xs b.bytes >>= λ bytes.
          has_written (length xs) (record b { bytes = bytes }))
        (Appended b xs)
  unfolding has_written
  copy_written =
      rw
        (
          copy_to_writer,
          le→leb (length xs) (writable_bytes (record b { bytes = overwritten b xs })) (
              omega (
                arith,
                fits,
                length-overwritten,
                writable_bytes_lem v,
                writable_bytes_lem copied-IsValid,
              )),
          add_size_lem b.writer_index (length xs) (omega (arith, writable_bytes_lem v)),
        )
        (_, refl, overwritten-Appended)

-- `append` writes its bytes behind the content of a valid buffer, with no failed assert and no
-- copy outside the vector, and leaves the buffer valid, as long as the writer index and the new
-- bytes stay within the vector's limit.
pub append_lem :
    {b : Buffer} (xs : List ℕ)
    → IsValid b
    → b.writer_index + length xs ≤ max_size
    → Returns (append xs b) (Appended b xs)
unfolding append
append_lem {b} xs v h =
    Returns-bind (ensure_writable_bytes (length xs) b) _ (ensure_writable_bytes_lem (length xs) v h)
      λ room roomy.
        let (b', e, done) = copy_written xs roomy.valid roomy.fits in
        (
          b',
          e,
          record {
            valid = done.valid;
            content = done.content ∙ ap (λ c. c ++ xs) roomy.content;
            bound = omega (arith, done.bound, roomy.bound);
            grown = λ n p q. done.grown n (roomy.grown n p q) (omega (arith, roomy.bound));
          },
        )
