-- ===== src/Buffer/Reading.antt =====
-- Taking bytes out of a buffer, at its front and back, and putting bytes before them.
use httpd_cpp.Base.{
  ℕ, ◌+◌, ◌-◌, ◌%◌, ◌^◌, ◌≤◌, ◌<◌, ◌≡◌, refl, sym, ap, ◌∙◌, List, [], ◌++◌, length, take, drop,
  slice, replicate, arith, length-append, length-take, length-replicate, slice_of_parts, take_all,
  drop_all, take-slice, drop-slice, drop-eq-slice-append, append_assoc, ok, fail, assertion,
  Returns, Returns-bind, ltb, le→leb, lt→ltb, ltb→lt, ltb→le, leb-false_of_lt, ==_refl, Bool-cases,
  inl, inr, sub_size, add_size_lem, sub_size_lem,
}
use httpd_cpp.Buffer.{
  Buffer, cheap_prepend, initial_size, max_size, readable_bytes, writable_bytes, prependable_bytes,
  new, retrieve, retrieve_all, retrieve_until, retrieve_as_string, retrieve_all_as_string,
  to_string, unwrite, prepend, shrink, swap, ensure_writable_bytes, append,
}
use httpd_cpp.Buffer.Content.{
  IsValid, contents, readable_bytes_lem, writable_bytes_lem, length-contents, copy_to_lem,
  copy_from-take, length-overwrite,
}
use httpd_cpp.Buffer.Writing.{resize_lem, ensure_writable_bytes_lem, append_lem}

-- A valid buffer with this content.
pub record Holds (xs : List ℕ) (b : Buffer) : Type 0 where
  pub valid : IsValid b
  pub content : contents b ≡ xs

-- A new buffer is valid and empty, and has the space asked for.
pub record Fresh (n : ℕ) (b : Buffer) : Type 0 where
  pub valid : IsValid b
  pub content : contents b ≡ []
  pub space : writable_bytes b ≡ n
  pub start : b.writer_index ≡ cheap_prepend

pub new_lem : (n : ℕ) → cheap_prepend + n ≤ max_size → Returns (new n) (Fresh n)
unfolding new prependable_bytes
new_lem n h =
    rw
      (
        add_size_lem cheap_prepend n (omega arith),
        resize_lem (cheap_prepend + n) [] (omega arith) h,
        empty,
        space,
        ==_refl n,
      )
      (b, refl, record { valid = valid; content = refl; space = space; start = refl })
  where
    b : Buffer
    b = record {
      bytes = replicate (cheap_prepend + n - 0) 0;
      reader_index = cheap_prepend;
      writer_index = cheap_prepend;
    }

    size : length b.bytes ≡ cheap_prepend + n
    size = omega (arith, length-replicate {A = ℕ} (cheap_prepend + n - 0) 0)

    valid : IsValid b
    valid = omega (arith, size)

    empty : readable_bytes b ≡ 0
    empty = omega (arith, readable_bytes_lem valid)

    space : writable_bytes b ≡ n
    space = omega (arith, size, writable_bytes_lem valid)

-- `retrieveAll` forgets the content.
pub retrieve_all_lem : {b : Buffer} → IsValid b → Holds [] (retrieve_all b)
unfolding retrieve_all
retrieve_all_lem v = record {
  valid = record { ordered = omega arith; inside = v.room; room = v.room; small = v.small };
  content = refl;
}

-- `retrieve` drops `len` bytes of the content if it has so many.
pub retrieve_lem :
    {b : Buffer} (len : ℕ)
    → IsValid b
    → len ≤ length (contents b)
    → Returns (retrieve len b) (Holds (drop len (contents b)))
unfolding retrieve
retrieve_lem {b} len v h = elim (Bool-cases (ltb len (readable_bytes b))) [
  | inl e ↦
      rw
        (
          le→leb len (readable_bytes b) fits,
          e,
          add_size_lem b.reader_index len (omega (arith, ltb→lt _ _ e, readable_bytes_lem v)),
        )
        (
          record b { reader_index = b.reader_index + len },
          refl,
          record {
            valid = record {
              ordered = omega (arith, ltb→lt _ _ e, readable_bytes_lem v);
              inside = v.inside;
              room = v.room;
              small = v.small;
            };
            content = sym (
                drop-slice len b.reader_index b.writer_index b.bytes
                  (omega (arith, ltb→lt _ _ e, readable_bytes_lem v)));
          },
        )
  | inr e ↦
      rw (le→leb len (readable_bytes b) fits, e)
        (
          retrieve_all b,
          refl,
          record {
            valid = (retrieve_all_lem v).valid;
            content =
                (retrieve_all_lem v).content
                ∙ sym (drop_all len (contents b) (omega (arith, length-contents v, ltb→le _ _ e)));
          },
        )
]
  where
    fits : len ≤ readable_bytes b
    fits = omega (arith, length-contents v)

-- `retrieve` fails its assert if the content is shorter.
pub retrieve_too_much :
    {b : Buffer} (len : ℕ) → IsValid b → length (contents b) < len → retrieve len b ≡ fail assertion
unfolding retrieve
retrieve_too_much {b} len v h =
    rw (leb-false_of_lt len (readable_bytes b) (omega (arith, length-contents v)))

-- `retrieveUntil` drops the content up to the pointer that it is given.
pub retrieve_until_lem :
    {b : Buffer} (len : ℕ)
    → IsValid b
    → len ≤ length (contents b)
    → Returns (retrieve_until (b.reader_index + len) b) (Holds (drop len (contents b)))
unfolding retrieve_until
retrieve_until_lem {b} len v h =
    rw
      (
        le→leb b.reader_index (b.reader_index + len) (omega arith),
        le→leb (b.reader_index + len) b.writer_index
            (omega (arith, length-contents v, readable_bytes_lem v)),
        (let e : sub_size (b.reader_index + len) b.reader_index ≡ len =
              omega (arith, length-contents v, readable_bytes_lem v) in
            e),
      )
      (retrieve_lem len v h)

-- What `retrieveAsString` returns with the buffer that it leaves: the content, cut in two.
pub record Split (xs ys : List ℕ) (r : List ℕ × Buffer) : Type 0 where
  pub result : r.0 ≡ xs
  pub rest : Holds ys r.1

-- `retrieveAsString` on a valid buffer returns the first `len` bytes and leaves the others, if the
-- content has so many.
retrieve_as_string_lem :
    {b : Buffer} (len : ℕ)
    → IsValid b
    → len ≤ length (contents b)
    → Returns (retrieve_as_string len b) (Split (take len (contents b)) (drop len (contents b)))
unfolding retrieve_as_string
retrieve_as_string_lem {b} len v h =
    rw
      (
        le→leb len (readable_bytes b) (omega (arith, length-contents v)),
        copy_from-take len v (omega (arith, length-contents v, readable_bytes_lem v)),
      )
      (Returns-bind (retrieve len b) _ (retrieve_lem len v h)
        λ rest held. ((take len (contents b), rest), refl, record { result = refl; rest = held }))

-- `retrieveAllAsString` returns the whole content and leaves an empty buffer.
pub retrieve_all_as_string_lem :
    {b : Buffer} → IsValid b → Returns (retrieve_all_as_string b) (Split (contents b) [])
unfolding retrieve_all_as_string
retrieve_all_as_string_lem {b} v = rw (← length-contents v) (
    let (r, e, s) = retrieve_as_string_lem (length (contents b)) v (omega arith) in
    (
      r,
      e,
      record {
        result = s.result ∙ take_all _ (contents b) (omega arith);
        rest = record {
          valid = s.rest.valid;
          content = s.rest.content ∙ drop_all _ (contents b) (omega arith);
        };
      },
    ))

-- `toString` returns the content, below 2 ^ 31 bytes.
pub to_string_lem :
    {b : Buffer} → IsValid b → length (contents b) < 2 ^ 31 → to_string b ≡ ok (contents b)
unfolding to_string
to_string_lem {b} v h =
    rw
      (
        (let e : readable_bytes b % 2 ^ 32 ≡ length (contents b) =
              omega (arith, length-contents v) in
            e),
        lt→ltb (length (contents b)) (2 ^ 31) h,
        copy_from-take (length (contents b)) v
            (omega (arith, length-contents v, readable_bytes_lem v)),
      )
      (ap ok (take_all _ (contents b) (omega arith)))

-- `prepend` puts its bytes before the content of a valid buffer, if there is room for them before
-- it.
pub prepend_lem :
    {b : Buffer} (xs : List ℕ)
    → IsValid b
    → length xs ≤ b.reader_index
    → Returns (prepend xs b) (Holds (xs ++ contents b))
unfolding prepend prependable_bytes
prepend_lem {b} xs v h =
    rw
      (
        le→leb (length xs) b.reader_index h,
        sub_size_lem b.reader_index (length xs) h (omega (arith, v.ordered)),
        copy_to_lem start xs b.bytes (omega arith),
      )
      (
        b',
        refl,
        record {
          valid = record {
            ordered = omega (arith, v.ordered);
            inside = omega (arith, size);
            room = omega (arith, size, v.room);
            small = omega (arith, size);
          };
          content = rw (arrange) (
              slice_of_parts (take start b.bytes) (xs ++ contents b) (drop b.writer_index b.bytes)
                start b.writer_index (omega (arith, length-take start b.bytes))
                (omega
                  (arith, length-append xs (contents b), length-contents v, readable_bytes_lem v)));
        },
      )
  where
    start : ℕ
    start = b.reader_index - length xs

    moved : List ℕ
    moved = take start b.bytes ++ (xs ++ drop (start + length xs) b.bytes)

    b' : Buffer
    b' = record b { bytes = moved; reader_index = start }

    size : length moved ≡ length b.bytes
    size = length-overwrite start xs b.bytes (omega arith)

    tail : drop (start + length xs) b.bytes ≡ contents b ++ drop b.writer_index b.bytes
    tail =
        ap (λ k. drop k b.bytes) (omega arith)
        ∙ drop-eq-slice-append b.reader_index b.writer_index b.bytes v.ordered

    arrange : moved ≡ take start b.bytes ++ ((xs ++ contents b) ++ drop b.writer_index b.bytes)
    arrange =
        ap (λ t. take start b.bytes ++ (xs ++ t)) tail
        ∙ ap (◌++◌ (take start b.bytes)) (sym (append_assoc xs (contents b) _))

-- `prepend` fails its assert if they are not.
pub prepend_too_much :
    (b : Buffer) (xs : List ℕ) → b.reader_index < length xs → prepend xs b ≡ fail assertion
unfolding prepend prependable_bytes
prepend_too_much b xs h = rw (leb-false_of_lt (length xs) b.reader_index h)

-- `unwrite` takes `len` bytes back from the end of a valid buffer's content, if it has so many.
pub unwrite_lem :
    {b : Buffer} (len : ℕ)
    → IsValid b
    → len ≤ length (contents b)
    → Returns (unwrite len b) (Holds (take (length (contents b) - len) (contents b)))
unfolding unwrite
unwrite_lem {b} len v h =
    rw
      (
        le→leb len (readable_bytes b) (omega (arith, length-contents v)),
        sub_size_lem b.writer_index len (omega (arith, length-contents v, readable_bytes_lem v))
            (omega (arith, v.inside)),
      )
      (
        record b { writer_index = b.writer_index - len },
        refl,
        record {
          valid = record {
            ordered = omega (arith, length-contents v, readable_bytes_lem v);
            inside = omega arith;
            room = v.room;
            small = v.small;
          };
          content = sym (
              take-slice (length (contents b) - len) b.reader_index b.writer_index b.bytes
                (omega (arith, length-contents v, readable_bytes_lem v))
              ∙ ap (slice b.bytes b.reader_index)
                  (omega (arith, length-contents v, readable_bytes_lem v)));
        },
      )

-- `shrink` of a valid buffer keeps the content, if its length and the reserve are below 2 ^ 31.
shrink_lem :
    {b : Buffer} (reserve : ℕ)
    → IsValid b
    → length (contents b) < 2 ^ 31
    → reserve < 2 ^ 31
    → Returns (shrink reserve b) (Holds (contents b))
unfolding shrink swap
shrink_lem {b} reserve v h k =
    Returns-bind (new initial_size) _ (new_lem initial_size (omega arith)) λ fresh f.
      rw (add_size_lem (readable_bytes b) reserve (omega (arith, length-contents v))) (
        Returns-bind (ensure_writable_bytes (readable_bytes b + reserve) fresh) _
          (ensure_writable_bytes_lem (readable_bytes b + reserve) f.valid
            (omega (arith, length-contents v, f.start)))
          λ roomy r. rw (to_string_lem v h) (
            Returns-bind (append (contents b) roomy) _
              (append_lem (contents b) r.valid (omega (arith, r.bound, f.start)))
              λ other a. (
                other,
                refl,
                record {
                  valid = a.valid;
                  content = a.content ∙ ap (λ c. c ++ contents b) (r.content ∙ f.content);
                },
              )))
