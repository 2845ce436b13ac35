-- ===== src/Buffer/Fd.antt =====
-- buffer.cpp: a buffer and a file descriptor. `readv` and `write` are parameters: what they answer
-- to the space or the bytes that they are handed. One transfer moves less than 2 ^ 31 bytes, so
-- the `int` of `writeFd` holds its count.
use httpd_cpp.Base.{
  ℕ, ◌+◌, ◌≤◌, ◌≡◌, refl, ap, ◌∙◌, List, ◌++◌, length, take, drop, Result, ok, Returns,
  Returns-bind, ◌>>=◌, ltb, leb, Bool-cases, inl, inr, leb→le, le→leb, leb→gt, leb-false_of_lt,
  append_assoc, subst, ◌<◌, if◌then◌else◌, add_size, add_size_lem, arith, take-append-drop,
  take_all, length-take, length-drop,
}
use httpd_cpp.Buffer.{Buffer, max_size, readable_bytes, writable_bytes, copy_to, copy_from, append}
use httpd_cpp.Buffer.Content.{
  IsValid, contents, length-contents, copy_from-take, writable_bytes_lem, readable_bytes_lem,
}
use httpd_cpp.Buffer.Writing.{
  Appended, append_lem, copy_to_writer, overwritten, overwritten-Appended, length-overwritten,
}

-- The answer of `readv`: bytes (none at the end of the stream), or -1 and an `errno`.
pub data Received : Type 0 where
  received : List ℕ → Received
  failed : ℕ → Received

-- The answer of `write`: how many bytes it took, or -1 and an `errno`.
pub data Sent : Type 0 where
  sent : ℕ → Sent
  failed : ℕ → Sent

abbrev extra_size : ℕ
extra_size = 65536

-- `readv` fills the writable bytes first and the extra buffer after them.
store : ℕ → List ℕ → Buffer → Result Buffer
store writable xs b = do
  bytes ← copy_to b.writer_index (take writable xs) b.bytes
  if leb (length xs) writable
      then ok (record b { bytes = bytes; writer_index = add_size b.writer_index (length xs) })
      else append (drop writable xs) (record b { bytes = bytes; writer_index = length bytes })

-- The space that `readFd` hands to `readv`: two vectors, or one where it is long enough.
unfoldable pub offered : Buffer → ℕ
offered b =
    let writable = writable_bytes b in
    if ltb writable extra_size then writable + extra_size else writable

unfoldable pub read_fd : (ℕ → Received) → Buffer → Result (Received × Buffer)
unfolding store
read_fd readv b = elim (readv (offered b)) [
  | received xs ↦ (do b' ← store (writable_bytes b) xs b; ok (received xs, b'))
  | Received.failed e ↦ ok (Received.failed e, b)
]

unfoldable pub write_fd : (List ℕ → Sent) → Buffer → Result Sent
write_fd write b = do xs ← copy_from b.reader_index (readable_bytes b) b.bytes; ok (write xs)

module _ {b : Buffer} (xs : List ℕ) (v : IsValid b)
    (h : length b.bytes + length xs ≤ max_size) where
  store_within :
      length xs ≤ writable_bytes b → Returns (store (writable_bytes b) xs b) (Appended b xs)
  unfolding store
  store_within fits =
      rw
        (
          le→leb _ _ fits,
          take_all (writable_bytes b) xs fits,
          copy_to_writer xs v fits,
          add_size_lem b.writer_index (length xs) (omega (arith, writable_bytes_lem v)),
        )
        (_, refl, overwritten-Appended xs v fits)

  store_beyond :
      writable_bytes b < length xs → Returns (store (writable_bytes b) xs b) (Appended b xs)
  unfolding store
  store_beyond over =
      rw (leb-false_of_lt _ _ over, copy_to_writer front v fits)
        (let (b', e, a) =
            append_lem behind middle.valid
              (omega (arith, length-overwritten front v fits, length-drop (writable_bytes b) xs)) in
          (
            b',
            e,
            record {
              valid = a.valid;
              content =
                  a.content
                  ∙ ap (λ c. c ++ behind) middle.content
                  ∙ append_assoc (contents b) front behind
                  ∙ ap (◌++◌ (contents b)) (take-append-drop (writable_bytes b) xs);
              bound = omega (
                arith,
                a.bound,
                length-overwritten front v fits,
                length-drop (writable_bytes b) xs,
                writable_bytes_lem v,
              );
              grown = λ n p q. a.grown n (omega (arith, length-overwritten front v fits)) (
                  omega (
                    arith,
                    length-overwritten front v fits,
                    length-drop (writable_bytes b) xs,
                    writable_bytes_lem v,
                  ));
            },
          ))
    where
      front : List ℕ
      front = take (writable_bytes b) xs

      behind : List ℕ
      behind = drop (writable_bytes b) xs

      size : length front ≡ writable_bytes b
      size = omega (arith, length-take (writable_bytes b) xs)

      fits : length front ≤ writable_bytes b
      fits = omega (arith, size)

      reach : b.writer_index + length front ≡ length (overwritten b front)
      reach = omega (arith, size, length-overwritten front v fits, writable_bytes_lem v)

      middle :
          Appended b front
            (record b { bytes = overwritten b front; writer_index = length (overwritten b front) })
      middle =
          subst (λ k. Appended b front (record b { bytes = overwritten b front; writer_index = k }))
            reach (overwritten-Appended front v fits)

  store_lem : Returns (store (writable_bytes b) xs b) (Appended b xs)
  store_lem = elim (Bool-cases (leb (length xs) (writable_bytes b))) [
    | inl e ↦ store_within (leb→le _ _ e)
    | inr e ↦ store_beyond (leb→gt _ _ e)
  ]

-- If `readv` answers with bytes, the buffer is valid and the vector's length and these bytes stay
-- within its limit: `readFd` appends them to the content, those in the extra buffer too, and
-- returns them.
pub read_fd_received :
    {b : Buffer} (readv : ℕ → Received) (xs : List ℕ)
    → IsValid b
    → readv (offered b) ≡ received xs
    → length b.bytes + length xs ≤ max_size
    → Returns (read_fd readv b) (λ r. (r.0 ≡ received xs) × Appended b xs r.1)
unfolding read_fd
read_fd_received {b} readv xs v e h =
    rw (e, read_fd)
      (Returns-bind (store (writable_bytes b) xs b) _ (store_lem xs v h)
        λ b' a. ((received xs, b'), refl, (refl, a)))

-- If `readv` fails, the buffer is left alone and the error is passed on.
pub read_fd_failed :
    (b : Buffer) (readv : ℕ → Received) (e : ℕ)
    → readv (offered b) ≡ Received.failed e
    → read_fd readv b ≡ ok (Received.failed e, b)
unfolding read_fd
read_fd_failed b readv e h = rw (h, read_fd)

-- `writeFd` hands the whole content to `write`, and returns what `write` answers.
pub write_fd_lem :
    {b : Buffer} (write : List ℕ → Sent) → IsValid b → write_fd write b ≡ ok (write (contents b))
unfolding write_fd
write_fd_lem {b} write v = rw (
  copy_from-take (readable_bytes b) v (omega (arith, readable_bytes_lem v)),
  take_all (readable_bytes b) (contents b) (omega (arith, length-contents v)),
)
