-- ===== src/HttpResponse/Framing.antt =====
-- What a client reads of a response that keeps the connection: lines up to an empty one, and a body
-- whose length one of them tells.
use mathlib.Core.Option
use httpd_cpp.Base.{
  ℕ, zero, suc, ◌+◌, ◌^◌, ◌≤◌, ◌<◌, ◌≡◌, ap, ◌∙◌, false, List, [], ◌∷◌, ◌++◌, length, Option, none,
  some, Returns, arith, append_assoc,
}
use httpd_cpp.Bytes.{codes, crlf}
use httpd_cpp.Bytes.Search.{Without, Without-append, split_line, split_line-append}
use httpd_cpp.StringMap.{Map}
use httpd_cpp.Buffer.{Buffer, max_size}
use httpd_cpp.Buffer.Content.{IsValid, contents}
use httpd_cpp.HttpResponse.{HttpResponse, number, decimal, append_to_buffer}
use httpd_cpp.HttpResponse.Render.{
  render, render_headers, render_connection, status_line, append_to_buffer_lem,
}
use httpd_cpp.HttpResponse.Decimal.{value, value-decimal, decimal-cr}

-- The lines before an empty line, and what stands behind it.
pub read_head : ℕ → List ℕ → Option (List (List ℕ) × List ℕ)
read_head zero text = none
read_head (suc fuel) text = elim (split_line text) [
  | none ↦ none
  | some ([], rest) ↦ some ([], rest)
  | some (c ∷ l, rest) ↦
      Option.map (λ (p : List (List ℕ) × List ℕ). ((c ∷ l) ∷ p.0, p.1)) (read_head fuel rest)
]

read_line :
    (fuel c : ℕ) (l rest : List ℕ) {ls : List (List ℕ)} {s : List ℕ}
    → Without 13 (c ∷ l)
    → read_head fuel rest ≡ some (ls, s)
    → read_head (suc fuel) (c ∷ l ++ (crlf ++ rest)) ≡ some ((c ∷ l) ∷ ls, s)
unfolding read_head
read_line fuel c l rest w e = rw (split_line-append (c ∷ l) rest w, read_head, e)

abbrev pub header_line : List ℕ → List ℕ → List ℕ
header_line k v = k ++ (codes ": " ++ v)

abbrev pub header_lines : Map (List ℕ) → List (List ℕ)
header_lines [] = []
header_lines ((k, v) ∷ m) = header_line k v ∷ header_lines m

abbrev pub NoBreaks : Map (List ℕ) → Type 0
NoBreaks [] = Unit {0}
NoBreaks ((k, v) ∷ m) = Without 13 k × Without 13 v × NoBreaks m

read_end : (fuel : ℕ) (rest : List ℕ) → read_head (suc fuel) (crlf ++ rest) ≡ some ([], rest)
unfolding read_head
read_end fuel rest = rw (split_line-append [] rest tt, read_head)

read_header_line :
    (fuel : ℕ) (k v rest : List ℕ) {ls : List (List ℕ)} {s : List ℕ}
    → Without 13 k
    → Without 13 v
    → read_head fuel rest ≡ some (ls, s)
    → read_head (suc fuel) (header_line k v ++ (crlf ++ rest)) ≡ some (header_line k v ∷ ls, s)
read_header_line fuel [] v rest h w e =
    read_line fuel b':' (32 ∷ v) rest ((omega arith), ((omega arith), w)) e
read_header_line fuel (c ∷ k) v rest h w e =
    read_line fuel c (header_line k v) rest
      (h.0, Without-append 13 k (codes ": " ++ v) h.1 ((omega arith), ((omega arith), w))) e

read_headers :
    (m : Map (List ℕ)) (fuel : ℕ) (rest : List ℕ)
    → NoBreaks m
    → length m < fuel
    → read_head fuel (render_headers m ++ (crlf ++ rest)) ≡ some (header_lines m, rest)
read_headers [] zero rest w h = absurd (omega arith)
read_headers ((k, v) ∷ m) zero rest w h = absurd (omega arith)
read_headers [] (suc fuel) rest w h = read_end fuel rest
read_headers ((k, v) ∷ m) (suc fuel) rest w h =
    ap (read_head (suc fuel)) regroup
    ∙ read_header_line fuel k v _ w.0 w.1 (read_headers m fuel rest w.2 (omega arith))
  where
    regroup :
        render_headers ((k, v) ∷ m) ++ (crlf ++ rest)
        ≡ header_line k v ++ (crlf ++ (render_headers m ++ (crlf ++ rest)))
    regroup = simp append_assoc

-- The head of a response that keeps the connection.
abbrev pub kept_head : HttpResponse → List ℕ → List (List ℕ)
kept_head r digits =
    (status_line r ++ r.status_message)
    ∷ (codes "Content-Length: " ++ digits)
    ∷ codes "Connection: Keep-Alive"
    ∷ header_lines r.headers

status_line-cr : (r : HttpResponse) → Without 13 (status_line r)
status_line-cr r = Without-append 13 (codes "HTTP/1.1 ") _ (omega arith) (
    Without-append 13 (decimal (number r.status_code)) (codes " ")
      (decimal-cr (number r.status_code)) (omega arith))

read_render :
    (r : HttpResponse) (fuel : ℕ)
    → Without 13 r.status_message
    → NoBreaks r.headers
    → length r.headers + 3 < fuel
    → read_head fuel (
        status_line r
        ++ (r.status_message
            ++ (crlf
                ++ (render_connection false r.body
                    ++ (render_headers r.headers ++ (crlf ++ r.body))))))
      ≡ some (kept_head r (decimal (length r.body)), r.body)
read_render r zero w m h = absurd (omega arith)
read_render r (suc zero) w m h = absurd (omega arith)
read_render r (suc (suc zero)) w m h = absurd (omega arith)
read_render r (suc (suc (suc fuel))) w m h =
    ap (read_head (suc (suc (suc fuel)))) regroup
    ∙ read_line (suc (suc fuel)) b'H' _ _
        (Without-append 13 (status_line r) r.status_message (status_line-cr r) w)
        (read_line (suc fuel) b'C' _ _
          (Without-append 13 (codes "Content-Length: ") (decimal (length r.body)) (omega arith)
            (decimal-cr (length r.body)))
          (read_line fuel b'C' _ _ (omega arith)
            (read_headers r.headers fuel r.body m (omega arith))))
  where
    after : List ℕ
    after = render_headers r.headers ++ (crlf ++ r.body)

    regroup :
        status_line r ++ (r.status_message ++ (crlf ++ (render_connection false r.body ++ after)))
        ≡ (status_line r ++ r.status_message)
          ++ (crlf
              ++ ((codes "Content-Length: " ++ decimal (length r.body))
                  ++ (crlf ++ (codes "Connection: Keep-Alive" ++ (crlf ++ after)))))
    regroup = simp append_assoc

-- A response that keeps the connection, with no CR in its message or headers and a body under 2 ^
-- 64 bytes, appended to an empty valid buffer within the vector's limit: a client that reads lines
-- up to the empty one, with fuel above the headers and three, finds the status line, the length of
-- the body in decimal digits, the request to keep the connection, and the headers in the order of
-- their keys; what is left is the body, and the digits stand for its length.
pub read_head-append_to_buffer :
    {b : Buffer} (r : HttpResponse) (fuel : ℕ)
    → IsValid b
    → contents b ≡ []
    → r.close_connection ≡ false
    → Without 13 r.status_message
    → NoBreaks r.headers
    → length r.headers + 3 < fuel
    → length r.body < 2 ^ 64
    → b.writer_index + length (render r) ≤ max_size
    → Returns (append_to_buffer r b) (λ b'.
      (digits : List ℕ) × (read_head fuel (contents b') ≡ some (kept_head r digits, r.body))
      × (value digits ≡ length r.body))
read_head-append_to_buffer {b} r fuel v empty keep w m h small fits =
    let (b', e, a) = append_to_buffer_lem r v fits in
    (
      b',
      e,
      (
        decimal (length r.body),
        ap (read_head fuel) (a.content ∙ ap (λ c. c ++ render r) empty ∙ kept)
            ∙ read_render r fuel w m h,
        value-decimal (length r.body) small,
      ),
    )
  where
    kept :
        render r
        ≡ status_line r
          ++ (r.status_message
              ++ (crlf
                  ++ (render_connection false r.body
                      ++ (render_headers r.headers ++ (crlf ++ r.body)))))
    kept =
        ap
          (λ c.
            status_line r
            ++ (r.status_message
                ++ (crlf
                    ++ (render_connection c r.body
                        ++ (render_headers r.headers ++ (crlf ++ r.body))))))
          keep
