-- ===== src/HttpResponse/Render.antt =====
-- The bytes of a response.
use httpd_cpp.Base.{
  ℕ, zero, suc, ◌+◌, ◌/◌, ◌%◌, ◌≤◌, ◌≡◌, refl, sym, ap, ◌∙◌, Bool, true, false, List, [], ◌∷◌, ◌++◌,
  length, if◌then◌else◌, Result, Returns, ◌>>=◌, arith, append-nil, append_assoc, length-append,
  take_all,
}
use httpd_cpp.Bytes.{codes, crlf}
use httpd_cpp.Buffer.{Buffer, max_size, append}
use httpd_cpp.Buffer.Content.{IsValid, contents}
use httpd_cpp.Buffer.Writing.{Appended, append_lem}
use httpd_cpp.StringMap.{Map}
use httpd_cpp.HttpResponse.{
  HttpResponse, number, decimal_from, decimal, in_buf, append_headers, append_connection,
  append_to_buffer,
}

abbrev Fits : List ℕ → Buffer → Type 0
Fits xs b = b.writer_index + length xs ≤ max_size

-- One `append`, and what follows it.
append_then :
    {b : Buffer} (xs ys : List ℕ) (k : Buffer → Result Buffer)
    → IsValid b
    → Fits (xs ++ ys) b
    → ((c : Buffer) → IsValid c → Fits ys c → Returns (k c) (Appended c ys))
    → Returns (append xs b >>= k) (Appended b (xs ++ ys))
append_then {b} xs ys k v h next =
    let (c, e, a) = append_lem xs v (omega (arith, length-append xs ys)) in
    let (d, f, t) = next c a.valid (omega (arith, a.bound, length-append xs ys)) in
    (
      d,
      rw e f,
      record {
        valid = t.valid;
        content = t.content ∙ ap (λ z. z ++ ys) a.content ∙ append_assoc (contents b) xs ys;
        bound = omega (arith, a.bound, t.bound, length-append xs ys);
        grown = λ n p q.
            t.grown n (a.grown n p (omega (arith, length-append xs ys)))
              (omega (arith, a.bound, length-append xs ys));
      },
    )

then_append :
    {b : Buffer} (xs ys : List ℕ) (m : Buffer → Result Buffer) (k : Buffer → Result Buffer)
    → Fits (xs ++ ys) b
    → Returns (m b) (Appended b xs)
    → ((c : Buffer) → IsValid c → Fits ys c → Returns (k c) (Appended c ys))
    → Returns (m b >>= k) (Appended b (xs ++ ys))
then_append {b} xs ys m k h (c, e, a) next =
    let (d, f, t) = next c a.valid (omega (arith, a.bound, length-append xs ys)) in
    (
      d,
      rw e f,
      record {
        valid = t.valid;
        content = t.content ∙ ap (λ z. z ++ ys) a.content ∙ append_assoc (contents b) xs ys;
        bound = omega (arith, a.bound, t.bound, length-append xs ys);
        grown = λ n p q.
            t.grown n (a.grown n p (omega (arith, length-append xs ys)))
              (omega (arith, a.bound, length-append xs ys));
      },
    )

abbrev pub render_headers : Map (List ℕ) → List ℕ
render_headers [] = []
render_headers ((k, v) ∷ m) = k ++ (codes ": " ++ (v ++ (crlf ++ render_headers m)))

-- A response that keeps the connection says how long its body is.
abbrev pub render_connection : Bool → List ℕ → List ℕ
render_connection close body =
    if close
    then codes "Connection: close" ++ crlf
    else (codes "Content-Length: " ++ (decimal (length body) ++ crlf))
      ++ (codes "Connection: Keep-Alive" ++ crlf)

abbrev pub status_line : HttpResponse → List ℕ
status_line r = codes "HTTP/1.1 " ++ (decimal (number r.status_code) ++ codes " ")

-- Status line, connection lines, headers, an empty line, body.
abbrev pub render : HttpResponse → List ℕ
render r =
    status_line r
    ++ (r.status_message
        ++ (crlf
            ++ (render_connection r.close_connection r.body
                ++ (render_headers r.headers ++ (crlf ++ r.body)))))

pub length-decimal_from :
    (fuel n : ℕ) (acc : List ℕ) → length (decimal_from fuel n acc) ≤ fuel + length acc
unfolding decimal_from
length-decimal_from zero n acc = omega arith
length-decimal_from (suc fuel) n acc =
    ground (arith, length-decimal_from fuel (n / 10) ((48 + n % 10) ∷ acc))

-- Neither `snprintf` is cut short.
in_buf-status_line : (r : HttpResponse) → in_buf (status_line r) ≡ status_line r
unfolding decimal
in_buf-status_line r = take_all 63 (status_line r) (
    omega (
      arith,
      length-append (decimal_from 20 (number r.status_code) []) (codes " "),
      length-decimal_from 20 (number r.status_code) [],
    ))

in_buf-content_length :
    (n : ℕ)
    → in_buf (codes "Content-Length: " ++ (decimal n ++ crlf))
      ≡ codes "Content-Length: " ++ (decimal n ++ crlf)
unfolding decimal
in_buf-content_length n =
    take_all 63 (codes "Content-Length: " ++ (decimal_from 20 n [] ++ crlf))
      (omega (arith, length-append (decimal_from 20 n []) crlf, length-decimal_from 20 n []))

append_headers_lem :
    {b : Buffer} (m : Map (List ℕ))
    → IsValid b
    → Fits (render_headers m) b
    → Returns (append_headers m b) (Appended b (render_headers m))
unfolding append_headers
append_headers_lem {b} [] v h = (
  b,
  refl,
  record {
    valid = v;
    content = sym (append-nil (contents b));
    bound = omega arith;
    grown = λ n p q. p;
  },
)
append_headers_lem ((k, w) ∷ m) v h = append_then k _ _ v h λ c vc hc.
    append_then (codes ": ") _ _ vc hc λ d vd hd.
      append_then w _ _ vd hd
        λ e ve he. append_then crlf _ _ ve he λ f vf hf. append_headers_lem m vf hf

append_connection_lem :
    {b : Buffer} (close : Bool) (body : List ℕ)
    → IsValid b
    → Fits (render_connection close body) b
    → Returns (append_connection close body b) (Appended b (render_connection close body))
unfolding append_connection
append_connection_lem true body v h = append_lem _ v h
append_connection_lem false body v h = rw (in_buf-content_length (length body)) (
    append_then (codes "Content-Length: " ++ (decimal (length body) ++ crlf)) _ _ v h
      λ c vc hc. append_lem _ vc hc)

-- `appendToBuffer` appends the bytes of the response to a valid buffer's content: no assert fails,
-- no line is cut short, and the buffer stays valid, as long as the writer index and these bytes
-- stay within the vector's limit.
pub append_to_buffer_lem :
    {b : Buffer} (r : HttpResponse)
    → IsValid b
    → b.writer_index + length (render r) ≤ max_size
    → Returns (append_to_buffer r b) (Appended b (render r))
unfolding append_to_buffer
append_to_buffer_lem r v h = rw (in_buf-status_line r) (
    append_then (status_line r) _ _ v h λ c vc hc. append_then r.status_message _ _ vc hc λ d vd hd.
      append_then crlf _ _ vd hd λ e ve he.
        then_append (render_connection r.close_connection r.body) _
          (append_connection r.close_connection r.body) _ he
          (append_connection_lem r.close_connection r.body ve (
            omega (
              arith,
              length-append (render_connection r.close_connection r.body)
                  (render_headers r.headers ++ (crlf ++ r.body)),
            )))
          λ f vf hf.
            then_append (render_headers r.headers) _ (append_headers r.headers) _ hf
              (append_headers_lem r.headers vf
                (omega (arith, length-append (render_headers r.headers) (crlf ++ r.body))))
              λ g vg hg. append_then crlf _ _ vg hg λ i vi hi. append_lem r.body vi hi)
