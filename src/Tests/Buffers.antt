-- ===== src/Tests/Buffers.antt =====
-- Small buffers, and the theorems about them at those.
use httpd_cpp.Base.{ℕ, List, ◌≡◌, ◌≢◌, refl, [], ◌∷◌, ◌++◌, some, ok, Returns, ◌>>=◌, arith}
use httpd_cpp.Bytes.{codes, crlf, search, starts_with}
use httpd_cpp.Bytes.Search.{split_line}
use httpd_cpp.Buffer.{Buffer, append, retrieve}
use httpd_cpp.SocketOps.Transfer
use httpd_cpp.SocketOps.Transfer.{write_lem}
use httpd_cpp.Buffer.Content.{IsValid, contents}
use httpd_cpp.Buffer.Writing.{Appended, append_lem}
use httpd_cpp.Buffer.Reading.{Holds, retrieve_lem}
use httpd_cpp.Buffer.Find.{
  find_crlf, find_crlf_from, line_end, find_crlf_lem, find_crlf_overloads_differ,
}
use httpd_cpp.Buffer.Ints.{prepend_int32, read_int32, read-prepend_int32}
use httpd_cpp.Buffer.Fd.{Received, received, Sent, sent, read_fd, read_fd_received}

-- Eight bytes before the content "ab\r\nc", and two behind it.
abbrev small : Buffer
small = record {
  bytes = 0 ∷ 0 ∷ 0 ∷ 0 ∷ 0 ∷ 0 ∷ 0 ∷ 0 ∷ 97 ∷ 98 ∷ 13 ∷ 10 ∷ 99 ∷ 0 ∷ 0 ∷ [];
  reader_index = 8;
  writer_index = 13;
}

-- The same bytes, all read.
abbrev drained : Buffer
drained = record small { reader_index = 13 }

small-IsValid : IsValid small
small-IsValid = omega arith

drained-IsValid : IsValid drained
drained-IsValid = omega arith

append_grows :
    Returns (append (codes "defg") small) (λ b. contents b ≡ codes "ab" ++ (crlf ++ codes "cdefg"))
append_grows =
    let (b, e, a) = append_lem (codes "defg") small-IsValid (omega arith) in (b, e, a.content)

append_lem_example : Returns (append (codes "defg") small) (Appended small (codes "defg"))
append_lem_example = append_lem (codes "defg") small-IsValid (omega arith)

retrieve_lem_example : Returns (retrieve 2 small) (Holds (13 ∷ 10 ∷ 99 ∷ []))
retrieve_lem_example = retrieve_lem 2 small-IsValid (omega arith)

find_crlf_lem_example : find_crlf small ≡ line_end small (split_line (contents small))
find_crlf_lem_example = find_crlf_lem small-IsValid

find_crlf_small : find_crlf small ≡ some 10
unfolding find_crlf search starts_with
find_crlf_small = refl

find_crlf_overloads_differ_example : find_crlf_from 8 small ≢ ok (find_crlf small)
find_crlf_overloads_differ_example =
    find_crlf_overloads_differ (codes "ab") (codes "c") small-IsValid refl

read-prepend_int32_example :
    Returns
      (prepend_int32 1024 small >>= read_int32)
      (λ r. (r.0 ≡ 1024) × Holds (contents small) r.1)
read-prepend_int32_example = read-prepend_int32 1024 small-IsValid (omega arith) (omega arith)

-- A peer that sends three bytes, one more than can be written without growing.
abbrev three : ℕ → Received
three space = received (codes "xyz")

read_fd_received_example :
    Returns
      (read_fd three small)
      (λ r. (r.0 ≡ received (codes "xyz")) × Appended small (codes "xyz") r.1)
read_fd_received_example = read_fd_received three (codes "xyz") small-IsValid refl (omega arith)

-- A system that moves one byte at a call.
abbrev one_sent : ℕ → List ℕ → Sent
one_sent n xs = sent 1

write_lem_example :
    Transfer.write 4 one_sent 0 (codes "xyz")
    ≡ some (record { result = sent 3; taken = codes "xyz" })
write_lem_example =
    write_lem one_sent 0 4 (codes "xyz") (λ n xs h. (0, refl, omega arith)) (omega arith)
