-- ===== src/Callback/Files.antt =====
-- callback.cpp, from `stat` to the body: files that can be mapped, and one that cannot.
use httpd_cpp.Base.{
  ℕ, ◌≤◌, ◌<◌, ◌≡◌, refl, true, not, ◌||◌, inl, inr, List, length, take, none, some, ok, fail,
  out_of_bounds, leb-false_of_lt, le→leb, Option-cases, Bool-cases, if◌then◌else◌, arith,
}
use httpd_cpp.Bytes.{codes}
use httpd_cpp.HttpResponse.{
  HttpResponse, ok200, forbidden403, not_found404, set_status_code, set_body, set_content_type,
}
use httpd_cpp.Callback.{World, Stat, readable_at, string_at, answer}

-- If `stat` finds a regular file at the path that its owner may read, then where `mmap` maps it as
-- many bytes can be read as `stat` counted. For an empty file that asks nothing.
abbrev pub Maps : World → List ℕ → Type 0
Maps w path =
    (s : Stat)
    → w.stat path ≡ some s
    → s.regular ≡ true
    → s.readable ≡ true
    → s.size ≤ length (readable_at (w.mmap s.size (w.open_file path)))

-- The response where the file can be mapped.
unfoldable pub answered : World → List ℕ → HttpResponse → HttpResponse
answered w path response = elim (w.stat path) [
  | none ↦
      set_content_type (codes "test/html")
        (set_body (codes "<html>") (set_status_code not_found404 response))
  | some s ↦
      if not s.regular || not s.readable
      then set_status_code forbidden403 response
      else set_body (take s.size (readable_at (w.mmap s.size (w.open_file path))))
          (set_content_type (codes "text/html") (set_status_code ok200 response))
]

pub answer_lem :
    (w : World) (path : List ℕ) (response : HttpResponse)
    → Maps w path
    → answer w path response ≡ ok (answered w path response)
unfolding answer answered string_at
answer_lem w path response maps = elim (Option-cases (w.stat path)) [
  | inl n ↦ rw (n, answer, answered) refl
  | inr (s, n) ↦ elim (Bool-cases (not s.regular || not s.readable)) [
    | inl b ↦ rw (n, b, answer, answered) refl
    | inr b ↦
        rw (n, b, le→leb _ _ (maps s n (ground arith) (ground arith)), answer, answered, string_at)
          refl
  ]
]

-- Where `mmap` fails for such a file that is not empty, the string is read from MAP_FAILED.
pub answer_unmapped :
    (w : World) (path : List ℕ) (response : HttpResponse) {s : Stat}
    → w.stat path ≡ some s
    → s.regular ≡ true
    → s.readable ≡ true
    → w.mmap s.size (w.open_file path) ≡ none
    → 0 < s.size
    → answer w path response ≡ fail out_of_bounds
unfolding answer string_at
answer_unmapped w path response {s} n r o failed some_bytes =
    rw (n, r, o, failed, leb-false_of_lt s.size 0 some_bytes, answer, string_at) refl
