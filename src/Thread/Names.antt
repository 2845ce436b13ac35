-- ===== src/Thread/Names.antt =====
-- The names that threads get by default.
use httpd_cpp.Base.{
  ℕ, ◌+◌, ◌%◌, ◌^◌, ◌<◌, ◌≤◌, ◌≡◌, ◌≢◌, sym, ap, ◌∙◌, List, [], ◌∷◌, ◌++◌, length, take, take_all,
  arith,
}
use httpd_cpp.Bytes.{codes}
use httpd_cpp.HttpResponse.{decimal}
use httpd_cpp.Atomic.{increment_and_get}
use httpd_cpp.HttpResponse.Decimal.{value, value-decimal}
use httpd_cpp.HttpResponse.Render.{length-decimal_from}
use httpd_cpp.Thread
use httpd_cpp.Thread.{Thread}

-- Threads made one after the other without a name, and the counter left.
unfoldable pub make_all : List ℕ → ℕ → List Thread × ℕ
make_all [] num_created = ([], num_created)
make_all (func ∷ funcs) num_created =
    let (t, num_created') = Thread.new func [] num_created in
    let (ts, last) = make_all funcs num_created' in (t ∷ ts, last)

abbrev pub Unlike : List ℕ → List Thread → Type 0
Unlike name [] = Unit
Unlike name (t ∷ ts) = (name ≢ t.name) × Unlike name ts

abbrev pub AllUnlike : List Thread → Type 0
AllUnlike [] = Unit
AllUnlike (t ∷ ts) = Unlike t.name ts × AllUnlike ts

default_name_lem : (n : ℕ) → take 31 (codes "Thread" ++ decimal n) ≡ codes "Thread" ++ decimal n
unfolding decimal
default_name_lem n =
    take_all 31 (codes "Thread" ++ decimal n) (omega (arith, length-decimal_from 20 n []))

default_name_inj :
    (m n : ℕ)
    → m < 2 ^ 32
    → n < 2 ^ 32
    → codes "Thread" ++ decimal m ≡ codes "Thread" ++ decimal n
    → m ≡ n
default_name_inj m n h k e =
    let same : decimal m ≡ decimal n = cc in
    sym (value-decimal m (omega arith)) ∙ ap value same ∙ value-decimal n (omega arith)

default_name : ℕ → List ℕ
default_name n = codes "Thread" ++ decimal n

-- What the constructor does without a name.
new_unnamed :
    (func c : ℕ)
    → c + 1 < 2 ^ 32
    → ((Thread.new func [] c).0.name ≡ default_name (c + 1)) × ((Thread.new func [] c).1 ≡ c + 1)
unfolding Thread.new Thread.set_default_name increment_and_get default_name
new_unnamed func c h =
    let wraps : (c + 1) % 2 ^ 32 ≡ c + 1 = omega arith in
    (ap (λ n. take 31 (codes "Thread" ++ decimal n)) wraps ∙ default_name_lem (c + 1), wraps)

make_all-Unlike :
    (funcs : List ℕ) (m c : ℕ)
    → m ≤ c
    → c + length funcs < 2 ^ 32
    → Unlike (default_name m) (make_all funcs c).0
unfolding make_all default_name
make_all-Unlike [] m c h k = tt
make_all-Unlike (func ∷ funcs) m c h k =
    let (name, count) = new_unnamed func c (omega arith) in
    rw (name, count)
      (
        (λ e. absurd (omega (arith, default_name_inj m (c + 1) (omega arith) (omega arith) e))),
        make_all-Unlike funcs m (c + 1) (omega arith) (omega arith),
      )

-- Threads made one after the other without a name, while the counter stays below 2 ^ 32: their
-- names are all different.
pub make_all-AllUnlike :
    (funcs : List ℕ) (c : ℕ) → c + length funcs < 2 ^ 32 → AllUnlike (make_all funcs c).0
unfolding make_all
make_all-AllUnlike [] c k = tt
make_all-AllUnlike (func ∷ funcs) c k =
    let (name, count) = new_unnamed func c (omega arith) in
    rw (name, count)
      (
        make_all-Unlike funcs (c + 1) (c + 1) (omega arith) (omega arith),
        make_all-AllUnlike funcs (c + 1) (omega arith),
      )
