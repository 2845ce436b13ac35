-- ===== src/Callback/Reads.antt =====
-- The loop that reads a socket until it would block.
use httpd_cpp.Base.{
  ℕ, zero, suc, ◌+◌, ◌≤◌, ◌<◌, ◌≡◌, ◌≢◌, refl, sym, ap, ◌==◌, ◌∙◌, Bool, false, List, [], ◌∷◌, ◌++◌,
  length, length-append, append-nil, append_assoc, Option, some, arith, Returns, Returns-bind,
}
use httpd_cpp.Buffer.{Buffer, max_size}
use httpd_cpp.Buffer.Content.{IsValid, contents}
use httpd_cpp.Buffer
use httpd_cpp.Buffer.{cheap_prepend, initial_size}
use httpd_cpp.Buffer.Reading.{new_lem}
use httpd_cpp.Buffer.Content.{writable_bytes_lem}
use httpd_cpp.Base.{Result, ok, of_ok, between, ◌>>=◌, ◌≡◌, ◌+◌}
use httpd_cpp.Buffer.Fd.{Received, received, read_fd, read_fd_received, read_fd_failed}
use httpd_cpp.Callback.{read_all, eagain}

-- What `readv` answers from its n-th call on: each of these, not one of them empty, and then `last`.
abbrev pub Answers : (ℕ → ℕ → Received) → ℕ → List (List ℕ) → Received → Type 0
Answers readv n [] last = (space : ℕ) → readv n space ≡ last
Answers readv n (c ∷ cs) last =
    (c ≢ []) × ((space : ℕ) → readv n space ≡ received c) × Answers readv (n + 1) cs last

abbrev pub joined : List (List ℕ) → List ℕ
joined [] = []
joined (c ∷ cs) = c ++ joined cs

-- The buffer after the loop, and whether the loop broke off at EAGAIN.
abbrev pub Filled : Buffer → List ℕ → Bool → Option (Bool × Buffer) → Type 0
Filled b xs again o =
    (b' : Buffer) × (o ≡ some (again, b')) × IsValid b' × (contents b' ≡ contents b ++ xs)

-- The answers that end the loop: the end of the stream and the errors, EAGAIN among them.
pub data Ends : Received → Bool → Type 0 where
  hung_up : Ends (received []) false
  fails : (e : ℕ) → Ends (Received.failed e) (e == eagain)

pub read_all_lem :
    {b : Buffer} {last : Received} {again : Bool} (fuel : ℕ) (readv : ℕ → ℕ → Received) (n : ℕ)
    (cs : List (List ℕ))
    → IsValid b
    → Ends last again
    → Answers readv n cs last
    → length cs < fuel
    → length b.bytes + length (joined cs) ≤ max_size
    → Returns (read_all fuel readv n b) (Filled b (joined cs) again)
unfolding read_all
read_all_lem zero readv n cs v d a h k = absurd (omega arith)
read_all_lem {b} (suc fuel) readv n [] v hung_up a h k =
    Returns-bind (read_fd (readv n) b) _ (read_fd_received (readv n) [] v (a _) (omega arith))
      λ o p. rw p.0 (_, refl, (o.1, refl, p.1.valid, p.1.content))
read_all_lem {b} (suc fuel) readv n [] v (fails e) a h k =
    rw (read_fd_failed b (readv n) e (a _)) (_, refl, (b, refl, v, sym (append-nil (contents b))))
read_all_lem {b} (suc fuel) readv n ([] ∷ cs) v d (c, a, r) h k = absurd (c refl)
read_all_lem {b} (suc fuel) readv n ((x ∷ xs) ∷ cs) v d (c, a, r) h k =
    Returns-bind (read_fd (readv n) b) _
      (read_fd_received (readv n) (x ∷ xs) v (a _)
        (omega (arith, length-append (x ∷ xs) (joined cs))))
      λ o p. rw p.0 (
        let w = p.1 in
        let space = w.grown (length b.bytes + length (x ∷ xs)) (omega arith) (omega arith) in
        let (f, e, (b', g, v', same)) =
          read_all_lem fuel readv (n + 1) cs w.valid d r (omega arith)
            (omega (arith, space, length-append (x ∷ xs) (joined cs))) in
        (
          f,
          e,
          (
            b',
            g,
            v',
            same
                ∙ ap (λ l. l ++ joined cs) w.content
                ∙ append_assoc (contents b) (x ∷ xs) (joined cs),
          ),
        ))

-- The loop on a new buffer, before whatever follows it.
pub new_read_all_lem {ℓ κ} :
    {A : Type ℓ} {P : A → Type κ} {last : Received} {again : Bool} (fuel : ℕ)
    (readv : ℕ → ℕ → Received) (cs : List (List ℕ)) (rest : Option (Bool × Buffer) → Result A)
    → Ends last again
    → Answers readv 0 cs last
    → length cs < fuel
    → cheap_prepend + initial_size + length (joined cs) ≤ max_size
    → ((b : Buffer) → IsValid b → contents b ≡ joined cs → Returns (rest (some (again, b))) P)
    → Returns (Buffer.new initial_size >>= λ b. read_all fuel readv 0 b >>= rest) P
new_read_all_lem fuel readv cs rest d a h k next =
    Returns-bind (Buffer.new initial_size) _ (new_lem initial_size (omega arith)) λ b f.
      Returns-bind (read_all fuel readv 0 b) rest
        (read_all_lem fuel readv 0 cs f.valid d a h
          (omega (arith, f.space, f.start, writable_bytes_lem f.valid)))
        λ o p.
          let (b', e, v, same) = p in rw e (next b' v (same ∙ ap (λ c. c ++ joined cs) f.content))

-- The same, where what follows always ends in `x`, also in a fault.
pub reads_before {ℓ} :
    {A : Type ℓ} {x : Result A} {last : Received} {again : Bool} (fuel : ℕ)
    (readv : ℕ → ℕ → Received) (cs : List (List ℕ)) (rest : Option (Bool × Buffer) → Result A)
    → Ends last again
    → Answers readv 0 cs last
    → length cs < fuel
    → cheap_prepend + initial_size + length (joined cs) ≤ max_size
    → ((b : Buffer) → IsValid b → contents b ≡ joined cs → rest (some (again, b)) ≡ x)
    → (Buffer.new initial_size >>= λ b. read_all fuel readv 0 b >>= rest) ≡ x
reads_before {x = x} fuel readv cs rest d a h k next =
    let (y, e, p) =
      new_read_all_lem {P = λ y. y ≡ x} fuel readv cs (λ o. ok (rest o)) d a h k
        (λ b v same. (rest (some (_, b)), refl, next b v same)) in
    let (b, e1, reads) = between (Buffer.new initial_size) _ e in
    let (o, e2, ends) = between (read_all fuel readv 0 b) _ reads in rw (e1, e2) (of_ok ends ∙ p)
