-- ===== src/SocketOps/Transfer.antt =====
-- socket_ops.cpp: `sockets::read` and `sockets::write`, the loops that go on until all bytes are
-- moved. The system's `read` and `write` are parameters: what they answer at the n-th call.
use httpd_cpp.Base.{
  ℕ, zero, suc, ◌+◌, ◌-◌, ◌≤◌, ◌<◌, ◌≡◌, refl, ◌∙◌, ap, List, [], ◌∷◌, ◌++◌, length, append-nil,
  take, drop, Option, none, some, if◌then◌else◌, ◌==◌, arith, take-append-drop, append_assoc,
  length-drop, length-append,
}
use httpd_cpp.Buffer.Fd.{Received, received, Sent, sent}

abbrev pub eintr : ℕ
eintr = 4

-- `acc` is what was read before, into the front of the caller's memory. -1 comes with its `errno`;
-- `none` is an end of the fuel.
unfoldable pub read_rest : ℕ → (ℕ → ℕ → Received) → ℕ → ℕ → List ℕ → Option Received
read_rest zero read n left acc = none
read_rest (suc fuel) read n zero acc = some (received acc)
read_rest (suc fuel) read n (suc m) acc = elim (read n (suc m)) [
  | received [] ↦ some (received acc)
  | received (x ∷ xs) ↦ read_rest fuel read (n + 1) (suc m - length (x ∷ xs)) (acc ++ (x ∷ xs))
  | Received.failed e ↦
      (let again = read_rest fuel read (n + 1) (suc m) acc in
        if e == eintr then again else some (Received.failed e))
]

unfoldable pub read : ℕ → (ℕ → ℕ → Received) → ℕ → Option Received
read fuel system count = read_rest fuel system 0 count []

-- What the loop returns, and the bytes that `write` took.
pub record Written : Type 0 where
  pub result : Sent
  pub taken : List ℕ

-- A `write` that answers 0 leaves `errno` as it was.
unfoldable pub write_rest : ℕ → (ℕ → List ℕ → Sent) → ℕ → ℕ → List ℕ → List ℕ → Option Written
write_rest zero write n errno left acc = none
write_rest (suc fuel) write n errno [] acc =
    some (record { result = sent (length acc); taken = acc })
write_rest (suc fuel) write n errno (x ∷ xs) acc = elim (write n (x ∷ xs)) [
  | sent zero ↦
      (let again = write_rest fuel write (n + 1) errno (x ∷ xs) acc in
        if errno == eintr then again else some (record { result = Sent.failed errno; taken = acc }))
  | sent (suc k) ↦
      write_rest fuel write (n + 1) errno (drop (suc k) (x ∷ xs)) (acc ++ take (suc k) (x ∷ xs))
  | Sent.failed e ↦
      (let again = write_rest fuel write (n + 1) e (x ∷ xs) acc in
        if e == eintr then again else some (record { result = Sent.failed e; taken = acc }))
]

unfoldable pub write : ℕ → (ℕ → List ℕ → Sent) → ℕ → List ℕ → Option Written
write fuel system errno buf = write_rest fuel system 0 errno buf []

-- A system whose `write` takes one byte at least and no more than it is handed, at every call.
abbrev pub Takes : (ℕ → List ℕ → Sent) → Type 0
Takes system =
    (n : ℕ) (xs : List ℕ)
    → 0 < length xs
    → (k : ℕ) × (system n xs ≡ sent (suc k)) × (suc k ≤ length xs)

write_rest_lem :
    (system : ℕ → List ℕ → Sent) (errno : ℕ)
    → Takes system
    → (fuel n : ℕ) (left acc : List ℕ) → length left < fuel
    → write_rest fuel system n errno left acc
      ≡ some (record { result = sent (length (acc ++ left)); taken = acc ++ left })
unfolding write_rest
write_rest_lem system errno t zero n left acc h = absurd (omega arith)
write_rest_lem system errno t (suc fuel) n [] acc h = rw (append-nil acc) refl
write_rest_lem system errno t (suc fuel) n (x ∷ xs) acc h =
    let (k, e, fits) = t n (x ∷ xs) (omega arith) in
    rw (e, write_rest)
      (write_rest_lem system errno t fuel (n + 1) (drop k xs) (acc ++ (x ∷ take k xs))
          (omega (arith, length-drop k xs))
        ∙ ap (λ l. some (record { result = sent (length l); taken = l }))
            (append_assoc acc (x ∷ take k xs) (drop k xs)
              ∙ ap (λ l. acc ++ (x ∷ l)) (take-append-drop k xs)))

-- If every `write` takes one byte at least and no more than it is handed, and the fuel is above
-- the number of bytes: `sockets::write` returns the number of bytes, and exactly these bytes were
-- taken, in their order.
pub write_lem :
    (system : ℕ → List ℕ → Sent) (errno fuel : ℕ) (buf : List ℕ)
    → Takes system
    → length buf < fuel
    → write fuel system errno buf ≡ some (record { result = sent (length buf); taken = buf })
unfolding write
write_lem system errno fuel buf t h = write_rest_lem system errno t fuel 0 buf [] h

-- A system whose `read` gives one byte at least and no more than there is space for, at every call.
abbrev pub Gives : (ℕ → ℕ → Received) → Type 0
Gives system =
    (n m : ℕ) → (x : ℕ) × (xs : List ℕ) × (system n (suc m) ≡ received (x ∷ xs)) × (length xs ≤ m)

read_rest_lem :
    (system : ℕ → ℕ → Received)
    → Gives system
    → (fuel n left : ℕ) (acc : List ℕ) → left < fuel
    → (r : List ℕ) × (read_rest fuel system n left acc ≡ some (received r))
      × (length r ≡ length acc + left)
unfolding read_rest
read_rest_lem system g zero n left acc h = absurd (omega arith)
read_rest_lem system g (suc fuel) n zero acc h = (acc, refl, omega arith)
read_rest_lem system g (suc fuel) n (suc m) acc h =
    let (x, xs, e, fits) = g n m in
    let (r, f, total) =
      read_rest_lem system g fuel (n + 1) (suc m - length (x ∷ xs)) (acc ++ (x ∷ xs))
        (omega arith) in
    (r, rw (e, read_rest) f, omega (arith, total, length-append acc (x ∷ xs)))

-- If every `read` gives one byte at least and no more than there is space for, and the fuel is
-- above the count: `sockets::read` returns as many bytes as were asked for.
read_lem :
    (system : ℕ → ℕ → Received) (fuel count : ℕ)
    → Gives system
    → count < fuel
    → (r : List ℕ) × (read fuel system count ≡ some (received r)) × (length r ≡ count)
unfolding read
read_lem system fuel count g h =
    let (r, e, total) = read_rest_lem system g fuel 0 count [] h in (r, e, omega (arith, total))
