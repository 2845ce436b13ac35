-- ===== src/Atomic.antt =====
-- atomic.h, and main_atomic.cpp, which tries it. A value is its bit pattern in a word of `modulus`
-- values, and arithmetic wraps. Each builtin is one indivisible step.
use httpd_cpp.Base.{
  ℕ, ◌+◌, ◌-◌, ◌%◌, ◌^◌, ◌<◌, ◌≡◌, refl, ◌==◌, if◌then◌else◌, Result, ok, assert, ◌>>=◌, ◌>>◌,
}
pub mod Counting

-- `__sync_val_compare_and_swap`: the old value, and the new one.
abbrev pub compare_and_swap : ℕ → ℕ → ℕ → ℕ × ℕ
compare_and_swap expected desired value = (value, if value == expected then desired else value)

abbrev pub new : ℕ
new = 0

unfoldable pub get : ℕ → ℕ × ℕ
get value = compare_and_swap 0 0 value

unfoldable pub get_and_set : ℕ → ℕ → ℕ × ℕ
get_and_set new_value value = (value, new_value)

module _ (modulus : ℕ) where
  unfoldable pub get_and_add : ℕ → ℕ → ℕ × ℕ
  get_and_add x value = (value, (value + x) % modulus)

  unfoldable pub add_and_get : ℕ → ℕ → ℕ × ℕ
  unfolding get_and_add
  add_and_get x value = let (old, value') = get_and_add x value in ((old + x) % modulus, value')

  unfoldable pub increment_and_get : ℕ → ℕ × ℕ
  unfolding add_and_get
  increment_and_get value = add_and_get 1 value

  -- -1 is the pattern with all bits set.
  unfoldable pub decrement_and_get : ℕ → ℕ × ℕ
  unfolding add_and_get
  decrement_and_get value = add_and_get (modulus - 1) value

  unfoldable pub add : ℕ → ℕ → ℕ
  unfolding get_and_add
  add x value = (get_and_add x value).1

  unfoldable pub increment : ℕ → ℕ
  unfolding increment_and_get
  increment value = (increment_and_get value).1

  unfoldable pub decrement : ℕ → ℕ
  unfolding decrement_and_get
  decrement value = (decrement_and_get value).1

  -- A step whose answer an assert compares.
  abbrev expect : ℕ → ℕ × ℕ → Result ℕ
  expect answer (result, value) = assert (result == answer) >> ok value

  -- One of the two blocks of `main`, on the word that it declares.
  unfoldable pub try_all : Result ℕ
  unfolding get get_and_set get_and_add add_and_get increment_and_get increment
  try_all = do
    value ← expect 0 (get new)
    value ← expect 0 (get_and_add 1 value)
    value ← expect 1 (get value)
    value ← expect 3 (add_and_get 2 value)
    value ← expect 3 (get value)
    value ← expect 4 (increment_and_get value)
    value ← expect 4 (get value)
    let value = increment value
    value ← expect 5 (get value)
    value ← expect 2 (add_and_get (modulus - 3) value)
    value ← expect 2 (get_and_set 100 value)
    expect 100 (get value)

unfoldable pub main : Result ℕ
unfolding try_all
main = try_all (2 ^ 64) >>= λ _. try_all (2 ^ 32)

-- The program ends with no failed assert.
main_passes : main ≡ ok 100
unfolding main
main_passes = refl
