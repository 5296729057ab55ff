-- ===== src/Prelude/Slices.antt =====
-- `slice a n xs`: the `n` elements from position `a`, as `memcpy` reads them.
use Prim.Native.Nat.{ℕ, zero, suc, ◌+◌, ◌-◌, ◌≤◌, min}
use mathlib.Core.Path.{◌≡◌, refl, ap}
use mathlib.Core.List.{List, [], ◌∷◌, ◌++◌}
use native.Mathlib.Omega.{arith}
use native.Mathlib.Nat.{zero-add, suc-add}
use dictd.Prelude.Lists.{length, take, drop, length-take, length-drop}

module _ {ℓ} {A : Type ℓ} where
  abbrev pub slice : ℕ → ℕ → List A → List A
  slice a n xs = take n (drop a xs)

  pub length-slice : (a n : ℕ) (xs : List A) → length (slice a n xs) ≡ min n (length xs - a)
  length-slice a n xs = omega (arith, length-take n (drop a xs), length-drop a xs)

  pub take-nil : (n : ℕ) → take {A = A} n [] ≡ []
  take-nil zero = refl
  take-nil (suc n) = refl

  pub drop-nil : (n : ℕ) → drop {A = A} n [] ≡ []
  drop-nil zero = refl
  drop-nil (suc n) = refl

  pub take-append-take : (n m : ℕ) (xs : List A) → take n xs ++ take m (drop n xs) ≡ take (n + m) xs
  take-append-take zero m xs = rw (zero-add m)
  take-append-take (suc n) m [] = rw (take-nil m, take-nil (suc n + m))
  take-append-take (suc n) m (x ∷ xs) = rw (suc-add n m) (ap (λ l. x ∷ l) (take-append-take n m xs))

  pub drop-drop : (n m : ℕ) (xs : List A) → drop m (drop n xs) ≡ drop (n + m) xs
  drop-drop zero m xs = rw (zero-add m)
  drop-drop (suc n) m [] = rw (drop-nil m, drop-nil (suc n + m))
  drop-drop (suc n) m (x ∷ xs) = rw (suc-add n m) (drop-drop n m xs)

  -- Two adjacent slices are one.
  pub slice-append :
      (a n m : ℕ) (xs : List A) → slice a n xs ++ slice (a + n) m xs ≡ slice a (n + m) xs
  slice-append a n m xs = rw (← drop-drop a n xs) (take-append-take n m (drop a xs))

  drop-take : (o n : ℕ) (xs : List A) → drop o (take (o + n) xs) ≡ take n (drop o xs)
  drop-take zero n xs = rw (zero-add n)
  drop-take (suc o) n [] = rw (take-nil (suc o + n), take-nil n)
  drop-take (suc o) n (x ∷ xs) = rw (suc-add o n) (drop-take o n xs)

  take-take : (k n : ℕ) (xs : List A) → take k (take (k + n) xs) ≡ take k xs
  take-take zero n xs = refl
  take-take (suc k) n [] = rw (take-nil (suc k + n))
  take-take (suc k) n (x ∷ xs) = rw (suc-add k n) (ap (λ l. x ∷ l) (take-take k n xs))

  -- A slice of a slice.
  pub slice-slice :
      (a n o k : ℕ) (xs : List A) → o + k ≤ n → slice o k (slice a n xs) ≡ slice (a + o) k xs
  slice-slice a n o k xs h =
      let e : n ≡ o + (k + (n - o - k)) = omega arith in
      rw (e, drop-take o (k + (n - o - k)) (drop a xs), take-take k (n - o - k), drop-drop a o xs)

  pub take_all : (n : ℕ) (xs : List A) → length xs ≤ n → take n xs ≡ xs
  take_all zero [] h = refl
  take_all zero (x ∷ xs) h = absurd (omega arith)
  take_all (suc n) [] h = refl
  take_all (suc n) (x ∷ xs) h = ap (λ l. x ∷ l) (take_all n xs (omega arith))
