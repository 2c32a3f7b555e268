-- ===== src/Std/Array.antt =====
-- Arrays of bytes: `a[i] = v` and `a[i..i + xs.len()].copy_from_slice(xs)`, which panic out of range.
use tache_rs.Prelude.{
  ℕ, zero, suc, ◌+◌, ◌-◌, ◌≤◌, ◌≡◌, refl, Option, none, some, List, [], ◌∷◌, ◌++◌, length,
  replicate, take, drop, ◌<◌, arith, length-append, append_assoc,
}
use tache_rs.Std.Exec.{Exec, ok, panicked}

abbrev cons? : ℕ → Option (List ℕ) → Option (List ℕ)
cons? x none = none
cons? x (some xs) = some (x ∷ xs)

-- `xs` over the front of the array.
unfoldable pub paste : List ℕ → List ℕ → Option (List ℕ)
paste [] a = some a
paste (x ∷ xs) [] = none
paste (x ∷ xs) (y ∷ a) = cons? x (paste xs a)

unfoldable pub overwrite : ℕ → List ℕ → List ℕ → Option (List ℕ)
unfolding paste
overwrite zero xs a = paste xs a
overwrite (suc i) xs [] = none
overwrite (suc i) xs (y ∷ a) = cons? y (overwrite i xs a)

module _ {E : Type 0} where
  abbrev stored : Option (List ℕ) → Exec (List ℕ) E Unit
  stored none a = (panicked, a)
  stored (some b) a = (ok tt, b)

  abbrev pub copy_from_slice : ℕ → List ℕ → Exec (List ℕ) E Unit
  copy_from_slice i xs a = stored (overwrite i xs a) a

  abbrev pub store : ℕ → ℕ → Exec (List ℕ) E Unit
  store i v = copy_from_slice i (v ∷ [])

paste-zeros :
    (xs : List ℕ) (m : ℕ)
    → length xs ≤ m
    → paste xs (replicate m 0) ≡ some (xs ++ replicate (m - length xs) 0)
unfolding paste
paste-zeros [] m h = let e : m - 0 ≡ m = omega arith in rw e
paste-zeros (x ∷ xs) zero h = absurd (omega arith)
paste-zeros (x ∷ xs) (suc m) h =
    let e : suc m - suc (length xs) ≡ m - length xs = omega arith in
    rw (e, paste-zeros xs m (omega arith))

-- An array that is filled from the front, with zeros behind.
abbrev pub filled : List ℕ → ℕ → List ℕ
filled xs n = xs ++ replicate (n - length xs) 0

overwrite-zeros :
    (front xs : List ℕ) (m : ℕ)
    → length xs ≤ m
    → overwrite (length front) xs (front ++ replicate m 0)
      ≡ some (front ++ (xs ++ replicate (m - length xs) 0))
unfolding overwrite
overwrite-zeros [] xs m h = paste-zeros xs m h
overwrite-zeros (y ∷ front) xs m h = rw (overwrite-zeros front xs m h)

-- Writing directly behind what has been filled extends it.
pub overwrite-filled :
    (front xs : List ℕ) (n i : ℕ)
    → i ≡ length front
    → length front + length xs ≤ n
    → overwrite i xs (filled front n) ≡ some (filled (front ++ xs) n)
overwrite-filled front xs n i e h =
    let room : n - length front - length xs ≡ n - length (front ++ xs) =
      omega (arith, length-append front xs) in
    rw
      (
        e,
        overwrite-zeros front xs (n - length front) (omega arith),
        room,
        ← append_assoc front xs (replicate (n - length (front ++ xs)) 0),
      )
      refl

paste_lem : (xs a : List ℕ) → length xs ≤ length a → paste xs a ≡ some (xs ++ drop (length xs) a)
unfolding paste
paste_lem [] a h = refl
paste_lem (x ∷ xs) [] h = absurd (omega arith)
paste_lem (x ∷ xs) (y ∷ a) h = rw (paste_lem xs a (omega arith)) refl

-- Within the array `overwrite` puts `xs` in the place of as many bytes from `i` on.
pub overwrite_lem :
    (i : ℕ) (xs a : List ℕ)
    → i + length xs ≤ length a
    → overwrite i xs a ≡ some (take i a ++ (xs ++ drop (i + length xs) a))
unfolding overwrite
overwrite_lem zero xs a h =
    let e : zero + length xs ≡ length xs = omega arith in rw e (paste_lem xs a (omega arith))
overwrite_lem (suc i) xs [] h = absurd (omega arith)
overwrite_lem (suc i) xs (y ∷ a) h =
    let e : suc i + length xs ≡ suc (i + length xs) = omega arith in
    rw (e, overwrite_lem i xs a (omega arith)) refl

-- Past the end there is no such place.
paste_short : (xs a : List ℕ) → length a < length xs → paste xs a ≡ none
unfolding paste
paste_short [] a h = absurd (omega arith)
paste_short (x ∷ xs) [] h = refl
paste_short (x ∷ xs) (y ∷ a) h = rw (paste_short xs a (omega arith)) refl

pub overwrite_short :
    (i : ℕ) (xs a : List ℕ) → 0 < length xs → length a < i + length xs → overwrite i xs a ≡ none
unfolding overwrite
overwrite_short zero xs a pos h = paste_short xs a (omega arith)
overwrite_short (suc i) xs [] pos h = refl
overwrite_short (suc i) xs (y ∷ a) pos h = rw (overwrite_short i xs a pos (omega arith)) refl
