-- ===== src/Base/Lists.antt =====
-- Lists measured and indexed by native numbers, under the library's names.
use Prim.Native.Nat.{ℕ, zero, suc, ◌+◌, ◌-◌, ◌≤◌, ◌<◌, min}
use mathlib.Core.Path.{◌≡◌, refl, ap, sym, ◌∙◌}
use mathlib.Core.List.{List, [], ◌∷◌, ◌++◌}
use mathlib.Core.Option.{Option, none, some}
use native.Mathlib.Omega.{arith}

module _ {ℓ} {A : Type ℓ} where
  abbrev pub length : List A → ℕ
  length [] = 0
  length (x ∷ xs) = suc (length xs)

  abbrev pub get_elem? : List A → ℕ → Option A
  get_elem? [] i = none
  get_elem? (x ∷ xs) zero = some x
  get_elem? (x ∷ xs) (suc i) = get_elem? xs i

  abbrev pub take : ℕ → List A → List A
  take zero xs = []
  take (suc n) [] = []
  take (suc n) (x ∷ xs) = x ∷ take n xs

  abbrev pub drop : ℕ → List A → List A
  drop zero xs = xs
  drop (suc n) [] = []
  drop (suc n) (x ∷ xs) = drop n xs

  abbrev pub replicate : ℕ → A → List A
  replicate zero a = []
  replicate (suc n) a = a ∷ replicate n a

module _ {ℓ} {A : Type ℓ} where
  pub length-append : (xs ys : List A) → length (xs ++ ys) ≡ length xs + length ys
  length-append [] ys = omega arith
  length-append (x ∷ xs) ys = omega (arith, length-append xs ys)

  pub take-append-drop : (n : ℕ) (xs : List A) → take n xs ++ drop n xs ≡ xs
  take-append-drop zero xs = refl
  take-append-drop (suc n) [] = refl
  take-append-drop (suc n) (x ∷ xs) = ap (λ r. x ∷ r) (take-append-drop n xs)

  pub length-take : (n : ℕ) (xs : List A) → length (take n xs) ≡ min n (length xs)
  length-take zero xs = omega arith
  length-take (suc n) [] = omega arith
  length-take (suc n) (x ∷ xs) = omega (arith, length-take n xs)

  pub length-drop : (n : ℕ) (xs : List A) → length (drop n xs) ≡ length xs - n
  length-drop zero xs = omega arith
  length-drop (suc n) [] = omega arith
  length-drop (suc n) (x ∷ xs) = omega (arith, length-drop n xs)

  pub length-replicate : (n : ℕ) (a : A) → length (replicate n a) ≡ n
  length-replicate zero a = refl
  length-replicate (suc n) a = ap suc (length-replicate n a)

  pub take_all : (n : ℕ) (xs : List A) → length xs ≤ n → take n xs ≡ xs
  take_all zero [] h = refl
  take_all zero (x ∷ xs) h = absurd (omega arith)
  take_all (suc n) [] h = refl
  take_all (suc n) (x ∷ xs) h = ap (λ r. x ∷ r) (take_all n xs (omega arith))

  pub take_nil : (n : ℕ) → take {A = A} n [] ≡ []
  take_nil zero = refl
  take_nil (suc n) = refl

  pub take_eq : {m n : ℕ} (xs : List A) → m ≡ n → take m xs ≡ take n xs
  take_eq xs e = ap (λ k. take k xs) e

  pub take-append :
      (n : ℕ) (xs ys : List A) → take n (xs ++ ys) ≡ take n xs ++ take (n - length xs) ys
  take-append zero xs ys = sym (take_eq {m = 0 - length xs} {n = 0} ys (omega arith))
  take-append (suc n) [] ys = take_eq {m = suc n} {n = suc n - 0} ys (omega arith)
  take-append (suc n) (x ∷ xs) ys =
      ap (λ r. x ∷ r)
        (take-append n xs ys
          ∙ ap (λ r. take n xs ++ r)
              (take_eq {m = n - length xs} {n = suc n - suc (length xs)} ys (omega arith)))

module _ {ℓ} {A : Type ℓ} where
  pub take_exact : (n : ℕ) (xs ys : List A) → length xs ≡ n → take n (xs ++ ys) ≡ xs
  take_exact zero [] ys e = refl
  take_exact zero (x ∷ xs) ys e = absurd (omega arith)
  take_exact (suc n) [] ys e = absurd (omega arith)
  take_exact (suc n) (x ∷ xs) ys e = ap (λ r. x ∷ r) (take_exact n xs ys (omega arith))

  pub drop_exact : (n : ℕ) (xs ys : List A) → length xs ≡ n → drop n (xs ++ ys) ≡ ys
  drop_exact zero [] ys e = refl
  drop_exact zero (x ∷ xs) ys e = absurd (omega arith)
  drop_exact (suc n) [] ys e = absurd (omega arith)
  drop_exact (suc n) (x ∷ xs) ys e = drop_exact n xs ys (omega arith)

  pub take-take : (m n : ℕ) (xs : List A) → m ≤ n → take m (take n xs) ≡ take m xs
  take-take zero n xs h = refl
  take-take (suc m) zero xs h = absurd (omega arith)
  take-take (suc m) (suc n) [] h = refl
  take-take (suc m) (suc n) (x ∷ xs) h = ap (λ r. x ∷ r) (take-take m n xs (omega arith))

  pub drop-take : (m n : ℕ) (xs : List A) → drop m (take n xs) ≡ take (n - m) (drop m xs)
  drop-take zero n xs = take_eq {m = n} {n = n - 0} xs (omega arith)
  drop-take (suc m) zero xs = sym (take_eq {m = 0 - suc m} {n = 0} (drop (suc m) xs) (omega arith))
  drop-take (suc m) (suc n) [] = sym (take_nil (suc n - suc m))
  drop-take (suc m) (suc n) (x ∷ xs) =
      drop-take m n xs ∙ take_eq {m = n - m} {n = suc n - suc m} (drop m xs) (omega arith)

module _ {ℓ} {A : Type ℓ} where
  pub take-min : (m n : ℕ) (xs : List A) → take m (take n xs) ≡ take (min m n) xs
  take-min zero n xs = sym (take_eq {m = min 0 n} {n = 0} xs (omega arith))
  take-min (suc m) zero xs = sym (take_eq {m = min (suc m) 0} {n = 0} xs (omega arith))
  take-min (suc m) (suc n) [] = sym (take_nil (min (suc m) (suc n)))
  take-min (suc m) (suc n) (x ∷ xs) =
      ap (λ r. x ∷ r) (take-min m n xs)
      ∙ take_eq {m = suc (min m n)} {n = min (suc m) (suc n)} (x ∷ xs) (omega arith)

  pub drop_all : (n : ℕ) (xs : List A) → length xs ≤ n → drop n xs ≡ []
  drop_all zero [] h = refl
  drop_all zero (x ∷ xs) h = absurd (omega arith)
  drop_all (suc n) [] h = refl
  drop_all (suc n) (x ∷ xs) h = drop_all n xs (omega arith)

  pub drop_nil : (n : ℕ) → drop {A = A} n [] ≡ []
  drop_nil zero = refl
  drop_nil (suc n) = refl

  pub drop-min : (n : ℕ) (xs : List A) → drop n xs ≡ drop (min n (length xs)) xs
  drop-min zero xs = ap (λ k. drop k xs) (sym (min_zero (length xs)))
    where
      min_zero : (k : ℕ) → min 0 k ≡ 0
      min_zero k = omega arith
  drop-min (suc n) [] = sym (drop_nil (min (suc n) 0))
  drop-min (suc n) (x ∷ xs) = drop-min n xs ∙ ap (λ k. drop k (x ∷ xs)) (suc_min n (length xs))
    where
      suc_min : (a b : ℕ) → suc (min a b) ≡ min (suc a) (suc b)
      suc_min a b = omega arith

  -- The element at an index, and the list from there on.
  pub drop-cons :
      (i : ℕ) (xs : List A)
      → i < length xs
      → (c : A) × (get_elem? xs i ≡ some c) × (drop i xs ≡ c ∷ drop (i + 1) xs)
  drop-cons zero [] h = elim h [ ]
  drop-cons zero (x ∷ xs) h = (x, refl, refl)
  drop-cons (suc i) [] h = elim h [ ]
  drop-cons (suc i) (x ∷ xs) h =
      let (c, e, d) = drop-cons i xs (omega arith) in
      (c, e, d ∙ ap (λ k. c ∷ drop k (x ∷ xs)) (shift i))
    where
      shift : (k : ℕ) → suc (k + 1) ≡ suc k + 1
      shift k = omega arith
