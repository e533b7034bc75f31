-- ===== src/Prelude/Sort.antt =====
-- Python's `sorted(xs, key=key)` on numeric keys, which keeps the order of equal keys, and what
-- its first element is.
use Prim.Native.Nat.{ℕ, suc, ◌≤◌}
use mathlib.Core.Path.{◌≡◌, refl, sym}
use mathlib.Core.Logic.{inl, inr}
use mathlib.Core.Bool.{Bool, true, false}
use mathlib.Core.List.{List, [], ◌∷◌, ◌++◌}
use mathlib.Core.Option.{Option, none, some}
use native.Mathlib.Omega.{arith}
use expense_reimbursement_ta.Prelude.Tests.{if◌then◌else◌, leb, Bool-cases}
use expense_reimbursement_ta.Prelude.Lists.{All, All-imp, find, filter}

module _ {A : Type 0} (key : A → ℕ) where
  -- In front of the first element whose key is not less.
  unfoldable pub place : A → List A → List A
  place x [] = x ∷ []
  place x (y ∷ ys) = let rest = place x ys in if leb (key x) (key y) then x ∷ y ∷ ys else y ∷ rest

  unfoldable pub sorted : List A → List A
  unfolding place
  sorted [] = []
  sorted (x ∷ xs) = place x (sorted xs)

  abbrev IsSorted : List A → Type 0
  IsSorted [] = Unit
  IsSorted (x ∷ xs) = All (λ y. key x ≤ key y) xs × IsSorted xs

  place-All : (P : A → Type 0) (x : A) (ys : List A) → P x → All P ys → All P (place x ys)
  unfolding place
  place-All P x [] h k = (h, tt)
  place-All P x (y ∷ ys) h k = elim (Bool-cases (leb (key x) (key y))) [
    | inl e ↦ rw e (h, k)
    | inr e ↦ rw e (k.0, place-All P x ys h k.1)
  ]

  place-IsSorted : (x : A) (ys : List A) → IsSorted ys → IsSorted (place x ys)
  unfolding place
  place-IsSorted x [] h = (tt, tt)
  place-IsSorted x (y ∷ ys) h = elim (Bool-cases (leb (key x) (key y))) [
    | inl e ↦
        let first : key x ≤ key y = ground (arith, e) in
        rw e ((first, All-imp ys (λ z low. omega (arith, first, low)) h.0), h)
    | inr e ↦
        let behind : key y ≤ key x = ground (arith, e) in
        rw e (place-All (λ z. key y ≤ key z) x ys behind h.0, place-IsSorted x ys h.1)
  ]

  sorted-IsSorted : (xs : List A) → IsSorted (sorted xs)
  unfolding sorted
  sorted-IsSorted [] = tt
  sorted-IsSorted (x ∷ xs) = place-IsSorted x (sorted xs) (sorted-IsSorted xs)

  -- `x`, unless the other comes first.
  abbrev pub before : A → Option A → A
  before x none = x
  before x (some y) = if leb (key x) (key y) then x else y

  -- The first of the elements with the least key that pass a test.
  abbrev pub least : (A → Bool) → List A → Option A
  least p [] = none
  least p (x ∷ xs) = let rest = least p xs in if p x then some (before x rest) else rest

  find_above :
      (p : A → Bool) (x : A) (ys : List A) → All (λ y. key x ≤ key y) ys → before x (find p ys) ≡ x
  find_above p x [] h = refl
  find_above p x (y ∷ ys) h = elim (Bool-cases (p y)) [
    | inl e ↦ let low = h.0 in rw e (ground (arith, low))
    | inr e ↦ rw e (find_above p x ys h.1)
  ]

  find-place :
      (p : A → Bool) (x : A) (ys : List A)
      → IsSorted ys
      → find p (place x ys) ≡ (if p x then some (before x (find p ys)) else find p ys)
  unfolding place
  find-place p x [] h = elim (Bool-cases (p x)) [ inl e ↦ rw e refl | inr e ↦ rw e refl ]
  find-place p x (y ∷ ys) h = elim (Bool-cases (leb (key x) (key y))) [
    | inl e ↦ elim (Bool-cases (p x)) [
      | inl a ↦
          let first : key x ≤ key y = ground (arith, e) in
          let low : All (λ z. key x ≤ key z) (y ∷ ys) =
            (first, All-imp ys (λ z k. omega (arith, first, k)) h.0) in
          rw (e, a, find_above p x (y ∷ ys) low) refl
      | inr a ↦ rw (e, a) refl
    ]
    | inr e ↦ elim (Bool-cases (p y)) [
      | inl b ↦ elim (Bool-cases (p x)) [ inl a ↦ rw (e, b, a, e) refl | inr a ↦ rw (e, b, a) refl ]
      | inr b ↦ rw (e, b, find-place p x ys h.1) refl
    ]
  ]

  -- The first that passes a test in the sorted list.
  pub find-sorted : (p : A → Bool) (xs : List A) → find p (sorted xs) ≡ least p xs
  unfolding sorted
  find-sorted p [] = refl
  find-sorted p (x ∷ xs) =
      rw (find-place p x (sorted xs) (sorted-IsSorted xs), find-sorted p xs) refl

  pub sorted-All : (P : A → Type 0) (xs : List A) → All P xs → All P (sorted xs)
  unfolding sorted
  sorted-All P [] h = tt
  sorted-All P (x ∷ xs) h = place-All P x (sorted xs) h.0 (sorted-All P xs h.1)

  place_first : (x : A) (ys : List A) → All (λ y. key x ≤ key y) ys → place x ys ≡ x ∷ ys
  unfolding place
  place_first x [] h = refl
  place_first x (y ∷ ys) h =
      let low = h.0 in let first : leb (key x) (key y) ≡ true = ground (arith, low) in rw first refl

  All-filter : (P : A → Type 0) (p : A → Bool) (xs : List A) → All P xs → All P (filter p xs)
  All-filter P p [] h = tt
  All-filter P p (x ∷ xs) h = elim (Bool-cases (p x)) [
    | inl a ↦ rw a (h.0, All-filter P p xs h.1)
    | inr a ↦ rw a (All-filter P p xs h.1)
  ]

  filter-place :
      (p : A → Bool) (x : A) (ys : List A)
      → IsSorted ys
      → filter p (place x ys) ≡ (if p x then place x (filter p ys) else filter p ys)
  unfolding place
  filter-place p x [] h = elim (Bool-cases (p x)) [ inl e ↦ rw e refl | inr e ↦ rw e refl ]
  filter-place p x (y ∷ ys) h = elim (Bool-cases (leb (key x) (key y))) [
    | inl e ↦ elim (Bool-cases (p x)) [
      | inr a ↦ rw (e, a) refl
      | inl a ↦
          let first : key x ≤ key y = ground (arith, e) in
          let low : All (λ z. key x ≤ key z) (y ∷ ys) =
            (first, All-imp ys (λ z k. omega (arith, first, k)) h.0) in
          let front =
            place_first x (filter p (y ∷ ys)) (All-filter (λ z. key x ≤ key z) p (y ∷ ys) low) in
          rw (e, a) (sym front)
    ]
    | inr e ↦ elim (Bool-cases (p y)) [
      | inl b ↦ elim (Bool-cases (p x)) [
        | inl a ↦ rw (e, b, a, e, filter-place p x ys h.1, a) refl
        | inr a ↦ rw (e, b, a, filter-place p x ys h.1, a) refl
      ]
      | inr b ↦ rw (e, b, filter-place p x ys h.1) refl
    ]
  ]

  -- What passes a test in the sorted list is what passes it, sorted.
  pub filter-sorted : (p : A → Bool) (xs : List A) → filter p (sorted xs) ≡ sorted (filter p xs)
  unfolding sorted
  filter-sorted p [] = refl
  filter-sorted p (x ∷ xs) = elim (Bool-cases (p x)) [
    | inl a ↦ rw (filter-place p x (sorted xs) (sorted-IsSorted xs), a, filter-sorted p xs) refl
    | inr a ↦ rw (filter-place p x (sorted xs) (sorted-IsSorted xs), a, filter-sorted p xs) refl
  ]

  -- An element that is less than those in front of it, and not greater than those behind, comes
  -- first.
  pub sorted-least :
      (x : A) (front back : List A)
      → All (λ y. suc (key x) ≤ key y) front
      → All (λ y. key x ≤ key y) back
      → sorted (front ++ x ∷ back) ≡ x ∷ sorted (front ++ back)
  unfolding sorted place
  sorted-least x [] back h k = place_first x (sorted back) (sorted-All (λ y. key x ≤ key y) back k)
  sorted-least x (y ∷ front) back h k =
      let over = h.0 in
      let behind : leb (key y) (key x) ≡ false = ground (arith, over) in
      rw (sorted-least x front back h.1 k, behind) refl
