-- ===== src/Policy/Engine/Order.antt =====
-- The processing order of `evaluate_lines` (policy/engine.py): every index once, with its line.
use expense_reimbursement_ta.Prelude.{
  ℕ, zero, suc, ◌≤◌, ◌≡◌, ◌≢◌, refl, sym, ap, Option, none, some, List, [], ◌∷◌, ◌++◌, arith,
  length, get_elem?, replicate, All, All-imp, get_elem?-append_length, length-append, append_assoc,
  Bool-cases, inl, inr,
}
use expense_reimbursement_ta.Policy.Decision.{LineUnderReview}
use expense_reimbursement_ta.Policy.Engine.{
  Indexed, LineOutcome, Slots, comes_before, insert_sorted, sorted, enumerate,
}

-- No index twice.
abbrev pub Distinct : List Indexed → Type 0
Distinct [] = Unit
Distinct ((i, l) ∷ rest) = All (λ p. i ≢ p.0) rest × Distinct rest

-- Each index stands with its line.
abbrev pub Placed : List LineUnderReview → List Indexed → Type 0
Placed lines order = All (λ p. get_elem? lines p.0 ≡ some p.1) order

module _ (P : Indexed → Type 0) where
  All-insert_sorted :
      (x : Indexed) (ys : List Indexed) → P x → All P ys → All P (insert_sorted x ys)
  unfolding insert_sorted
  All-insert_sorted x [] h k = (h, tt)
  All-insert_sorted x (y ∷ ys) h k = elim (Bool-cases (comes_before y x)) [
    | inl e ↦ rw e (k.0, All-insert_sorted x ys h k.1)
    | inr e ↦ rw e (h, k)
  ]

  All-sorted : (xs : List Indexed) → All P xs → All P (sorted xs)
  unfolding sorted
  All-sorted [] h = tt
  All-sorted (x ∷ xs) h = All-insert_sorted x (sorted xs) h.0 (All-sorted xs h.1)

Distinct-insert_sorted :
    (x : Indexed) (ys : List Indexed)
    → All (λ p. x.0 ≢ p.0) ys
    → Distinct ys
    → Distinct (insert_sorted x ys)
unfolding insert_sorted
Distinct-insert_sorted x [] h k = (tt, tt)
Distinct-insert_sorted x (y ∷ ys) h k = elim (Bool-cases (comes_before y x)) [
  | inl e ↦ rw e (
    All-insert_sorted (λ p. y.0 ≢ p.0) x ys (λ q. h.0 (sym q)) k.0,
    Distinct-insert_sorted x ys h.1 k.1,
  )
  | inr e ↦ rw e (h, k)
]

Distinct-sorted : (xs : List Indexed) → Distinct xs → Distinct (sorted xs)
unfolding sorted
Distinct-sorted [] h = tt
Distinct-sorted (x ∷ xs) h =
    Distinct-insert_sorted x (sorted xs) (All-sorted (λ p. x.0 ≢ p.0) xs h.0)
      (Distinct-sorted xs h.1)

length-insert_sorted :
    (x : Indexed) (ys : List Indexed) → length (insert_sorted x ys) ≡ suc (length ys)
unfolding insert_sorted
length-insert_sorted x [] = refl
length-insert_sorted x (y ∷ ys) = ground (arith, length-insert_sorted x ys)

length-sorted : (xs : List Indexed) → length (sorted xs) ≡ length xs
unfolding sorted
length-sorted [] = refl
length-sorted (x ∷ xs) = omega (arith, length-insert_sorted x (sorted xs), length-sorted xs)

enumerate-above :
    (k : ℕ) (ls : List LineUnderReview) (n : ℕ) → n ≤ k → All (λ p. n ≤ p.0) (enumerate k ls)
unfolding enumerate
enumerate-above k [] n h = tt
enumerate-above k (l ∷ ls) n h = (h, enumerate-above (suc k) ls n (omega arith))

Distinct-enumerate : (k : ℕ) (ls : List LineUnderReview) → Distinct (enumerate k ls)
unfolding enumerate
Distinct-enumerate k [] = tt
Distinct-enumerate k (l ∷ ls) = (
  All-imp (enumerate (suc k) ls) (λ p h. omega arith)
      (enumerate-above (suc k) ls (suc k) (omega arith)),
  Distinct-enumerate (suc k) ls,
)

length-enumerate : (k : ℕ) (ls : List LineUnderReview) → length (enumerate k ls) ≡ length ls
unfolding enumerate
length-enumerate k [] = refl
length-enumerate k (l ∷ ls) = ap suc (length-enumerate (suc k) ls)

Placed-enumerate :
    (before ls : List LineUnderReview) (k : ℕ)
    → k ≡ length before
    → Placed (before ++ ls) (enumerate k ls)
unfolding enumerate
Placed-enumerate before [] k e = tt
Placed-enumerate before (l ∷ ls) k e = (
  rw e (get_elem?-append_length before ls l),
  rw (append_assoc before (l ∷ []) ls) at (
      Placed-enumerate (before ++ l ∷ []) ls (suc k)
        (omega (arith, length-append before (l ∷ [])))),
)

module _ (lines : List LineUnderReview) where
  pub order-Distinct : Distinct (sorted (enumerate 0 lines))
  order-Distinct = Distinct-sorted (enumerate 0 lines) (Distinct-enumerate 0 lines)

  pub order-Placed : Placed lines (sorted (enumerate 0 lines))
  order-Placed =
      All-sorted (λ p. get_elem? lines p.0 ≡ some p.1) (enumerate 0 lines)
        (Placed-enumerate [] lines 0 refl)

  pub length-order : length (sorted (enumerate 0 lines)) ≡ length lines
  length-order = omega (arith, length-sorted (enumerate 0 lines), length-enumerate 0 lines)

get_elem?-replicate :
    (lines : List LineUnderReview) (i : ℕ) (l : LineUnderReview) (o : Option LineOutcome)
    → get_elem? lines i ≡ some l
    → get_elem? (replicate (length lines) o) i ≡ some o
get_elem?-replicate [] i l o h = cc
get_elem?-replicate (m ∷ lines) zero l o h = refl
get_elem?-replicate (m ∷ lines) (suc i) l o h = get_elem?-replicate lines i l o h

-- `[None] * len(lines)`
abbrev pub start : List LineUnderReview → Slots
start lines = replicate (length lines) none

-- At the start every slot in the order is free.
pub order_free :
    (lines : List LineUnderReview) (order : List Indexed)
    → Placed lines order
    → All (λ p. get_elem? (start lines) p.0 ≡ some none) order
order_free lines order h = All-imp order (λ p at. get_elem?-replicate lines p.0 p.1 none at) h
