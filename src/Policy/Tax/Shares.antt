-- ===== src/Policy/Tax/Shares.antt =====
-- What `apportion_tax` (policy/tax.py) returns.
use expense_reimbursement_ta.Prelude.{
  ℕ, zero, suc, ◌+◌, ◌<◌, ◌≡◌, ◌≢◌, refl, ap, sym, ◌∙◌, List, [], ◌∷◌, map, arith, length,
  get_elem?, Bool-cases, inl, inr,
}
use expense_reimbursement_ta.Prelude.Int.{
  pos_part, neg_part, ℤ, pos, ◌+ℤ◌, ◌-ℤ◌, ltb_ℤ, eqb_ℤ, sum, int_laws, eq_of_parts,
}
use expense_reimbursement_ta.Prelude.Result.{ok, ok_inj}
use expense_reimbursement_ta.Policy.Decimal.{pro_rata}
use expense_reimbursement_ta.Policy.Tax.{
  best_from, largest, add_at, rounded_shares, settle, apportion_tax,
}

sum-add_at : (i : ℕ) (r : ℤ) (xs : List ℤ) → i < length xs → sum (add_at i r xs) ≡ sum xs +ℤ r
unfolding add_at sum
sum-add_at i r [] h = absurd (omega arith)
sum-add_at zero r (x ∷ xs) h = omega int_laws
sum-add_at (suc i) r (x ∷ xs) h = rw (sum-add_at i r xs (omega arith)) (omega int_laws)

length-add_at : (i : ℕ) (r : ℤ) (xs : List ℤ) → length (add_at i r xs) ≡ length xs
unfolding add_at
length-add_at i r [] = refl
length-add_at zero r (x ∷ xs) = refl
length-add_at (suc i) r (x ∷ xs) = ap suc (length-add_at i r xs)

get_elem?-add_at_ne :
    (i j : ℕ) (r : ℤ) (xs : List ℤ) → i ≢ j → get_elem? (add_at i r xs) j ≡ get_elem? xs j
unfolding add_at
get_elem?-add_at_ne i j r [] h = refl
get_elem?-add_at_ne zero zero r (x ∷ xs) h = absurd (h refl)
get_elem?-add_at_ne zero (suc j) r (x ∷ xs) h = refl
get_elem?-add_at_ne (suc i) zero r (x ∷ xs) h = refl
get_elem?-add_at_ne (suc i) (suc j) r (x ∷ xs) h = get_elem?-add_at_ne i j r xs (λ e. h (ap suc e))

best_from-lt :
    (best : ℕ) (amount : ℤ) (i : ℕ) (xs : List ℤ)
    → best < i
    → best_from best amount i xs < i + length xs
unfolding best_from
best_from-lt best amount i [] h = omega arith
best_from-lt best amount i (x ∷ xs) h = elim (Bool-cases (ltb_ℤ amount x)) [
  | inl e ↦ rw e (omega (arith, best_from-lt i x (suc i) xs (omega arith)))
  | inr e ↦ rw e (omega (arith, best_from-lt best amount (suc i) xs (omega arith)))
]

largest-lt : (x : ℤ) (xs : List ℤ) → largest (x ∷ xs) < length (x ∷ xs)
unfolding largest
largest-lt x xs = omega (arith, best_from-lt 0 x 1 xs (omega arith))

module _ {A : Type 0} where
  length-map : (f : A → ℤ) (xs : List A) → length (map f xs) ≡ length xs
  length-map f [] = refl
  length-map f (x ∷ xs) = ap suc (length-map f xs)

  sum-zeros : (xs : List A) → sum (map (λ _. pos 0) xs) ≡ pos 0
  unfolding sum
  sum-zeros [] = refl
  sum-zeros (x ∷ xs) = rw (sum-zeros xs) (omega int_laws)

length-rounded_shares :
    (amounts : List ℤ) (total : ℤ) → length (rounded_shares amounts total) ≡ length amounts
unfolding rounded_shares
length-rounded_shares amounts total = length-map (λ a. pro_rata a (sum amounts) total) amounts

settle-sum :
    (a : ℤ) (rest shares : List ℤ) (total : ℤ)
    → length shares ≡ length (a ∷ rest)
    → (sum (settle (a ∷ rest) (total -ℤ sum shares) shares) ≡ total)
      × (length (settle (a ∷ rest) (total -ℤ sum shares) shares) ≡ length (a ∷ rest))
unfolding settle
settle-sum a rest shares total n = elim (Bool-cases (eqb_ℤ (total -ℤ sum shares) (pos 0))) [
  | inl e ↦
      let z : total -ℤ sum shares ≡ pos 0 =
        ground (arith, eq_of_parts (total -ℤ sum shares) (pos 0)) in
      rw e (exact z, n)
  | inr e ↦ rw e (
    rw
        (sum-add_at (largest (a ∷ rest)) (total -ℤ sum shares) shares
          (omega (arith, largest-lt a rest)))
        (omega int_laws),
    omega (arith, length-add_at (largest (a ∷ rest)) (total -ℤ sum shares) shares),
  )
]
  where
    exact : total -ℤ sum shares ≡ pos 0 → sum shares ≡ total
    exact z = let k = ap pos_part z in let m = ap neg_part z in omega int_laws

-- For lines whose subtotal is not zero there is a share for each line, and the shares sum to the
-- tax exactly, whatever the rounding did.
pub apportion_tax_exact :
    (a : ℤ) (rest : List ℤ) (total : ℤ)
    → sum (a ∷ rest) ≢ pos 0
    → (shares : List ℤ) × (apportion_tax (a ∷ rest) total ≡ ok shares)
      × (sum shares ≡ total)
      × (length shares ≡ length (a ∷ rest))
unfolding apportion_tax
apportion_tax_exact a rest total h =
    let amounts = a ∷ rest in
    let shares = rounded_shares amounts total in
    elim (Bool-cases (eqb_ℤ (sum amounts) (pos 0))) [
      | inl zero_sum ↦ absurd (h (ground (arith, eq_of_parts (sum amounts) (pos 0))))
      | inr nonzero ↦ elim (Bool-cases (eqb_ℤ total (pos 0))) [
        | inl none_due ↦ (
          map (λ _. pos 0) amounts,
          rw (nonzero, none_due),
          sum-zeros amounts ∙ (ground (arith, eq_of_parts (pos 0) total)),
          length-map (λ _. pos 0) amounts,
        )
        | inr due ↦
            let (exact, same) =
              settle-sum a rest shares total (length-rounded_shares amounts total) in
            (settle amounts (total -ℤ sum shares) shares, rw (nonzero, due), exact, same)
      ]
    ]

-- Where the tax is not zero and its shares are returned, every share but that of the largest line is the line's rounded part of the tax.
pub apportion_tax_rounded :
    (a : ℤ) (rest : List ℤ) (total : ℤ) (shares : List ℤ) (j : ℕ)
    → apportion_tax (a ∷ rest) total ≡ ok shares
    → total ≢ pos 0
    → j ≢ largest (a ∷ rest)
    → get_elem? shares j ≡ get_elem? (rounded_shares (a ∷ rest) total) j
unfolding apportion_tax settle
apportion_tax_rounded a rest total shares j e nz ne =
    let amounts = a ∷ rest in
    let rounded = rounded_shares amounts total in
    ground (
      arith,
      eq_of_parts total (pos 0),
      get_elem?-add_at_ne (largest amounts) j (total -ℤ sum rounded) rounded (λ i. ne (sym i)),
    )

-- There are as many shares as lines.
pub length-apportion_tax :
    (amounts : List ℤ) (total : ℤ) (shares : List ℤ)
    → apportion_tax amounts total ≡ ok shares
    → length shares ≡ length amounts
unfolding apportion_tax
length-apportion_tax [] total shares e = let same : [] ≡ shares = ok_inj e in rw (← same) refl
length-apportion_tax (a ∷ rest) total shares e =
    elim (Bool-cases (eqb_ℤ (sum (a ∷ rest)) (pos 0))) [
      | inl z ↦ let x = rw z at e in cc
      | inr z ↦
          let nonzero : sum (a ∷ rest) ≢ pos 0 = λ q. let x = rw q at z in cc in
          let (exact, found, _, long) = apportion_tax_exact a rest total nonzero in
          let same : exact ≡ shares = ok_inj (sym found ∙ e) in rw (← same) long
    ]
