-- ===== src/Claims/Pipeline/Collect/Items.antt =====
-- The shares of a result (`_with_tax_shares` of claims/pipeline.py) leave its items as they are.
use expense_reimbursement_ta.Prelude.{
  suc, ◌≡◌, refl, ap, ◌∙◌, subst, List, [], ◌∷◌, ◌++◌, map, length, Bool-cases, Option-cases, inl,
  inr, arith,
}
use expense_reimbursement_ta.Prelude.Int.{ℤ, pos, ◌-ℤ◌, leb_ℤ}
use expense_reimbursement_ta.Prelude.Result.{Result, ok, err, ok_inj}
use expense_reimbursement_ta.Policy.Tax.{TaxError, apportion_tax}
use expense_reimbursement_ta.Policy.Tax.Shares.{length-apportion_tax}
use expense_reimbursement_ta.Claims.Pipeline.{Piece, with_tax_shares, without_tax, zip, zipped}
use expense_reimbursement_ta.Claims.Pipeline.Collect.{piece_of}
use expense_reimbursement_ta.Evidence.Extraction.{ExtractedItem, ExtractionResult}
use expense_reimbursement_ta.Tables.{DocumentRow}

abbrev pub items : List Piece → List ExtractedItem
items = map (λ p. p.item)

pub map-append :
    {A B : Type 0} (f : A → B) (xs ys : List A) → map f (xs ++ ys) ≡ map f xs ++ map f ys
map-append f [] ys = refl
map-append f (x ∷ xs) ys = ap (λ r. f x ∷ r) (map-append f xs ys)

zip-items :
    (xs : List ExtractedItem) (shares : List ℤ)
    → length shares ≡ length xs
    → map (λ s. s.0) (zip xs shares) ≡ xs
zip-items [] [] e = refl
zip-items [] (s ∷ shares) e = refl
zip-items (x ∷ xs) [] e = absurd (omega (arith, e))
zip-items (x ∷ xs) (s ∷ shares) e = ap (λ r. x ∷ r) (zip-items xs shares (omega (arith, e)))

without_tax-items : (xs : List ExtractedItem) → map (λ s. s.0) (without_tax xs) ≡ xs
without_tax-items [] = refl
without_tax-items (x ∷ xs) = ap (λ r. x ∷ r) (without_tax-items xs)

zipped-items :
    (xs : List ExtractedItem) (r : Result TaxError (List ℤ)) (shares : List (ExtractedItem × ℤ))
    → ((s : List ℤ) → r ≡ ok s → length s ≡ length xs)
    → zipped xs r ≡ ok shares
    → map (λ s. s.0) shares ≡ xs
unfolding zipped
zipped-items xs (ok s) shares h e =
    subst (λ z. map (λ t. t.0) z ≡ xs) (ok_inj e) (zip-items xs s (h s refl))
zipped-items xs (err x) shares h e = cc

length-amounts : (xs : List ExtractedItem) → length (map (λ i. i.gross_amount) xs) ≡ length xs
length-amounts [] = refl
length-amounts (x ∷ xs) = ap suc (length-amounts xs)

-- Every item of a result gets a share, in its place.
pub with_tax_shares-items :
    (result : ExtractionResult) (shares : List (ExtractedItem × ℤ))
    → with_tax_shares result ≡ ok shares
    → map (λ s. s.0) shares ≡ result.items
unfolding with_tax_shares
with_tax_shares-items result shares e =
    let plain : without_tax result.items ≡ shares → map (λ s. s.0) shares ≡ result.items =
      λ q. subst (λ z. map (λ s. s.0) z ≡ result.items) q (without_tax-items result.items) in
    elim (Option-cases result.stated_subtotal) [
      | inl a ↦ let x = rw (with_tax_shares, a) at e in plain (ok_inj x)
      | inr (subtotal, a) ↦ elim (Option-cases result.stated_total) [
        | inl b ↦ let x = rw (with_tax_shares, a, b) at e in plain (ok_inj x)
        | inr (total, b) ↦ elim (Bool-cases (leb_ℤ (total -ℤ subtotal) (pos 0))) [
          | inl c ↦ let x = rw (with_tax_shares, a, b, c) at e in plain (ok_inj x)
          | inr c ↦
              let x = rw (with_tax_shares, a, b, c) at e in
              let amounts = map (λ (i : ExtractedItem). i.gross_amount) result.items in
              zipped-items result.items (apportion_tax amounts (total -ℤ subtotal)) shares
                (λ s found.
                  length-apportion_tax amounts (total -ℤ subtotal) s found
                  ∙ length-amounts result.items)
                x
        ]
      ]
    ]

pub pieces-items :
    (document : DocumentRow) (shares : List (ExtractedItem × ℤ))
    → items (map (piece_of document) shares) ≡ map (λ s. s.0) shares
unfolding piece_of
pieces-items document [] = refl
pieces-items document (s ∷ shares) = ap (λ r. s.0 ∷ r) (pieces-items document shares)
