-- ===== src/Evidence/Extraction/Exact.antt =====
-- What the reconciliation guard of evidence/extractors/base.py lets through.
use expense_reimbursement_ta.Prelude.{
  ◌≡◌, ◌↔◌, ◌∙◌, refl, true, false, Option, none, some, List, arith, Bool-cases, inl, inr,
}
use expense_reimbursement_ta.Prelude.Int.{ℤ, pos, ◌-ℤ◌, eq_of_parts, leb_ℤ, abs_ℤ, sum}
use expense_reimbursement_ta.Prelude.Text.{Text}
use expense_reimbursement_ta.Evidence.Extraction.{
  ExtractedItem, ExtractionResult, checked_amounts, from_items, is_usable, needs_input, reconcile,
}

no_difference : (a b : ℤ) → leb_ℤ (abs_ℤ (a -ℤ b)) (pos 0) ≡ true → a ≡ b
unfolding abs_ℤ ◌-ℤ◌
no_difference a b h = ground (arith, eq_of_parts a b)

difference : (a : ℤ) → leb_ℤ (abs_ℤ (a -ℤ a)) (pos 0) ≡ true
unfolding abs_ℤ ◌-ℤ◌
difference a = ground arith

module _ (extractor_name : Text) (items : List ExtractedItem) (stated_total : Option ℤ)
    (ocr_text : Option Text) (reconcile_amounts : Option (List ℤ)) where
  abbrev built : Option ℤ → ExtractionResult
  built stated = from_items extractor_name items stated stated_total ocr_text reconcile_amounts

  -- A result keeps every item that was read. It may become claim lines exactly when the amounts
  -- that the guard sums add up to the stated subtotal, to the paisa, or no subtotal is stated.
  pub from_items_exact :
      (stated : Option ℤ)
      → ((built stated).items ≡ items)
        × ((is_usable (built stated) ≡ true)
            ↔ ((s : ℤ) → stated ≡ some s → sum (checked_amounts items reconcile_amounts) ≡ s))
  unfolding from_items reconcile needs_input is_usable
  from_items_exact none = (refl, ((λ _ s e. let x = e in cc), λ _. refl))
  from_items_exact (some stated) =
      let total = sum (checked_amounts items reconcile_amounts) in
      elim (Bool-cases (leb_ℤ (abs_ℤ (total -ℤ stated)) (pos 0))) [
        | inl a ↦
            let same = no_difference total stated a in
            rw a (refl, ((λ _ s e. let x : stated ≡ s = cc in same ∙ x), λ _. refl))
        | inr a ↦ rw a (
          refl,
          (
            (λ q. let x = q in cc),
            λ h.
                let same : total ≡ stated = h stated refl in
                let y : leb_ℤ (abs_ℤ (stated -ℤ stated)) (pos 0) ≡ false = rw same at a in
                let z = difference stated in cc,
          ),
        )
      ]
