-- ===== src/Evidence/Corrections/Kept.antt =====
-- What a correction of evidence/corrections.py keeps of the figures that were typed in.
use expense_reimbursement_ta.Prelude.{ℕ, ◌≡◌, refl, Option, List, [], ◌∷◌, map}
use expense_reimbursement_ta.Prelude.Text.{Text}
use expense_reimbursement_ta.Prelude.Int.{ℤ}
use expense_reimbursement_ta.Evidence.Extraction.{ExtractedItem}

-- The figures of an item that a claim's line is made from.
abbrev pub Figures : Type 0
Figures = ℤ × Option Text × Option ℕ × Option ℕ × Option Text × Option Text

abbrev pub figures : ExtractedItem → Figures
figures i = (i.gross_amount, i.merchant, i.txn_date, i.nights, i.payment_method, i.bill_no)

pub map-map :
    {A B C : Type 0} (f : B → C) (g : A → B) (xs : List A)
    → map f (map g xs) ≡ map (λ x. f (g x)) xs
map-map f g [] = refl
map-map f g (x ∷ xs) = let more = map-map f g xs in cc
