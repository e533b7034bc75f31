-- ===== src/Claims/Withdrawals.antt =====
-- claims/withdrawals.py: which draft lines the employee has withdrawn, as a dict of sets of texts.
use expense_reimbursement_ta.Prelude.{
  ◌≡◌, refl, ◌||◌, List, [], ◌∷◌, if◌then◌else◌, Bool-cases, inl, inr,
}
use expense_reimbursement_ta.Prelude.Text.{Text, is_member, text_eq, text_eq→eq, text_eq_refl}

abbrev pub Withdrawn : Type 0
Withdrawn = List (Text × List Text)

-- `set.add`
unfoldable pub add : Text → List Text → List Text
unfolding is_member
add word words = if is_member word words then words else word ∷ words

unfoldable pub record_withdrawal : Text → Text → Withdrawn → Withdrawn
unfolding add
record_withdrawal trq_id description [] = (trq_id, description ∷ []) ∷ []
record_withdrawal trq_id description ((key, words) ∷ rest) =
    let more = record_withdrawal trq_id description rest in
    if text_eq trq_id key then (key, add description words) ∷ rest else (key, words) ∷ more

unfoldable pub for_trip : Text → Withdrawn → List Text
for_trip trq_id [] = []
for_trip trq_id ((key, words) ∷ rest) =
    let more = for_trip trq_id rest in if text_eq trq_id key then words else more

unfoldable pub clear_all : Withdrawn → Withdrawn
clear_all withdrawn = []

is_member-add :
    (other word : Text) (words : List Text)
    → is_member other (add word words) ≡ text_eq other word || is_member other words
unfolding add is_member
is_member-add other word words = elim (Bool-cases (is_member word words)) [
  | inr a ↦ rw a refl
  | inl a ↦ elim (Bool-cases (text_eq other word)) [
    | inl b ↦ let same = text_eq→eq other word b in rw (a, same, text_eq_refl word, a) refl
    | inr b ↦ rw (a, b) refl
  ]
]
