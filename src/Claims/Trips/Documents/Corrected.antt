-- ===== src/Claims/Trips/Documents/Corrected.antt =====
-- What correcting and removing a document change (claims/router.py).
use expense_reimbursement_ta.Prelude.{
  ◌≡◌, refl, sym, ap, ◌∙◌, Bool, Option, none, some, List, [], ◌∷◌, ◌++◌, find, Bool-cases, inl,
  inr, ◌≢◌,
}
use expense_reimbursement_ta.Prelude.Result.{ok, ok_inj, bind_ok}
use expense_reimbursement_ta.Prelude.Text.{Text}
use expense_reimbursement_ta.Claims.Trips.{require_own_draft}
use expense_reimbursement_ta.Claims.Trips.Documents.{
  UploadRemoved, found_document, is_named, remove_document, require_upload, without_first,
}
use expense_reimbursement_ta.Identity.{Employee}
use expense_reimbursement_ta.Tables.{DocumentRow, Tables, TravelRequest}

found_document_ok :
    (found : Option DocumentRow) (document : DocumentRow)
    → found_document found ≡ ok document
    → found ≡ some document
unfolding found_document
found_document_ok none document e = cc
found_document_ok (some d) document e = ap some (ok_inj e)

without_first_lem :
    (p : DocumentRow → Bool) (rows : List DocumentRow) (x : DocumentRow)
    → find p rows ≡ some x
    → (before : List DocumentRow) × (after : List DocumentRow) × (rows ≡ before ++ x ∷ after)
      × (without_first p rows ≡ before ++ after)
unfolding without_first
without_first_lem p [] x e = cc
without_first_lem p (y ∷ rows) x e = elim (Bool-cases (p y)) [
  | inl a ↦ let h = rw a at e in let same : y ≡ x = cc in ([], rows, rw same refl, rw a refl)
  | inr a ↦
      let h = rw a at e in
      let (before, after, whole, left) = without_first_lem p rows x h in
      (y ∷ before, after, ap (λ r. y ∷ r) whole, rw a (ap (λ r. y ∷ r) left))
]

require_upload_ok :
    (document : DocumentRow) (u : Unit {0})
    → require_upload document ≡ ok u
    → document.source_path ≢ none
unfolding require_upload
require_upload_ok document u e absent = let x = rw (require_upload, absent) at e in cc

-- A document that is removed was uploaded, and belongs to a trip whose claim its claimant, the
-- caller, has not submitted; every other document stays, in its place, and the event names the one
-- that went.
pub remove_document_sound :
    (tables : Tables) (trq_id external_id : Text) (user : Employee) (left : List DocumentRow)
    (event : UploadRemoved)
    → remove_document tables trq_id external_id user ≡ ok (left, event)
    → (request : TravelRequest) × (document : DocumentRow) × (before : List DocumentRow)
      × (after : List DocumentRow) × (require_own_draft tables trq_id user ≡ ok request)
      × (find (is_named external_id request) tables.documents ≡ some document)
      × (document.source_path ≢ none)
      × (tables.documents ≡ before ++ document ∷ after)
      × (left ≡ before ++ after)
      × (event.file ≡ document.source_filename)
unfolding remove_document
remove_document_sound tables trq_id external_id user left event e =
    let (request, own, e1) = bind_ok (require_own_draft tables trq_id user) _ (left, event) e in
    let named = is_named external_id request in
    let (document, found, e2) =
      bind_ok (found_document (find (is_named external_id request) tables.documents)) _
        (left, event) e1 in
    let (u, uploaded, e3) = bind_ok (require_upload document) _ (left, event) e2 in
    let same = ok_inj e3 in
    let there = found_document_ok (find named tables.documents) document found in
    let (before, after, whole, rest) = without_first_lem named tables.documents document there in
    (
      request,
      document,
      before,
      after,
      own,
      there,
      require_upload_ok document u uploaded,
      whole,
      sym (ap (λ t. t.0) same) ∙ rest,
      sym (ap (λ t. t.1.file) same),
    )
