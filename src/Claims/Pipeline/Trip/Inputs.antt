-- ===== src/Claims/Pipeline/Trip/Inputs.antt =====
-- What a trip's draft is built of (`build_claim` of claims/pipeline.py with its queries).
use expense_reimbursement_ta.Prelude.{
  ℕ, ◌≤◌, ◌≡◌, refl, subst, Bool, true, false, Option, some, List, [], ◌∷◌, ◌⊎◌, inl, inr, All,
  All-imp, Any, ap, none, here, there, Bool-cases, filter, is_id, map,
}
use expense_reimbursement_ta.Prelude.Result.{ok, ok_inj, bind_ok, Result, err}
use expense_reimbursement_ta.Prelude.Text.{Text, text_ltb}
use expense_reimbursement_ta.Claims.Pipeline.{PipelineError}
use expense_reimbursement_ta.Claims.Pipeline.Collect.{BuiltDraft, Reading, build_claim}
use expense_reimbursement_ta.Claims.Pipeline.Trip.{
  Advance, PolicyVersion, advance_for, as_built, build_trip, by_filename, claimant_of,
  documents_for, draft_context, employee_ref, evaluation_context, file_document, policy_for,
}
use expense_reimbursement_ta.Claims.Pipeline.Trip.Version.{IsOneOf, IsPassed, policy_for_latest}
use expense_reimbursement_ta.Identity.{Employee}
use expense_reimbursement_ta.Tables.{DocumentRow, Tables, TravelRequest, employee_of}

module _ (P : DocumentRow → Type 0) where
  file_document-All :
      (d : _) (rest : List DocumentRow) → P d → All P rest → All P (file_document d rest)
  unfolding file_document
  file_document-All d [] h k = (h, tt)
  file_document-All d (e ∷ rest) h k =
      elim (Bool-cases (text_ltb e.source_filename d.source_filename)) [
        | inl a ↦ rw a (k.0, file_document-All d rest h k.1)
        | inr a ↦ rw a (h, k)
      ]

  by_filename-All : (rows : List DocumentRow) → All P rows → All P (by_filename rows)
  unfolding by_filename
  by_filename-All [] h = tt
  by_filename-All (d ∷ rest) h =
      file_document-All d (by_filename rest) h.0 (by_filename-All rest h.1)

  file_document-Any_here : (d : _) (rest : List DocumentRow) → P d → Any P (file_document d rest)
  unfolding file_document
  file_document-Any_here d [] h = here h
  file_document-Any_here d (e ∷ rest) h =
      elim (Bool-cases (text_ltb e.source_filename d.source_filename)) [
        | inl a ↦ rw a (there (file_document-Any_here d rest h))
        | inr a ↦ rw a (here h)
      ]

  file_document-Any_there :
      (d : _) (rest : List DocumentRow) → Any P rest → Any P (file_document d rest)
  unfolding file_document
  file_document-Any_there d [] h = elim h [ ]
  file_document-Any_there d (e ∷ rest) (here h) =
      elim (Bool-cases (text_ltb e.source_filename d.source_filename)) [
        | inl a ↦ rw a (here h)
        | inr a ↦ rw a (there (here h))
      ]
  file_document-Any_there d (e ∷ rest) (there h) =
      elim (Bool-cases (text_ltb e.source_filename d.source_filename)) [
        | inl a ↦ rw a (there (file_document-Any_there d rest h))
        | inr a ↦ rw a (there (there h))
      ]

  by_filename-Any : (rows : List DocumentRow) → Any P rows → Any P (by_filename rows)
  unfolding by_filename
  by_filename-Any [] h = elim h [ ]
  by_filename-Any (d ∷ rest) (here h) = file_document-Any_here d (by_filename rest) h
  by_filename-Any (d ∷ rest) (there h) =
      file_document-Any_there d (by_filename rest) (by_filename-Any rest h)

filter-holds :
    (p : DocumentRow → Bool) (rows : List DocumentRow) → All (λ d. p d ≡ true) (filter p rows)
filter-holds p [] = tt
filter-holds p (d ∷ rest) = elim (Bool-cases (p d)) [
  | inl a ↦ rw a (a, filter-holds p rest)
  | inr a ↦ rw a (filter-holds p rest)
]

-- The document belongs to another trip or to none, or is among the rows.
abbrev pub IsTaken : ℕ → List DocumentRow → DocumentRow → Type 0
IsTaken trip rows d = (is_id d.travel_request_id trip ≡ false) ⊎ Any (λ e. e ≡ d) rows

-- The document does not pass the test, or is among the rows.
abbrev IsPicked : (DocumentRow → Bool) → List DocumentRow → DocumentRow → Type 0
IsPicked p rows d = (p d ≡ false) ⊎ Any (λ e. e ≡ d) rows

behind-IsPicked :
    (p : DocumentRow → Bool) (d e : DocumentRow) (rows : List DocumentRow)
    → IsPicked p rows d
    → IsPicked p (e ∷ rows) d
behind-IsPicked p d e rows (inl a) = inl a
behind-IsPicked p d e rows (inr h) = inr (there h)

filter-IsPicked :
    (p : DocumentRow → Bool) (rows : List DocumentRow) → All (IsPicked p (filter p rows)) rows
filter-IsPicked p [] = tt
filter-IsPicked p (d ∷ rest) = elim (Bool-cases (p d)) [
  | inl a ↦
      let same : d ∷ filter p rest ≡ filter p (d ∷ rest) = rw a refl in
      subst (λ rows. All (IsPicked p rows) (d ∷ rest)) same
        (
          inr (here refl),
          All-imp rest (λ e h. behind-IsPicked p e d (filter p rest) h) (filter-IsPicked p rest),
        )
  | inr a ↦
      let same : filter p rest ≡ filter p (d ∷ rest) = rw a refl in
      subst (λ rows. All (IsPicked p rows) (d ∷ rest)) same (inl a, filter-IsPicked p rest)
]

by_filename-IsPicked :
    (p : DocumentRow → Bool) (rows : List DocumentRow) (d : DocumentRow)
    → IsPicked p rows d
    → IsPicked p (by_filename rows) d
by_filename-IsPicked p rows d (inl a) = inl a
by_filename-IsPicked p rows d (inr h) = inr (by_filename-Any (λ e. e ≡ d) rows h)

claimant_of_ok :
    (found : Option Employee) (employee : Employee)
    → claimant_of found ≡ ok employee
    → found ≡ some employee
unfolding claimant_of
claimant_of_ok none employee e = cc
claimant_of_ok (some person) employee e = ap some (ok_inj e)

as_built_ok :
    (result : Result PipelineError BuiltDraft) (built : BuiltDraft)
    → as_built result ≡ ok built
    → result ≡ ok built
unfolding as_built
as_built_ok (ok found) built e = ap ok (ok_inj e)
as_built_ok (err error) built e = cc

-- A draft of a trip is what `build_claim` makes of it under a policy version that has begun by the
-- trip's first day, with none in the table that began later by then; of exactly the documents that
-- belong to the trip; for its claimant, against the advances that were drawn for it.
pub build_trip_sound :
    (read : DocumentRow → Reading) (tables : Tables) (versions : List PolicyVersion)
    (advances : List Advance) (withdrawn : List Text) (request : TravelRequest) (built : BuiltDraft)
    → build_trip read tables versions advances withdrawn request ≡ ok built
    → (employee : Employee) × (policy : PolicyVersion) × (employee_of tables request.employee_id
        ≡ some employee)
      × IsOneOf versions policy
      × (policy.effective_from ≤ request.from_date)
      × All (IsPassed request.from_date policy) versions
      × All (λ d. is_id d.travel_request_id request.id ≡ true) (documents_for tables request)
      × All (IsTaken request.id (documents_for tables request)) tables.documents
      × (build_claim read
            (documents_for tables request)
            (draft_context request employee.name)
            (evaluation_context request policy employee.name)
            withdrawn
            (advance_for advances request)
            (employee_ref employee)
            (map employee_ref tables.employees)
          ≡ ok built)
unfolding build_trip documents_for
build_trip_sound read tables versions advances withdrawn request built e =
    let (employee, found, e1) =
      bind_ok (claimant_of (employee_of tables request.employee_id)) _ built e in
    let (policy, chosen, e2) = bind_ok (policy_for versions request) _ built e1 in
    let (one, begun, passed) = policy_for_latest versions request policy chosen in
    let of_trip : DocumentRow → Bool = λ d. is_id d.travel_request_id request.id in
    let own = filter of_trip tables.documents in
    (
      employee,
      policy,
      claimant_of_ok (employee_of tables request.employee_id) employee found,
      one,
      begun,
      passed,
      by_filename-All (λ d. of_trip d ≡ true) own (filter-holds of_trip tables.documents),
      All-imp tables.documents (λ d h. by_filename-IsPicked of_trip own d h)
          (filter-IsPicked of_trip tables.documents),
      as_built_ok _ built e2,
    )
