-- ===== src/Claims/Pipeline/Collect/Stays.antt =====
-- The stays that the loop of `build_claim` (claims/pipeline.py) gathers: those of all documents.
use expense_reimbursement_ta.Prelude.{
  ℕ, zero, suc, ◌≡◌, refl, sym, ap, ◌∙◌, subst, Option, none, some, List, [], ◌∷◌, ◌++◌, append-nil,
  append_assoc, map, false, arith, ◌==◌, Bool-cases, inl, inr, if◌then◌else◌,
}
use expense_reimbursement_ta.Prelude.Int.{ℤ}
use expense_reimbursement_ta.Prelude.Result.{ok, ok_inj, bind_ok}
use expense_reimbursement_ta.Models.{Date, DocKind, ExtractionStatus}
use expense_reimbursement_ta.Claims.Pipeline.{with_tax_shares}
use expense_reimbursement_ta.Claims.Pipeline.Collect.{
  Collected, Reading, added, collect, extracted, held, is_invoice, is_needs_input, marked, put,
  read_by_hand, read_by_machine, stay_of, stays_of, unreadable, visit_document,
}
use expense_reimbursement_ta.Claims.Pipeline.Collect.Accounted.{items_of, items_read}
use expense_reimbursement_ta.Claims.Pipeline.Collect.Items.{with_tax_shares-items}
use expense_reimbursement_ta.Evidence.Classify.{produces_claim_lines}
use expense_reimbursement_ta.Evidence.Corrections.{as_result, is_manually_entered}
use expense_reimbursement_ta.Evidence.Extraction.{ExtractedItem}
use expense_reimbursement_ta.Tables.{DocumentRow}

-- The first night of a stay and its length, of an item that has a date and at least one night.
abbrev nights_from : Option Date → Option ℕ → List (Date × ℕ)
nights_from (some day) (some (suc n)) = (day, suc n) ∷ []
nights_from _ _ = []

abbrev pub nights_of : List ExtractedItem → List (Date × ℕ)
nights_of [] = []
nights_of (item ∷ rest) = nights_from item.txn_date item.nights ++ nights_of rest

abbrev nights_under : DocKind → List ExtractedItem → List (Date × ℕ)
nights_under kind items = if is_invoice kind then nights_of items else []

-- The stays that the documents show: those of the items of every hotel invoice that was read.
abbrev pub stays_shown : (DocumentRow → Reading) → List DocumentRow → List (Date × ℕ)
stays_shown read [] = []
stays_shown read (document ∷ rest) =
    nights_under document.doc_kind (items_of read document) ++ stays_shown read rest

stay_of_lem : (nights : Option ℕ) (day : Option Date) → stay_of nights day ≡ nights_from day nights
stay_of_lem none none = refl
stay_of_lem none (some day) = refl
stay_of_lem (some zero) none = refl
stay_of_lem (some zero) (some day) = refl
stay_of_lem (some (suc n)) none = refl
stay_of_lem (some (suc n)) (some day) =
    let some_nights : (suc n == 0) ≡ false = ground arith in rw some_nights refl

stays_of_lem :
    (kind : DocKind) (shares : List (ExtractedItem × ℤ))
    → stays_of kind shares ≡ nights_under kind (map (λ s. s.0) shares)
unfolding stays_of
stays_of_lem kind [] = elim (Bool-cases (is_invoice kind)) [ inl a ↦ rw a refl | inr a ↦ rw a refl ]
stays_of_lem kind ((item, share) ∷ rest) =
    let more = stays_of_lem kind rest in
    elim (Bool-cases (is_invoice kind)) [
      | inl a ↦
          let tail = rw a at more in rw a (rw (stay_of_lem item.nights item.txn_date, tail) refl)
      | inr a ↦ let tail = rw a at more in rw a tail
    ]

nothing_under : (kind : DocKind) → nights_under kind [] ≡ []
nothing_under kind = elim (Bool-cases (is_invoice kind)) [ inl a ↦ rw a refl | inr a ↦ rw a refl ]

-- What is added for a document are the stays of its items.
added-stays :
    (acc : Collected) (document left : DocumentRow) (shares : List (ExtractedItem × ℤ))
    (items : List ExtractedItem)
    → map (λ s. s.0) shares ≡ items
    → (added acc document left shares).stays ≡ acc.stays ++ nights_under document.doc_kind items
unfolding added
added-stays acc document left shares items same =
    ap (λ xs. acc.stays ++ xs)
      (stays_of_lem document.doc_kind shares ∙ ap (nights_under document.doc_kind) same)

unchanged : (kind : DocKind) (stays : List (Date × ℕ)) → stays ≡ stays ++ nights_under kind []
unchanged kind stays = sym (ap (λ xs. stays ++ xs) (nothing_under kind) ∙ append-nil stays)

machine-stays :
    (acc : Collected) (document : DocumentRow) (reading : Reading) (next : Collected)
    → read_by_machine acc document reading ≡ ok next
    → next.stays ≡ acc.stays ++ nights_under document.doc_kind (items_read reading)
unfolding read_by_machine held
machine-stays acc document (unreadable message) next e =
    subst (λ n. n.stays ≡ acc.stays ++ nights_under document.doc_kind []) (ok_inj e)
      (unchanged document.doc_kind acc.stays)
machine-stays acc document (extracted result) next e =
    elim (Bool-cases (is_needs_input result.status)) [
      | inl a ↦
          let x = rw a at e in
          rw a (
            subst (λ n. n.stays ≡ acc.stays ++ nights_under document.doc_kind []) (ok_inj x)
              (unchanged document.doc_kind acc.stays))
      | inr a ↦
          let x = rw a at e in
          let (shares, shared, y) = bind_ok (with_tax_shares result) _ next x in
          let left =
            marked ExtractionStatus.extracted document.evidence.needs_input_reason
              (some result.extractor_name) document in
          rw a (
            subst (λ n. n.stays ≡ acc.stays ++ nights_under document.doc_kind result.items)
              (ok_inj y)
              (added-stays acc document left shares result.items
                (with_tax_shares-items result shares shared)))
    ]

hand-stays :
    (acc : Collected) (document : DocumentRow) (next : Collected)
    → read_by_hand acc document ≡ ok next
    → next.stays ≡ acc.stays ++ nights_under document.doc_kind (as_result document.evidence).items
unfolding read_by_hand
hand-stays acc document next e =
    let by_hand : Collected = record acc {
      manually_entered = put document.source_filename tt acc.manually_entered;
    } in
    let (shares, shared, x) =
      bind_ok (with_tax_shares (as_result document.evidence))
        (λ s. ok (added by_hand document document s)) next e in
    subst
      (λ n.
        n.stays ≡ acc.stays ++ nights_under document.doc_kind (as_result document.evidence).items)
      (ok_inj x)
      (added-stays by_hand document document shares (as_result document.evidence).items
        (with_tax_shares-items (as_result document.evidence) shares shared))

module _ (read : DocumentRow → Reading) where
  visited-stays :
      (acc : Collected) (document : DocumentRow) (next : Collected)
      → visit_document read acc document ≡ ok next
      → next.stays ≡ acc.stays ++ nights_under document.doc_kind (items_of read document)
  unfolding visit_document
  visited-stays acc document next e = elim (Bool-cases (produces_claim_lines document.doc_kind)) [
    | inr a ↦
        let x = rw a at e in
        rw a (
          subst (λ n. n.stays ≡ acc.stays ++ nights_under document.doc_kind []) (ok_inj x)
            (unchanged document.doc_kind acc.stays))
    | inl a ↦ elim (Bool-cases (is_manually_entered document.evidence)) [
      | inl b ↦ let x = rw (a, b) at e in rw (a, b) (hand-stays acc document next x)
      | inr b ↦
          let x = rw (a, b) at e in rw (a, b) (machine-stays acc document (read document) next x)
    ]
  ]

  -- The stays that the loop has gathered are those that were there and those of all documents.
  pub collect-stays :
      (acc : Collected) (documents : List DocumentRow) (c : Collected)
      → collect read acc documents ≡ ok c
      → c.stays ≡ acc.stays ++ stays_shown read documents
  unfolding collect
  collect-stays acc [] c e =
      subst (λ n. n.stays ≡ acc.stays ++ []) (ok_inj e) (sym (append-nil acc.stays))
  collect-stays acc (document ∷ rest) c e =
      let (next, first, more) = bind_ok (visit_document read acc document) _ c e in
      collect-stays next rest c more
      ∙ ap (λ xs. xs ++ stays_shown read rest) (visited-stays acc document next first)
      ∙ append_assoc acc.stays (nights_under document.doc_kind (items_of read document))
          (stays_shown read rest)
