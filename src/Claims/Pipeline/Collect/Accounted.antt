-- ===== src/Claims/Pipeline/Collect/Accounted.antt =====
-- No document drops out of the loop of `build_claim` (claims/pipeline.py).
use expense_reimbursement_ta.Prelude.{
  ◌≡◌, refl, sym, ap, ◌∙◌, subst, not, some, List, [], ◌∷◌, ◌++◌, append-nil, append_assoc, map,
  All, Any, here, there, Bool-cases, inl, inr, if◌then◌else◌,
}
use expense_reimbursement_ta.Prelude.Int.{ℤ}
use expense_reimbursement_ta.Prelude.Result.{ok, ok_inj, bind_ok}
use expense_reimbursement_ta.Prelude.Text.{Text, text_eq, text_eq→eq}
use expense_reimbursement_ta.Models.{ExtractionStatus}
use expense_reimbursement_ta.Claims.Pipeline.{Piece, with_tax_shares}
use expense_reimbursement_ta.Claims.Pipeline.Collect.{
  ByFile, Collected, Reading, added, collect, extracted, held, is_needs_input, marked,
  nothing_collected, piece_of, put, read_by_hand, read_by_machine, unreadable, visit_document,
  why_set_aside,
}
use expense_reimbursement_ta.Claims.Pipeline.Collect.Items.{
  items, map-append, pieces-items, with_tax_shares-items,
}
use expense_reimbursement_ta.Evidence.Classify.{produces_claim_lines}
use expense_reimbursement_ta.Evidence.Corrections.{as_result, is_manually_entered}
use expense_reimbursement_ta.Evidence.Extraction.{ExtractedItem}
use expense_reimbursement_ta.Tables.{DocumentRow}

-- The file name is a key of the dict.
abbrev pub HasKey : {V : Type 0} → Text → ByFile V → Type 0
HasKey key d = Any (λ entry. key ≡ entry.0) d

put-HasKey : {V : Type 0} (key : Text) (v : V) (d : ByFile V) → HasKey key (put key v d)
unfolding put
put-HasKey key v [] = here refl
put-HasKey key v ((k, w) ∷ rest) = elim (Bool-cases (text_eq key k)) [
  | inl a ↦ rw a (here (text_eq→eq key k a))
  | inr a ↦ rw a (there (put-HasKey key v rest))
]

put-keeps :
    {V : Type 0} (key other : Text) (v : V) (d : ByFile V)
    → HasKey other d
    → HasKey other (put key v d)
unfolding put
put-keeps key other v [] h = elim h [ ]
put-keeps key other v ((k, w) ∷ rest) (here e) = elim (Bool-cases (text_eq key k)) [
  | inl a ↦ rw a (here e)
  | inr a ↦ rw a (here e)
]
put-keeps key other v ((k, w) ∷ rest) (there h) = elim (Bool-cases (text_eq key k)) [
  | inl a ↦ rw a (there h)
  | inr a ↦ rw a (there (put-keeps key other v rest h))
]

-- Where a document ends up: set aside, held for input, entered by hand, or read.
pub data Shelf : Type 0 where
  aside for_input by_hand by_machine : Shelf

abbrev shelf_read : Reading → Shelf
shelf_read (unreadable _) = for_input
shelf_read (extracted result) = if is_needs_input result.status then for_input else by_machine

abbrev pub shelf_of : (DocumentRow → Reading) → DocumentRow → Shelf
shelf_of read document =
    if not (produces_claim_lines document.doc_kind)
    then aside
    else if is_manually_entered document.evidence
    then by_hand
    else shelf_read (read document)

abbrev pub items_read : Reading → List ExtractedItem
items_read (unreadable _) = []
items_read (extracted result) = if is_needs_input result.status then [] else result.items

-- The items that a document brings to the claim.
abbrev pub items_of : (DocumentRow → Reading) → DocumentRow → List ExtractedItem
items_of read document =
    if not (produces_claim_lines document.doc_kind)
    then []
    else if is_manually_entered document.evidence
    then (as_result document.evidence).items
    else items_read (read document)

abbrev pub IsShelved : Shelf → Text → Collected → Type 0
IsShelved aside name c = HasKey name c.set_aside
IsShelved for_input name c = HasKey name c.needs_input
IsShelved by_hand name c = HasKey name c.manually_entered
IsShelved by_machine name c = Unit

-- No name is lost.
abbrev Grows : Collected → Collected → Type 0
Grows a b = (shelf : Shelf) (name : Text) → IsShelved shelf name a → IsShelved shelf name b

abbrev Visited : (DocumentRow → Reading) → Collected → DocumentRow → Collected → Type 0
Visited read acc document next =
    (items next.pieces ≡ items acc.pieces ++ items_of read document)
    × IsShelved (shelf_of read document) document.source_filename next
    × Grows acc next

-- What is added for a document are its items.
added-items :
    (acc : Collected) (document left : DocumentRow) (shares : List (ExtractedItem × ℤ))
    → items (added acc document left shares).pieces ≡ items acc.pieces ++ map (λ s. s.0) shares
unfolding added
added-items acc document left shares =
    map-append (λ (p : Piece). p.item) acc.pieces (map (piece_of document) shares)
    ∙ ap (λ xs. items acc.pieces ++ xs) (pieces-items document shares)

added-Grows :
    (acc : Collected) (document left : DocumentRow) (shares : List (ExtractedItem × ℤ))
    → Grows acc (added acc document left shares)
unfolding added
added-Grows acc document left shares aside name h = h
added-Grows acc document left shares for_input name h = h
added-Grows acc document left shares by_hand name h = h
added-Grows acc document left shares by_machine name h = tt

held-Grows :
    (acc : Collected) (document : DocumentRow) (shown reason : _)
    → Grows acc (held acc document shown reason)
unfolding held
held-Grows acc document shown reason aside name h = h
held-Grows acc document shown reason for_input name h =
    put-keeps document.source_filename name shown acc.needs_input h
held-Grows acc document shown reason by_hand name h = h
held-Grows acc document shown reason by_machine name h = tt

hand_acc : Collected → DocumentRow → Collected
hand_acc acc document = record acc {
  manually_entered = put document.source_filename tt acc.manually_entered;
}

hand-Grows : (acc : Collected) (document : DocumentRow) → Grows acc (hand_acc acc document)
unfolding hand_acc
hand-Grows acc document aside name h = h
hand-Grows acc document for_input name h = h
hand-Grows acc document by_hand name h =
    put-keeps document.source_filename name tt acc.manually_entered h
hand-Grows acc document by_machine name h = tt

machine_visited :
    (acc : Collected) (document : DocumentRow) (reading : Reading) (next : Collected)
    → read_by_machine acc document reading ≡ ok next
    → (items next.pieces ≡ items acc.pieces ++ items_read reading)
      × IsShelved (shelf_read reading) document.source_filename next
      × Grows acc next
unfolding read_by_machine held
machine_visited acc document (unreadable message) next e =
    subst
      (λ n.
        (items n.pieces ≡ items acc.pieces ++ [])
        × HasKey document.source_filename n.needs_input
        × Grows acc n)
      (ok_inj e)
      (
        sym (append-nil (items acc.pieces)),
        put-HasKey document.source_filename _ acc.needs_input,
        held-Grows acc document _ _,
      )
machine_visited acc document (extracted result) next e =
    elim (Bool-cases (is_needs_input result.status)) [
      | inl a ↦
          let x = rw a at e in
          rw a (
            subst
              (λ n.
                (items n.pieces ≡ items acc.pieces ++ [])
                × HasKey document.source_filename n.needs_input
                × Grows acc n)
              (ok_inj x)
              (
                sym (append-nil (items acc.pieces)),
                put-HasKey document.source_filename _ acc.needs_input,
                held-Grows acc document _ _,
              ))
      | inr a ↦
          let x = rw a at e in
          let (shares, shared, y) = bind_ok (with_tax_shares result) _ next x in
          let left =
            marked ExtractionStatus.extracted document.evidence.needs_input_reason
              (some result.extractor_name) document in
          rw a (
            subst
              (λ n. (items n.pieces ≡ items acc.pieces ++ result.items) × Unit {0} × Grows acc n)
              (ok_inj y)
              (
                added-items acc document left shares
                    ∙ ap (λ xs. items acc.pieces ++ xs)
                        (with_tax_shares-items result shares shared),
                tt,
                added-Grows acc document left shares,
              ))
    ]

hand_visited :
    (acc : Collected) (document : DocumentRow) (next : Collected)
    → read_by_hand acc document ≡ ok next
    → (items next.pieces ≡ items acc.pieces ++ (as_result document.evidence).items)
      × IsShelved by_hand document.source_filename next
      × Grows acc next
unfolding read_by_hand hand_acc added
hand_visited acc document next e =
    let (shares, shared, x) =
      bind_ok (with_tax_shares (as_result document.evidence))
        (λ s. ok (added (hand_acc acc document) document document s)) next e in
    subst
      (λ n.
        (items n.pieces ≡ items acc.pieces ++ (as_result document.evidence).items)
        × HasKey document.source_filename n.manually_entered
        × Grows acc n)
      (ok_inj x)
      (
        added-items (hand_acc acc document) document document shares
            ∙ ap (λ xs. items acc.pieces ++ xs)
                (with_tax_shares-items (as_result document.evidence) shares shared),
        put-HasKey document.source_filename tt acc.manually_entered,
        λ shelf name h.
            added-Grows (hand_acc acc document) document document shares shelf name
              (hand-Grows acc document shelf name h),
      )

aside_acc : Collected → DocumentRow → Collected
aside_acc acc document = record acc {
  set_aside = put document.source_filename (why_set_aside document.doc_kind) acc.set_aside;
  documents = acc.documents ++ document ∷ [];
}

aside-Grows : (acc : Collected) (document : DocumentRow) → Grows acc (aside_acc acc document)
unfolding aside_acc
aside-Grows acc document aside name h =
    put-keeps document.source_filename name (why_set_aside document.doc_kind) acc.set_aside h
aside-Grows acc document for_input name h = h
aside-Grows acc document by_hand name h = h
aside-Grows acc document by_machine name h = tt

module _ (read : DocumentRow → Reading) where
  visited :
      (acc : Collected) (document : DocumentRow) (next : Collected)
      → visit_document read acc document ≡ ok next
      → Visited read acc document next
  unfolding visit_document aside_acc
  visited acc document next e = elim (Bool-cases (produces_claim_lines document.doc_kind)) [
    | inr a ↦
        let x = rw a at e in
        rw a (
          subst
            (λ n.
              (items n.pieces ≡ items acc.pieces ++ [])
              × HasKey document.source_filename n.set_aside
              × Grows acc n)
            (ok_inj x)
            (
              sym (append-nil (items acc.pieces)),
              put-HasKey document.source_filename (why_set_aside document.doc_kind) acc.set_aside,
              aside-Grows acc document,
            ))
    | inl a ↦ elim (Bool-cases (is_manually_entered document.evidence)) [
      | inl b ↦ let x = rw (a, b) at e in rw (a, b) (hand_visited acc document next x)
      | inr b ↦
          let x = rw (a, b) at e in rw (a, b) (machine_visited acc document (read document) next x)
    ]
  ]

  abbrev pub gathered : List DocumentRow → List ExtractedItem
  gathered [] = []
  gathered (document ∷ rest) = items_of read document ++ gathered rest

  collected_from :
      (acc : Collected) (documents : List DocumentRow) (c : Collected)
      → collect read acc documents ≡ ok c
      → (items c.pieces ≡ items acc.pieces ++ gathered documents)
        × All (λ d. IsShelved (shelf_of read d) d.source_filename c) documents
        × Grows acc c
  unfolding collect
  collected_from acc [] c e =
      subst (λ n. (items n.pieces ≡ items acc.pieces ++ []) × Unit {0} × Grows acc n) (ok_inj e)
        (sym (append-nil (items acc.pieces)), tt, λ shelf name h. h)
  collected_from acc (document ∷ rest) c e =
      let (next, first, more) = bind_ok (visit_document read acc document) _ c e in
      let (brought, shelved, grows) = visited acc document next first in
      let (whole, others, later) = collected_from next rest c more in
      (
        whole
            ∙ ap (λ xs. xs ++ gathered rest) brought
            ∙ append_assoc (items acc.pieces) (items_of read document) (gathered rest),
        (later (shelf_of read document) document.source_filename shelved, others),
        λ shelf name h. later shelf name (grows shelf name h),
      )

  -- When the loop has gone through the documents of a trip, the items it has gathered are, in order,
  -- those of the documents that were read, by hand or by machine; and every other document is
  -- recorded under its file name: as set aside if its kind makes no claim lines, and as needing
  -- input if it could not be read or its result asks for input. What was typed in is recorded too.
  pub collect_accounts :
      (documents : List DocumentRow) (c : Collected)
      → collect read nothing_collected documents ≡ ok c
      → (map (λ p. p.item) c.pieces ≡ gathered documents)
        × All (λ d. IsShelved (shelf_of read d) d.source_filename c) documents
  collect_accounts documents c e =
      let (whole, all, _) = collected_from nothing_collected documents c e in (whole, all)
