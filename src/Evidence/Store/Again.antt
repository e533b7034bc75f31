-- ===== src/Evidence/Store/Again.antt =====
-- Taking the same directory in again (evidence/store.py).
use expense_reimbursement_ta.Prelude.{
  ℕ, suc, ◌+◌, ◌≡◌, refl, Bool, true, not, ◌&&◌, ◌||◌, Option, none, some, List, [], ◌∷◌, All,
  All-append, length, length-append, Bool-cases, inl, inr, arith,
}
use expense_reimbursement_ta.Prelude.Text.{Text, is_empty, is_member, text_eq, text_eq_refl}
use expense_reimbursement_ta.Models.{DocKind}
use expense_reimbursement_ta.Evidence.Store.{
  IngestReport, ParsedEmail, Parsing, empty_report, failed, ingest_directory, ingest_from, is_known,
  parsed, take_in, to_document, with_id,
}
use expense_reimbursement_ta.Tables.{DocumentRow}

-- No Message-ID, or an empty one.
abbrev pub is_missing : Option Text → Bool
is_missing none = true
is_missing (some id) = is_empty id

abbrev id_of : Parsing → Option Text
id_of (parsed mail) = mail.message_id
id_of (failed _) = none

-- The message would not be taken in for its id: it has none, or it is known.
abbrev IsSettled : Option Text → List Text → Type 0
IsSettled id ids = (is_missing id || is_known id ids) ≡ true

or_right : (a b : Bool) → b ≡ true → (a || b) ≡ true
or_right a b e = ground (arith, e)

and_parts : (a b : Bool) → (a && b) ≡ true → (a ≡ true) × (b ≡ true)
and_parts a b e = ground (arith, e)

-- Known ids stay known.
known-with_id :
    (id other : Option Text) (ids : List Text)
    → is_known id ids ≡ true
    → is_known id (with_id other ids) ≡ true
unfolding is_known with_id is_member
known-with_id none other ids e = cc
known-with_id (some id) none ids e = e
known-with_id (some id) (some new) ids e = elim (Bool-cases (is_empty new)) [
  | inl a ↦ rw a e
  | inr a ↦
      let (full, member) = and_parts (not (is_empty id)) (is_member id ids) e in
      rw (a, full, or_right (text_eq id new) (is_member id ids) member) refl
]

IsSettled-with_id :
    (id other : Option Text) (ids : List Text) → IsSettled id ids → IsSettled id (with_id other ids)
IsSettled-with_id id other ids e = elim (Bool-cases (is_missing id)) [
  | inl a ↦ rw a refl
  | inr a ↦ let x = rw a at e in rw (a, known-with_id id other ids x) refl
]

-- An id that has been taken in is settled.
with_id-IsSettled : (id : Option Text) (ids : List Text) → IsSettled id (with_id id ids)
unfolding is_known with_id is_member
with_id-IsSettled none ids = refl
with_id-IsSettled (some id) ids = elim (Bool-cases (is_empty id)) [
  | inl a ↦ rw a refl
  | inr a ↦ rw (a, text_eq_refl id) refl
]

module _ (classify : ParsedEmail → DocKind) (trip : Option ℕ) where
  take_in-settles :
      (name : Text) (report : IngestReport) (p : Parsing)
      → IsSettled (id_of p) (take_in classify trip name report p).existing_ids
  unfolding take_in
  take_in-settles name report (failed error) = refl
  take_in-settles name report (parsed mail) =
      elim (Bool-cases (is_known mail.message_id report.existing_ids)) [
        | inl a ↦ rw (a, a) (or_right (is_missing mail.message_id) true refl)
        | inr a ↦ rw a (with_id-IsSettled mail.message_id report.existing_ids)
      ]

  take_in-keeps :
      (name : Text) (report : IngestReport) (p : Parsing) (id : Option Text)
      → IsSettled id report.existing_ids
      → IsSettled id (take_in classify trip name report p).existing_ids
  unfolding take_in
  take_in-keeps name report (failed error) id e = e
  take_in-keeps name report (parsed mail) id e =
      elim (Bool-cases (is_known mail.message_id report.existing_ids)) [
        | inl a ↦ rw a e
        | inr a ↦ rw a (IsSettled-with_id id mail.message_id report.existing_ids e)
      ]

  -- One more message of the directory is counted once: taken in, skipped or failed.
  abbrev seen : IngestReport → ℕ
  seen report = length report.documents + length report.skipped_existing + length report.failures

  take_in-counts :
      (name : Text) (report : IngestReport) (p : Parsing)
      → seen (take_in classify trip name report p) ≡ suc (seen report)
  unfolding take_in
  take_in-counts name report (failed error) =
      omega (arith, length-append report.failures ((name, error) ∷ []))
  take_in-counts name report (parsed mail) =
      elim (Bool-cases (is_known mail.message_id report.existing_ids)) [
        | inl a ↦ rw a (omega (arith, length-append report.skipped_existing (name ∷ [])))
        | inr a ↦ rw a (
            omega (
              arith,
              length-append report.documents (to_document name mail (classify mail) trip none ∷ []),
            ))
      ]

  -- A document without a Message-ID.
  abbrev IsUnnamed : DocumentRow → Type 0
  IsUnnamed document = is_missing document.message_id ≡ true

  take_in-IsUnnamed :
      (name : Text) (report : IngestReport) (p : Parsing)
      → IsSettled (id_of p) report.existing_ids
      → All IsUnnamed report.documents
      → All IsUnnamed (take_in classify trip name report p).documents
  unfolding take_in to_document
  take_in-IsUnnamed name report (failed error) e h = h
  take_in-IsUnnamed name report (parsed mail) e h =
      elim (Bool-cases (is_known mail.message_id report.existing_ids)) [
        | inl a ↦ rw a h
        | inr a ↦
            let unnamed : is_missing mail.message_id ≡ true =
              elim (Bool-cases (is_missing mail.message_id)) [
                | inl b ↦ b
                | inr b ↦ let x = rw (b, a) at e in cc
              ] in
            rw a (
              All-append IsUnnamed report.documents
                (to_document name mail (classify mail) trip none ∷ []) h (unnamed, tt))
      ]

  module _ (parse : Text → Parsing) where
    abbrev AllSettled : List Text → List Text → Type 0
    AllSettled ids names = All (λ name. IsSettled (id_of (parse name)) ids) names

    ingest-keeps :
        (report : IngestReport) (names : List Text) (id : Option Text)
        → IsSettled id report.existing_ids
        → IsSettled id (ingest_from parse classify trip report names).existing_ids
    unfolding ingest_from
    ingest-keeps report [] id e = e
    ingest-keeps report (name ∷ names) id e =
        ingest-keeps (take_in classify trip name report (parse name)) names id
          (take_in-keeps name report (parse name) id e)

    ingest-settles :
        (report : IngestReport) (names : List Text)
        → AllSettled (ingest_from parse classify trip report names).existing_ids names
    unfolding ingest_from
    ingest-settles report [] = tt
    ingest-settles report (name ∷ names) =
        let next = take_in classify trip name report (parse name) in
        (
          ingest-keeps next names (id_of (parse name)) (take_in-settles name report (parse name)),
          ingest-settles next names,
        )

    ingest-IsUnnamed :
        (report : IngestReport) (names : List Text)
        → AllSettled report.existing_ids names
        → All IsUnnamed report.documents
        → All IsUnnamed (ingest_from parse classify trip report names).documents
    unfolding ingest_from
    ingest-IsUnnamed report [] e h = h
    ingest-IsUnnamed report (name ∷ names) e h =
        let next = take_in classify trip name report (parse name) in
        ingest-IsUnnamed next names
          (settled_on names (λ id s. take_in-keeps name report (parse name) id s) e.1)
          (take_in-IsUnnamed name report (parse name) e.0 h)
      where
        settled_on :
            {before after : List Text} (names : List Text)
            → ((id : Option Text) → IsSettled id before → IsSettled id after)
            → AllSettled before names
            → AllSettled after names
        settled_on [] f h = tt
        settled_on (name ∷ names) f h = (f (id_of (parse name)) h.0, settled_on names f h.1)

    ingest-counts :
        (report : IngestReport) (names : List Text)
        → seen (ingest_from parse classify trip report names) ≡ seen report + length names
    unfolding ingest_from
    ingest-counts report [] = omega arith
    ingest-counts report (name ∷ names) =
        let next = take_in classify trip name report (parse name) in
        let more = ingest-counts next names in
        let one = take_in-counts name report (parse name) in omega (arith, more, one)

    -- Every message of a directory is taken in, skipped or failed, and none counts twice. When the
    -- same directory is taken in again, with the Message-IDs that are then known, only messages
    -- without a Message-ID become documents a second time.
    pub ingest_directory_again :
        (existing_ids names : List Text)
        → (length (ingest_directory parse classify trip existing_ids names).documents
              + length (ingest_directory parse classify trip existing_ids names).skipped_existing
              + length (ingest_directory parse classify trip existing_ids names).failures
            ≡ length names)
          × All IsUnnamed
              (ingest_directory parse classify trip
                (ingest_directory parse classify trip existing_ids names).existing_ids
                names).documents
    unfolding ingest_directory
    ingest_directory_again existing_ids names = (
      omega (arith, ingest-counts (empty_report existing_ids) names),
      ingest-IsUnnamed
          (empty_report
            (ingest_from parse classify trip (empty_report existing_ids) names).existing_ids)
          names (ingest-settles (empty_report existing_ids) names) tt,
    )
