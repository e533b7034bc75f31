-- ===== src/Evidence/Uploads/Accepted.antt =====
-- Which uploads become documents (`store_upload` of evidence/uploads.py).
use expense_reimbursement_ta.Prelude.{
  ℕ, ◌≤◌, ◌≡◌, ◌≢◌, ◌⊎◌, inl, inr, refl, sym, Bool, true, false, ◌||◌, Option, none, some, ◌++◌,
  arith, Bool-cases, ltb, ◌==◌, or_else,
}
use expense_reimbursement_ta.Prelude.Result.{ok, ok_inj, bind_ok}
use expense_reimbursement_ta.Prelude.Text.{Text, codes, is_member, lower, text_eq}
use expense_reimbursement_ta.Models.{DocKind}
use expense_reimbursement_ta.Evidence.Store.{ParsedEmail, to_document}
use expense_reimbursement_ta.Evidence.Uploads.{
  MailParse, accepted, envelope_path, image_suffixes, is_declarable, mail_path, mail_suffixes,
  require_kind, require_size, require_suffix, safe_name, stem_and_suffix, store_upload, unique_path,
}
use expense_reimbursement_ta.Evidence.Uploads.Names.{unique_path_free}
use expense_reimbursement_ta.Tables.{DocumentRow}

require_size_ok :
    (max_bytes size : ℕ) (u : Unit {0})
    → require_size max_bytes size ≡ ok u
    → (size ≢ 0) × (size ≤ max_bytes)
unfolding require_size
require_size_ok max_bytes size u e = elim (Bool-cases (size == 0)) [
  | inl a ↦ let x = rw a at e in cc
  | inr a ↦ elim (Bool-cases (ltb max_bytes size)) [
    | inl b ↦ let x = rw (a, b) at e in cc
    | inr b ↦ ((λ q. let x = rw q at a in cc), ground (arith, b))
  ]
]

require_suffix_ok :
    (suffix : Text) (u : Unit {0})
    → require_suffix suffix ≡ ok u
    → is_member suffix (image_suffixes ++ mail_suffixes) ≡ true
unfolding require_suffix
require_suffix_ok suffix u e =
    elim (Bool-cases (is_member suffix (image_suffixes ++ mail_suffixes))) [
      | inl a ↦ a
      | inr a ↦ let x = rw a at e in cc
    ]

require_kind_ok :
    (declared : Option DocKind) (u : Unit {0})
    → require_kind declared ≡ ok u
    → (kind : DocKind) × (declared ≡ some kind) × (is_declarable kind ≡ true)
unfolding require_kind
require_kind_ok none u e = cc
require_kind_ok (some kind) u e = elim (Bool-cases (is_declarable kind)) [
  | inl a ↦ (kind, refl, a)
  | inr a ↦ let x = rw a at e in cc
]

or_false : (a b : Bool) → (a || b) ≡ false → b ≡ false
or_false a b e = ground (arith, e)

-- An image needs a declared kind that can be read from one.
abbrev pub NeedsKind : Text → Option DocKind → Type 0
NeedsKind suffix declared =
    (is_member suffix image_suffixes ≡ false)
    ⊎ ((kind : DocKind) × (declared ≡ some kind) × (is_declarable kind ≡ true))

module _ (exists : Text → Bool) where
  envelope_path_ok :
      (name : Text) (declared : Option DocKind) (path : Text)
      → envelope_path exists name declared ≡ ok path
      → ((kind : DocKind) × (declared ≡ some kind) × (is_declarable kind ≡ true))
        × (exists path ≡ false)
  unfolding envelope_path
  envelope_path_ok name declared path e =
      let (u, kinded, e1) = bind_ok (require_kind declared) _ path e in
      let (image, _, e2) = bind_ok (unique_path exists name) _ path e1 in
      let free =
        unique_path_free (λ t. text_eq t image || exists t)
          ((stem_and_suffix image).0 ++ codes ".eml") path e2 in
      (require_kind_ok declared u kinded, or_false (text_eq path image) (exists path) free)

  mail_path_ok :
      (name suffix : Text) (declared : Option DocKind) (path : Text)
      → mail_path exists name suffix declared ≡ ok path
      → NeedsKind suffix declared × (exists path ≡ false)
  unfolding mail_path
  mail_path_ok name suffix declared path e = elim (Bool-cases (is_member suffix image_suffixes)) [
    | inl a ↦
        let x = rw a at e in
        let (kinded, free) = envelope_path_ok name declared path x in (inr kinded, free)
    | inr a ↦ let x = rw a at e in (inl a, unique_path_free exists name path x)
  ]

  -- An upload that is stored is not empty and not over the limit, has a suffix that can be read, and,
  -- if it is an image, was declared as a kind that can be read from one. The document belongs to the
  -- trip, is of the declared kind if there is one, and its mail has a path that did not exist.
  pub store_upload_sound :
      (max_bytes : ℕ) (parse : Text → MailParse) (classify : ParsedEmail → DocKind) (trip : ℕ)
      (external_id filename : Text) (size : ℕ) (declared : Option DocKind) (document : DocumentRow)
      → store_upload max_bytes exists parse classify trip external_id filename size declared
        ≡ ok document
      → (mail : ParsedEmail) × (path : Text) × (size ≢ 0)
        × (size ≤ max_bytes)
        × (is_member
              (lower (stem_and_suffix (safe_name filename)).1)
              (image_suffixes ++ mail_suffixes)
            ≡ true)
        × NeedsKind (lower (stem_and_suffix (safe_name filename)).1) declared
        × (exists path ≡ false)
        × (accepted (parse path) ≡ ok mail)
        × (document
            ≡ to_document external_id mail
                (or_else declared (classify mail))
                (some trip)
                (some path))
  unfolding store_upload
  store_upload_sound max_bytes parse classify trip external_id filename size declared document e =
      let name = safe_name filename in
      let suffix = lower (stem_and_suffix name).1 in
      let (u, sized, e1) = bind_ok (require_size max_bytes size) _ document e in
      let (v, readable, e2) = bind_ok (require_suffix suffix) _ document e1 in
      let (path, placed, e3) = bind_ok (mail_path exists name suffix declared) _ document e2 in
      let (mail, got, e4) = bind_ok (accepted (parse path)) _ document e3 in
      let (some_bytes, within) = require_size_ok max_bytes size u sized in
      let (kinded, free) = mail_path_ok name suffix declared path placed in
      (
        mail,
        path,
        some_bytes,
        within,
        require_suffix_ok suffix v readable,
        kinded,
        free,
        got,
        sym (ok_inj e4),
      )
