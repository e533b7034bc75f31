-- ===== src/Tests/Uploads.antt =====
-- A photographed bill that is uploaded, and a directory that is taken in twice.
use expense_reimbursement_ta.Prelude.Text.{is_empty}
use expense_reimbursement_ta.Prelude.{
  ℕ, ◌≤◌, ◌+◌, ◌≡◌, ◌≢◌, refl, Bool, true, false, Option, none, some, List, [], ◌∷◌, ◌++◌, All,
  length, or_else,
}
use expense_reimbursement_ta.Prelude.Result.{ok}
use expense_reimbursement_ta.Prelude.Text.{Text, codes, text_eq, is_member, lower}
use expense_reimbursement_ta.Models.{DocKind}
use expense_reimbursement_ta.Evidence.Store.{
  ParsedEmail, Parsing, failed, ingest_directory, parsed, to_document,
}
use expense_reimbursement_ta.Evidence.Store.Again.{ingest_directory_again, is_missing}
use expense_reimbursement_ta.Evidence.Uploads.{
  MailParse, accepted, image_suffixes, is_safe, is_trimmed, mail_parsed, mail_suffixes, safe_name,
  stem_and_suffix, store_upload, unique_path,
}
use expense_reimbursement_ta.Evidence.Uploads.Accepted.{NeedsKind, store_upload_sound}
use expense_reimbursement_ta.Evidence.Uploads.Stored.{stored_name_lem}
use expense_reimbursement_ta.Tables.{DocumentRow}

abbrev mail : Option Text → ParsedEmail
mail message_id = record {
  source_filename = codes "bill.eml";
  message_id = message_id;
  sender_email = none;
  subject = some (codes "bill");
  received_at = none;
  body_text = codes "Total 450";
  attachment_path = some (codes "bill.png");
  proof_ref = codes "bill.png";
}

abbrev nothing_there : Text → Bool
nothing_there _ = false

abbrev parse : Text → MailParse
parse _ = mail_parsed (mail none)

abbrev unknown : ParsedEmail → DocKind
unknown _ = DocKind.unknown

abbrev size : ℕ
size = 600

abbrev stored : DocumentRow
stored =
    to_document (codes "upload-1") (mail none) DocKind.restaurant_bill (some 7)
      (some (codes "bill.eml"))

stores :
    store_upload 1000 nothing_there parse unknown 7
      (codes "upload-1")
      (codes "../bill.PNG")
      size
      (some DocKind.restaurant_bill)
    ≡ ok stored
unfolding store_upload is_empty
stores = refl

safe_name_runs : safe_name (codes "../../etc/.my bill (1).eml") ≡ codes "my_bill_1_.eml"
unfolding safe_name is_empty
safe_name_runs = refl

store_upload_sound_example :
    (m : ParsedEmail) × (path : Text) × (size ≢ 0)
    × (size ≤ 1000)
    × (is_member
          (lower (stem_and_suffix (safe_name (codes "../bill.PNG"))).1)
          (image_suffixes ++ mail_suffixes)
        ≡ true)
    × NeedsKind
        (lower (stem_and_suffix (safe_name (codes "../bill.PNG"))).1)
        (some DocKind.restaurant_bill)
    × (nothing_there path ≡ false)
    × (accepted (parse path) ≡ ok m)
    × (stored
        ≡ to_document
            (codes "upload-1")
            m
            (or_else (some DocKind.restaurant_bill) (unknown m))
            (some 7)
            (some path))
store_upload_sound_example =
    store_upload_sound nothing_there 1000 parse unknown 7 (codes "upload-1") (codes "../bill.PNG")
      size (some DocKind.restaurant_bill) stored stores

abbrev one_there : Text → Bool
one_there name = text_eq name (codes "my_bill.eml")

tells_apart :
    unique_path one_there (safe_name (codes "../../.my bill.eml")) ≡ ok (codes "my_bill-1.eml")
unfolding unique_path safe_name is_empty
tells_apart = refl

stored_name_lem_example :
    (one_there (codes "my_bill-1.eml") ≡ false)
    × (c : ℕ) × (rest : Text) × (codes "my_bill-1.eml" ≡ c ∷ rest)
    × (is_trimmed c ≡ false)
    × All (λ d. is_safe d ≡ true) (codes "my_bill-1.eml")
    × (length (codes "my_bill-1.eml") ≤ 124)
stored_name_lem_example =
    stored_name_lem one_there (codes "../../.my bill.eml") (codes "my_bill-1.eml") tells_apart

abbrev read_mail : Text → Parsing
read_mail [] = failed (codes "no name")
read_mail (c ∷ rest) = parsed (mail (some (c ∷ [])))

abbrev names : List Text
names = codes "a.eml" ∷ codes "b.eml" ∷ codes "a2.eml" ∷ []

abbrev IsNameless : DocumentRow → Type 0
IsNameless document = is_missing document.message_id ≡ true

ingest_directory_again_example :
    (length (ingest_directory read_mail unknown none [] names).documents
        + length (ingest_directory read_mail unknown none [] names).skipped_existing
        + length (ingest_directory read_mail unknown none [] names).failures
      ≡ 3)
    × All IsNameless
        (ingest_directory read_mail unknown none
          (ingest_directory read_mail unknown none [] names).existing_ids
          names).documents
ingest_directory_again_example = ingest_directory_again unknown none read_mail [] names
