-- ===== src/Evidence/Uploads.antt =====
-- evidence/uploads.py: a bill that the employee uploads. The content is known by its size, the
-- directory by the names that exist in it, and parsing and classification are arguments; the bytes
-- that are written and the envelope of an image are left out.
pub mod Names
pub mod Accepted
pub mod Stored
use expense_reimbursement_ta.Prelude.{
  ℕ, zero, suc, Bool, true, false, not, ◌&&◌, ◌||◌, Option, none, some, List, [], ◌∷◌, ◌++◌, length,
  ltb, leb, ◌==◌, take, if◌then◌else◌, or_else,
}
use expense_reimbursement_ta.Prelude.Decimals.{decimal}
use expense_reimbursement_ta.Prelude.Result.{Result, ok, err, ◌>>=◌}
use expense_reimbursement_ta.Prelude.Text.{
  Text, codes, is_digit, is_empty, is_lower, is_member, is_upper, lower, text_eq,
}
use expense_reimbursement_ta.Models.{DocKind}
use expense_reimbursement_ta.Evidence.Store.{ParsedEmail, to_document}
use expense_reimbursement_ta.Tables.{DocumentRow}

-- `kind in DECLARABLE_KINDS`
unfoldable pub is_declarable : DocKind → Bool
is_declarable DocKind.hotel_invoice = true
is_declarable DocKind.restaurant_bill = true
is_declarable DocKind.cab_receipt = true
is_declarable DocKind.flight_booking = true
is_declarable _ = false

-- A character that `_UNSAFE` does not match.
abbrev pub is_safe : ℕ → Bool
is_safe c = is_upper c || is_lower c || is_digit c || (c == b'.') || (c == b'_') || (c == b'-')

-- The last component of a path, `last` being that of what was read so far: empty components and
-- single dots do not count (`Path(...).name`).
unfoldable keep_component : Text → Text → Text
keep_component last [] = last
keep_component last (c ∷ word) = if is_empty word && c == b'.' then last else c ∷ word

unfoldable last_component : Text → Text → Text → Text
unfolding keep_component
last_component last word [] = keep_component last word
last_component last word (c ∷ t) =
    let next = last_component (keep_component last word) [] t in
    let more = last_component last (word ++ c ∷ []) t in if c == b'/' then next else more

unfoldable pub base_name : Text → Text
unfolding last_component
base_name = last_component [] []

-- `_UNSAFE.sub("_", text)`: a run of unsafe characters becomes one underscore.
unfoldable pub cleaned : Bool → Text → Text
cleaned in_run [] = []
cleaned in_run (c ∷ t) =
    let safe = cleaned false t in
    let unsafe = cleaned true t in
    if is_safe c then c ∷ safe else if in_run then unsafe else b'_' ∷ unsafe

abbrev pub is_trimmed : ℕ → Bool
is_trimmed c = (c == b'.') || (c == b'_')

unfoldable pub trim_left : Text → Text
trim_left [] = []
trim_left (c ∷ t) = let rest = trim_left t in if is_trimmed c then rest else c ∷ t

unfoldable pub trim_right : Text → Text
trim_right [] = []
trim_right (c ∷ t) = elim (trim_right t) [
  | [] ↦ if is_trimmed c then [] else c ∷ []
  | d ∷ s ↦ c ∷ d ∷ s
]

abbrev pub or_upload : Text → Text
or_upload [] = codes "upload"
or_upload (c ∷ t) = c ∷ t

unfoldable pub safe_name : Text → Text
unfolding base_name cleaned trim_left trim_right
safe_name filename =
    take 120 (or_upload (trim_right (trim_left (cleaned false (base_name filename)))))

-- The text up to its last dot, and from it on: `Path(name).stem` and `.suffix`. `front` is what was
-- read before the dot found last, `word` what was read since.
unfoldable pub split_at_dot : Text → Text → Text → Text × Text
split_at_dot front word [] =
    if is_empty front || leb (length word) 1 then (front ++ word, []) else (front, word)
split_at_dot front word (c ∷ t) =
    let next = split_at_dot (front ++ word) (c ∷ []) t in
    let more = split_at_dot front (word ++ c ∷ []) t in if c == b'.' then next else more

unfoldable pub stem_and_suffix : Text → Text × Text
unfolding split_at_dot
stem_and_suffix name = split_at_dot [] [] name

pub data Rejection : Type 0 where
  empty_file : Rejection
  too_large : (max_bytes : ℕ) → Rejection
  not_readable : (suffix : Text) → Rejection
  kind_missing : Rejection
  kind_unreadable : DocKind → Rejection
  too_many_files : Rejection
  attachment_missing : Rejection
  not_a_message : Text → Rejection

unfoldable pub numbered : Text → ℕ → Text
unfolding stem_and_suffix decimal
numbered name counter =
    let (stem, suffix) = stem_and_suffix name in stem ++ codes "-" ++ decimal counter ++ suffix

-- The alternatives from `counter` on, `left` of them.
unfoldable pub alternative : (Text → Bool) → Text → ℕ → ℕ → Result Rejection Text
unfolding numbered
alternative exists name zero counter = err too_many_files
alternative exists name (suc left) counter =
    let more = alternative exists name left (suc counter) in
    if not (exists (numbered name counter)) then ok (numbered name counter) else more

-- `_unique_path`
unfoldable pub unique_path : (Text → Bool) → Text → Result Rejection Text
unfolding alternative
unique_path exists name = if not (exists name) then ok name else alternative exists name 999 1

abbrev pub image_suffixes : List Text
image_suffixes = codes ".png" ∷ codes ".jpg" ∷ codes ".jpeg" ∷ codes ".webp" ∷ codes ".pdf" ∷ []

abbrev pub mail_suffixes : List Text
mail_suffixes = codes ".eml" ∷ []

-- What `parse_eml` gives or raises.
pub data MailParse : Type 0 where
  mail_parsed : ParsedEmail → MailParse
  attachment_not_found : MailParse
  unparsable : Text → MailParse

unfoldable pub require_kind : Option DocKind → Result Rejection (Unit {0})
unfolding is_declarable
require_kind none = err kind_missing
require_kind (some kind) = if is_declarable kind then ok tt else err (kind_unreadable kind)

unfoldable pub require_size : ℕ → ℕ → Result Rejection (Unit {0})
require_size max_bytes size =
    if size == 0
    then err empty_file
    else if ltb max_bytes size
    then err (too_large max_bytes)
    else ok tt

-- The envelope of an uploaded image, which is there by the time that the name is chosen.
unfoldable pub envelope_path : (Text → Bool) → Text → Option DocKind → Result Rejection Text
unfolding require_kind unique_path stem_and_suffix
envelope_path exists name declared_kind = do
  kind ← require_kind declared_kind
  image ← unique_path exists name
  unique_path (λ t. text_eq t image || exists t) ((stem_and_suffix image).0 ++ codes ".eml")

-- The mail that stands for an uploaded file: the envelope of an image, or the mail itself.
unfoldable pub mail_path : (Text → Bool) → Text → Text → Option DocKind → Result Rejection Text
unfolding is_member envelope_path unique_path
mail_path exists name suffix declared_kind =
    if is_member suffix image_suffixes
    then envelope_path exists name declared_kind
    else unique_path exists name

unfoldable pub accepted : MailParse → Result Rejection ParsedEmail
accepted (mail_parsed mail) = ok mail
accepted attachment_not_found = err attachment_missing
accepted (unparsable message) = err (not_a_message message)

unfoldable pub require_suffix : Text → Result Rejection (Unit {0})
unfolding is_member
require_suffix suffix =
    if is_member suffix (image_suffixes ++ mail_suffixes) then ok tt else err (not_readable suffix)

unfoldable pub store_upload :
    (max_bytes : ℕ) (exists : Text → Bool) (parse : Text → MailParse)
    (classify : ParsedEmail → DocKind) (trip : ℕ) (external_id filename : Text) (size : ℕ)
    (declared_kind : Option DocKind)
    → Result Rejection DocumentRow
unfolding require_size safe_name stem_and_suffix lower require_suffix mail_path accepted to_document
store_upload max_bytes exists parse classify trip external_id filename size declared_kind = do
  sized ← require_size max_bytes size
  let name = safe_name filename
  let suffix = lower (stem_and_suffix name).1
  readable ← require_suffix suffix
  path ← mail_path exists name suffix declared_kind
  mail ← accepted (parse path)
  ok (to_document external_id mail (or_else declared_kind (classify mail)) (some trip) (some path))
