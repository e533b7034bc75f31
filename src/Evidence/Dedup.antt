-- ===== src/Evidence/Dedup.antt =====
-- evidence/dedup.py: the same transaction arriving more than once. A fingerprint is the tuple of
-- the parts that the source joins with `|`; no part but the last can hold one.
pub mod Kept
pub mod Suppressed
use expense_reimbursement_ta.Prelude.{
  ℕ, suc, Bool, true, false, ◌&&◌, ◌||◌, Option, none, some, List, [], ◌∷◌, filter, if◌then◌else◌,
  ◌==◌, get_elem?, or_else,
}
use expense_reimbursement_ta.Prelude.Int.{ℤ, pos_part, neg_part}
use expense_reimbursement_ta.Prelude.Text.{Text, text_eq, lower, is_lower, is_digit, strip}
use expense_reimbursement_ta.Models.{Date, DateTime}
use expense_reimbursement_ta.Evidence.Extraction.{ExtractedItem}

pub data MatchStrength : Type 0 where
  exact near : MatchStrength

pub record DuplicateMatch : Type 0 where
  pub index : ℕ
  pub duplicate_of : ℕ
  pub strength : MatchStrength

pub record DedupResult : Type 0 where
  pub kept : List ℕ
  pub suppressed : List DuplicateMatch
  pub warnings : List DuplicateMatch

-- `_NON_ALNUM.sub("", value.lower())`
unfoldable pub normalise_merchant : Option Text → Text
normalise_merchant none = []
normalise_merchant (some value) = filter (λ c. is_lower c || is_digit c) (lower value)

-- `isoformat()` of the datetime, or of the date, or the empty text.
pub data When : Type 0 where
  at : (day : Date) (second : ℕ) → When
  on : (day : Date) → When
  never : When

pub record Fingerprint : Type 0 where
  pub merchant : Text
  pub when : When
  pub amount : ℤ
  pub bill_no : Text

unfoldable pub when_of : Option DateTime → Option Date → When
when_of (some moment) day = at moment.day moment.second
when_of none (some day) = on day
when_of none none = never

unfoldable pub fingerprint : ExtractedItem → Fingerprint
unfolding normalise_merchant when_of strip
fingerprint item = record {
  merchant = normalise_merchant item.merchant;
  when = when_of item.txn_datetime item.txn_date;
  amount = item.gross_amount;
  bill_no = lower (strip (or_else item.bill_no []));
}

-- `_near_key`, with `never` for the empty day.
unfoldable pub day_of : Option Date → Option DateTime → When
day_of (some day) moment = on day
day_of none (some moment) = on moment.day
day_of none none = never

unfoldable pub near_key : ExtractedItem → Fingerprint
unfolding normalise_merchant day_of
near_key item = record {
  merchant = normalise_merchant item.merchant;
  when = day_of item.txn_date item.txn_datetime;
  amount = item.gross_amount;
  bill_no = [];
}

abbrev same_when : When → When → Bool
same_when (at d s) (at e t) = (d == e) && (s == t)
same_when (on d) (on e) = d == e
same_when never never = true
same_when _ _ = false

abbrev same_amount : ℤ → ℤ → Bool
same_amount a b = (pos_part a == pos_part b) && (neg_part a == neg_part b)

unfoldable pub same_key : Fingerprint → Fingerprint → Bool
same_key a b =
    text_eq a.merchant b.merchant
    && same_when a.when b.when
    && same_amount a.amount b.amount
    && text_eq a.bill_no b.bill_no

-- A dictionary from keys to indices.
abbrev pub Seen : Type 0
Seen = List (Fingerprint × ℕ)

unfoldable pub seen_at : Fingerprint → Seen → Option ℕ
seen_at key [] = none
seen_at key ((k, i) ∷ seen) = if same_key k key then some i else seen_at key seen

-- The loop, from the item at `index` on, with what has been seen.
unfoldable pub scan : ℕ → (seen_exact seen_near : Seen) → List ExtractedItem → DedupResult
unfolding seen_at
scan index seen_exact seen_near [] = record { kept = []; suppressed = []; warnings = [] }
scan index seen_exact seen_near (item ∷ items) =
    let key = fingerprint item in
    let near_item = near_key item in
    let suppress = scan (suc index) seen_exact seen_near items in
    let first =
      scan (suc index) ((key, index) ∷ seen_exact) ((near_item, index) ∷ seen_near) items in
    let again = scan (suc index) ((key, index) ∷ seen_exact) seen_near items in
    elim (seen_at key seen_exact) [
      | some original ↦
          let found : DuplicateMatch = record {
            index = index;
            duplicate_of = original;
            strength = exact;
          } in
          record {
            kept = suppress.kept;
            suppressed = found ∷ suppress.suppressed;
            warnings = suppress.warnings;
          }
      | none ↦ elim (seen_at near_item seen_near) [
        | some original ↦
            let found : DuplicateMatch = record {
              index = index;
              duplicate_of = original;
              strength = near;
            } in
            record {
              kept = index ∷ again.kept;
              suppressed = again.suppressed;
              warnings = found ∷ again.warnings;
            }
        | none ↦ record {
          kept = index ∷ first.kept;
          suppressed = first.suppressed;
          warnings = first.warnings;
        }
      ]
    ]

unfoldable pub find_duplicates : List ExtractedItem → DedupResult
unfolding scan
find_duplicates items = scan 0 [] [] items

-- `[items[index] for index in result.kept]`; the indices that `find_duplicates` keeps are in range.
unfoldable pub items_at : List ExtractedItem → List ℕ → List ExtractedItem
items_at items [] = []
items_at items (i ∷ kept) = elim (get_elem? items i) [
  | none ↦ items_at items kept
  | some item ↦ item ∷ items_at items kept
]

unfoldable pub filter_out : List ExtractedItem → DedupResult → List ExtractedItem
unfolding items_at
filter_out items result = items_at items result.kept
