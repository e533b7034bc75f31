-- ===== src/Claims/Drafting.antt =====
-- claims/drafting.py: extracted items turned into draft lines, and the nights without a stay.
pub mod Gaps
use expense_reimbursement_ta.Prelude.{
  ℕ, zero, suc, ◌+◌, ◌-◌, Bool, true, false, not, ◌&&◌, ◌||◌, Option, none, some, List, [], ◌∷◌,
  filter, any, if◌then◌else◌, leb, ltb, or_else, map_some,
}
use expense_reimbursement_ta.Prelude.Int.{ℤ}
use expense_reimbursement_ta.Prelude.Text.{Text, codes, is_empty, is_in, lower, search_any, split}
use expense_reimbursement_ta.Models.{Date, DocKind, ExpenseHead, PaidBy, ClaimLineStatus}
use expense_reimbursement_ta.Policy.Decision.{Reason, paid_by_corporate_card}
use expense_reimbursement_ta.Evidence.Extraction.{ExtractedItem}
use expense_reimbursement_ta.Claims.Attribution.{Attribution, attribute, derive_paid_by}

abbrev food : List Text
food =
    codes "dining"
    ∷ codes "restaurant"
    ∷ codes "meal"
    ∷ codes "breakfast"
    ∷ codes "lunch"
    ∷ codes "dinner"
    ∷ codes "food"
    ∷ codes "cafe"
    ∷ codes "bar snack"
    ∷ []

abbrev lodging : List Text
lodging =
    codes "room" ∷ codes "tariff" ∷ codes "accommodation" ∷ codes "lodging" ∷ codes "stay" ∷ []

abbrev hosted : List Text
hosted =
    codes "client"
    ∷ codes "customer"
    ∷ codes "procurement"
    ∷ codes "vendor"
    ∷ codes "partner"
    ∷ codes "supplier"
    ∷ codes "team from"
    ∷ codes "hosted"
    ∷ codes "guest"
    ∷ codes "guests"
    ∷ []

pub record DraftContext : Type 0 where
  pub claimant_name : Text
  pub company_name : Option Text
  pub visiting_company : Option Text
  pub note : Option Text

pub record DraftLine : Type 0 where
  pub head : ExpenseHead
  pub description : Text
  pub line_date : Option Date
  pub paid_by : PaidBy
  pub gross_amount : ℤ
  pub status : ClaimLineStatus
  pub status_reason : Option Reason
  pub nights : Option ℕ
  pub source_index : ℕ

-- `_is_hosted`; `none` is the `IndexError` of `split()[0]` on a company of white space.
unfoldable pub is_hosted : DraftContext → Option Bool
is_hosted context =
    let note = or_else context.note [] in
    let company = or_else context.visiting_company [] in
    let by_wording = search_any hosted note in
    if is_empty company then some by_wording else elim (split company) [
      | [] ↦ none
      | word ∷ _ ↦ some (is_in (lower word) (lower note) || by_wording)
    ]

unfoldable pub folio_head : Text → ExpenseHead
folio_head description =
    if search_any food description
    then ExpenseHead.meals
    else if search_any lodging description
    then ExpenseHead.lodging
    else ExpenseHead.misc

abbrev dinner_head : Option Bool → Option ExpenseHead
dinner_head none = none
dinner_head (some true) = some ExpenseHead.business_entertainment
dinner_head (some false) = some ExpenseHead.meals

-- `classify_head` with a context, which every caller in the program gives.
unfoldable pub classify_head : DocKind → Text → DraftContext → Option ExpenseHead
unfolding folio_head is_hosted
classify_head DocKind.cab_receipt description context = some ExpenseHead.transport
classify_head DocKind.third_party_forward description context = some ExpenseHead.transport
classify_head DocKind.flight_booking description context = some ExpenseHead.transport
classify_head DocKind.hotel_invoice description context = some (folio_head description)
classify_head DocKind.restaurant_bill description context = dinner_head (is_hosted context)
classify_head _ description context = some ExpenseHead.misc

-- The status of a drafted line with its reason.
unfoldable pub draft_status : Attribution → Option Reason → PaidBy → ClaimLineStatus × Option Reason
draft_status Attribution.third_party reason paid_by = (ClaimLineStatus.rejected, reason)
draft_status _ reason PaidBy.company = (ClaimLineStatus.memo, some paid_by_corporate_card)
draft_status _ reason PaidBy.employee = (ClaimLineStatus.allowed, none)

-- `item.txn_date or (item.txn_datetime.date() if item.txn_datetime else None)`
unfoldable pub line_date_of : ExtractedItem → Option Date
line_date_of item = elim item.txn_date [
  | some day ↦ some day
  | none ↦ elim item.txn_datetime [ none ↦ none | some moment ↦ some moment.day ]
]

-- The line, under a head.
unfoldable pub drafted_as : ExtractedItem → DraftContext → ℕ → ExpenseHead → DraftLine
unfolding draft_status line_date_of
drafted_as item context source_index head =
    let who = attribute item.payer_name context.claimant_name in
    let paid_by = derive_paid_by item.payment_method context.company_name in
    let status = draft_status who.attribution who.reason paid_by in
    record {
      head = head;
      description = item.description;
      line_date = line_date_of item;
      paid_by = paid_by;
      gross_amount = item.gross_amount;
      status = status.0;
      status_reason = status.1;
      nights = item.nights;
      source_index = source_index;
    }

unfoldable pub draft_line : ExtractedItem → DocKind → DraftContext → ℕ → Option DraftLine
unfolding classify_head drafted_as
draft_line item kind context source_index =
    map_some (drafted_as item context source_index) (classify_head kind item.description context)

-- The dates of a range, first to last.
unfoldable pub dates_from : Date → ℕ → List Date
dates_from first zero = []
dates_from first (suc n) = first ∷ dates_from (suc first) n

unfoldable pub covers : Date → Date × ℕ → Bool
covers day (check_in, nights) = leb check_in day && ltb day (check_in + nights)

-- The nights of the trip, in order, that no stay covers.
unfoldable pub find_coverage_gaps : (trip_from trip_to : Date) (stays : List (Date × ℕ)) → List Date
unfolding dates_from covers
find_coverage_gaps trip_from trip_to stays =
    filter (λ day. not (any (covers day) stays)) (dates_from trip_from (trip_to - trip_from))
