-- ===== src/Http.antt =====
-- What the routers raise (`HTTPException`): the status, and the code of the detail with what its
-- message quotes. The submission errors that no handler names are answered by the handler for
-- unhandled exceptions, with status 500 (handlers/errors.py).
use expense_reimbursement_ta.Prelude.{ℕ, List}
use expense_reimbursement_ta.Prelude.Int.{ℤ}
use expense_reimbursement_ta.Prelude.Text.{Text}
use expense_reimbursement_ta.Models.{ClaimStatus, DocKind, Role}
use expense_reimbursement_ta.Claims.Lifecycle.{Blocking, TransitionError}

pub data Detail : Type 0 where
  not_signed_in unknown_profile not_an_approver : Detail
  no_such_trip no_such_claim no_such_document no_such_notification : Detail
  not_the_claimant : Detail
  claim_locked : ClaimStatus → Detail
  approver_mismatch nothing_pending remarks_required : Detail
  not_your_step : (role : Role) (sequence : ℕ) → Detail
  stale_claim : (version expected : ℕ) → Detail
  cannot_transition : TransitionError → Detail
  claim_incomplete : List Blocking → Detail
  claim_already : ClaimStatus → Detail
  not_removable not_claimable already_read upload_rejected : Detail
  total_mismatch : (entered stated : ℤ) → Detail
  unknown_document_kind : Text → Detail
  unsupported_document_kind : DocKind → Detail
  trip_not_created : Detail
  internal_server_error : Detail

pub record HttpError : Type 0 where
  pub status_code : ℕ
  pub detail : Detail

abbrev pub http_error : ℕ → Detail → HttpError
http_error status_code detail = record { status_code = status_code; detail = detail }
