-- ===== src/Evidence/Classify.antt =====
-- evidence/classify.py: which kinds of document go on to extraction.
use expense_reimbursement_ta.Prelude.{Bool, true, false}
use expense_reimbursement_ta.Models.{DocKind}

-- `kind in _PRODUCES_CLAIM_LINES`
unfoldable pub produces_claim_lines : DocKind → Bool
produces_claim_lines DocKind.cab_receipt = true
produces_claim_lines DocKind.hotel_invoice = true
produces_claim_lines DocKind.restaurant_bill = true
produces_claim_lines DocKind.flight_booking = true
produces_claim_lines DocKind.third_party_forward = true
produces_claim_lines _ = false
