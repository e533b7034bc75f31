-- ===== src/Tests/Inbox.antt =====
-- The inbox at concrete inputs.
use expense_reimbursement_ta.Prelude.{ℕ, ◌≡◌, refl, false, none, some, List, [], ◌∷◌, get_elem?}
use expense_reimbursement_ta.Prelude.Result.{ok}
use expense_reimbursement_ta.Prelude.Text.{Text, codes}
use expense_reimbursement_ta.Notifications.{NotificationKind, submitted}
use expense_reimbursement_ta.Notifications.Inbox.{
  InboxRow, MarkReadResponse, is_unread, mark_all_read, mark_read, read_now, unread_count,
}
use expense_reimbursement_ta.Notifications.Inbox.Reading.{mark_all_read_lem}
use expense_reimbursement_ta.Prelude.Int.{pos}
use expense_reimbursement_ta.Tests.Trip.{now}

abbrev message : ℕ → ℕ → Text → InboxRow
message id recipient external_id = record {
  id = id;
  external_id = external_id;
  notification = record {
    recipient_employee_id = recipient;
    kind = NotificationKind.claim_submitted;
    wording = submitted (codes "TRQ-2026-0001") (pos 17200) none;
    trq_id = some (codes "TRQ-2026-0001");
    claim_id = some 40;
    travel_request_id = some 7;
    actor_employee_id = some 1;
  };
  created_at = now;
  read_at = none;
}

abbrev inbox : List InboxRow
inbox = message 1 1 (codes "a") ∷ message 2 2 (codes "b") ∷ message 3 1 (codes "c") ∷ []

abbrev one_read : List InboxRow
one_read =
    message 1 1 (codes "a") ∷ message 2 2 (codes "b") ∷ read_now now (message 3 1 (codes "c")) ∷ []

abbrev all_read : List InboxRow
all_read =
    read_now now (message 1 1 (codes "a"))
    ∷ message 2 2 (codes "b")
    ∷ read_now now (message 3 1 (codes "c"))
    ∷ []

abbrev response : ℕ → ℕ → MarkReadResponse
response unread marked = record { unread_count = unread; marked = marked }

marks_one : mark_read now (codes "c") 1 inbox ≡ ok (one_read, response 1 1)
unfolding mark_read
marks_one = refl

marks_all : mark_all_read now 1 inbox ≡ (all_read, response 0 2)
unfolding mark_all_read
marks_all = refl

mark_all_read_lem_example :
    ((response 0 2).unread_count ≡ 0)
    × (2 ≡ unread_count inbox 1)
    × (unread_count all_read 1 ≡ 0)
    × ((k : ℕ) (row : InboxRow)
        → get_elem? inbox k ≡ some row
        → is_unread 1 row ≡ false
        → get_elem? all_read k ≡ some row)
mark_all_read_lem_example = mark_all_read_lem now 1 inbox all_read (response 0 2) marks_all
