-- ===== src/Notifications/Inbox.antt =====
-- notifications/router.py and `unread_count` of notifications/service.py: the inbox of the caller. A
-- handler that writes takes the table and returns the one it leaves; `now` is the time it is called
-- at.
pub mod Reading
use expense_reimbursement_ta.Prelude.{
  ℕ, ◌+◌, ◌*◌, ◌-◌, Bool, ◌&&◌, Option, none, some, List, [], ◌∷◌, map, find, filter, length,
  reverse, take, if◌then◌else◌, is_none, ◌==◌,
}
use expense_reimbursement_ta.Prelude.Sort.{sorted}
use expense_reimbursement_ta.Prelude.Result.{Result, ok, err}
use expense_reimbursement_ta.Prelude.Text.{Text, text_eq}
use expense_reimbursement_ta.Models.{DateTime}
use expense_reimbursement_ta.Http.{HttpError, http_error, no_such_notification}
use expense_reimbursement_ta.Notifications.{Notification}

-- A row of the notification table: what `notify` writes, and the columns with defaults.
pub record InboxRow : Type 0 where
  pub id : ℕ
  pub external_id : Text
  pub notification : Notification
  pub created_at : DateTime
  pub read_at : Option DateTime

pub record NotificationListResponse : Type 0 where
  pub unread_count : ℕ
  pub items : List InboxRow

pub record MarkReadResponse : Type 0 where
  pub unread_count : ℕ
  pub marked : ℕ

unfoldable pub is_to : ℕ → InboxRow → Bool
is_to user row = row.notification.recipient_employee_id == user

-- The rows that both `unread_count` and the update of `mark_all_read` select.
unfoldable pub is_unread : ℕ → InboxRow → Bool
unfolding is_to
is_unread user row = is_to user row && is_none row.read_at

unfoldable pub unread_count : List InboxRow → ℕ → ℕ
unfolding is_unread
unread_count rows user = length (filter (is_unread user) rows)

abbrev created : InboxRow → ℕ
created row = row.created_at.day * 86400 + row.created_at.second

-- `order_by(created_at.desc(), id.desc())`, where no two rows have one id.
unfoldable pub newest_first : List InboxRow → List InboxRow
newest_first rows = reverse (sorted created (sorted (λ row. row.id) rows))

unfoldable pub list_notifications : List InboxRow → ℕ → ℕ → NotificationListResponse
unfolding is_to newest_first unread_count
list_notifications rows user limit = record {
  unread_count = unread_count rows user;
  items = take limit (newest_first (filter (is_to user) rows));
}

unfoldable pub read_now : DateTime → InboxRow → InboxRow
read_now now row = record row { read_at = some now }

-- The caller's row with the external id, read now if it was unread.
unfoldable pub is_named : Text → ℕ → InboxRow → Bool
unfolding is_to
is_named external_id user row = text_eq row.external_id external_id && is_to user row

unfoldable pub read_first : DateTime → (InboxRow → Bool) → List InboxRow → List InboxRow
unfolding read_now
read_first now p [] = []
read_first now p (row ∷ rows) =
    let rest = read_first now p rows in
    if p row then (if is_none row.read_at then read_now now row else row) ∷ rows else row ∷ rest

unfoldable pub mark_read :
    (now : DateTime) (external_id : Text) (user : ℕ) (rows : List InboxRow)
    → Result HttpError (List InboxRow × MarkReadResponse)
unfolding is_named read_first unread_count
mark_read now external_id user rows = elim (find (is_named external_id user) rows) [
  | none ↦ err (http_error 404 no_such_notification)
  | some row ↦
      let after = read_first now (is_named external_id user) rows in
      ok (
        after,
        record {
          unread_count = unread_count after user;
          marked = if is_none row.read_at then 1 else 0;
        },
      )
]

-- The update of `mark_all_read`.
unfoldable pub read_all : DateTime → ℕ → List InboxRow → List InboxRow
unfolding is_unread read_now
read_all now user rows = map (λ row. if is_unread user row then read_now now row else row) rows

unfoldable pub mark_all_read :
    (now : DateTime) (user : ℕ) (rows : List InboxRow) → List InboxRow × MarkReadResponse
unfolding read_all unread_count
mark_all_read now user rows =
    let before = unread_count rows user in
    let left = read_all now user rows in
    let after = unread_count left user in
    (left, record { unread_count = after; marked = before - after })
