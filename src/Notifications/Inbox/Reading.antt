-- ===== src/Notifications/Inbox/Reading.antt =====
-- Reading notifications (notifications/router.py) touches nobody else's.
use expense_reimbursement_ta.Prelude.{
  ℕ, zero, suc, ◌+◌, ◌≤◌, ◌≡◌, refl, sym, ap, subst, ◌∙◌, Bool, true, false, some, List, [], ◌∷◌,
  arith, find, get_elem?, Bool-cases, Option-cases, inl, inr, is_none, if◌then◌else◌,
}
use expense_reimbursement_ta.Prelude.Result.{ok, ok_inj}
use expense_reimbursement_ta.Prelude.Text.{Text}
use expense_reimbursement_ta.Models.{DateTime}
use expense_reimbursement_ta.Notifications.Inbox.{
  InboxRow, MarkReadResponse, is_named, is_to, is_unread, mark_all_read, mark_read, read_all,
  read_first, read_now, unread_count,
}

-- One person's unread rows, counted by recursion.
counted :
    (user : ℕ) (row : InboxRow) (rows : List InboxRow)
    → unread_count (row ∷ rows) user
      ≡ (if is_unread user row then suc (unread_count rows user) else unread_count rows user)
unfolding unread_count
counted user row rows = elim (Bool-cases (is_unread user row)) [
  | inl a ↦ rw a refl
  | inr a ↦ rw a refl
]

now_read : (now : DateTime) (user : ℕ) (row : InboxRow) → is_unread user (read_now now row) ≡ false
unfolding is_unread read_now
now_read now user row = ground arith

all_read :
    (now : DateTime) (user : ℕ) (rows : List InboxRow)
    → unread_count (read_all now user rows) user ≡ 0
unfolding read_all unread_count
all_read now user [] = refl
all_read now user (row ∷ rows) = elim (Bool-cases (is_unread user row)) [
  | inl a ↦ let b = now_read now user row in rw a (rw b (all_read now user rows))
  | inr a ↦ rw a (rw a (all_read now user rows))
]

read_all-keeps :
    (now : DateTime) (user : ℕ) (rows : List InboxRow) (k : ℕ) (row : InboxRow)
    → get_elem? rows k ≡ some row
    → is_unread user row ≡ false
    → get_elem? (read_all now user rows) k ≡ some row
unfolding read_all
read_all-keeps now user [] k row e h = cc
read_all-keeps now user (r ∷ rows) zero row e h =
    let same : r ≡ row = cc in let kept : is_unread user r ≡ false = rw same h in rw kept e
read_all-keeps now user (r ∷ rows) (suc k) row e h = read_all-keeps now user rows k row e h

-- Marking all as read leaves the person with no unread notification and reports how many there were.
-- A row that is another person's, or had been read before, stays as it was, in its place.
pub mark_all_read_lem :
    (now : DateTime) (user : ℕ) (rows left : List InboxRow) (response : MarkReadResponse)
    → mark_all_read now user rows ≡ (left, response)
    → (response.unread_count ≡ 0)
      × (response.marked ≡ unread_count rows user)
      × (unread_count left user ≡ 0)
      × ((k : ℕ) (row : InboxRow)
          → get_elem? rows k ≡ some row
          → is_unread user row ≡ false
          → get_elem? left k ≡ some row)
unfolding mark_all_read
mark_all_read_lem now user rows left response e =
    let none_left = all_read now user rows in
    let rows_same : read_all now user rows ≡ left = ap (λ t. t.0) e in
    let answer = ap (λ t. t.1) e in
    (
      sym (ap (λ r. r.unread_count) answer) ∙ none_left,
      sym (ap (λ r. r.marked) answer) ∙ omega (arith, none_left),
      subst (λ r. unread_count r user ≡ 0) rows_same none_left,
      λ k row at_k kept.
          subst (λ r. get_elem? r k ≡ some row) rows_same
            (read_all-keeps now user rows k row at_k kept),
    )

named_is_to :
    (external_id : Text) (user : ℕ) (row : InboxRow)
    → is_named external_id user row ≡ true
    → is_to user row ≡ true
unfolding is_named
named_is_to external_id user row e = ground (arith, e)

module _ (now : DateTime) (external_id : Text) (user : ℕ) where
  abbrev named : InboxRow → Bool
  named = is_named external_id user

  read_first-keeps :
      (rows : List InboxRow) (k : ℕ) (row : InboxRow)
      → get_elem? rows k ≡ some row
      → is_to user row ≡ false
      → get_elem? (read_first now named rows) k ≡ some row
  unfolding read_first
  read_first-keeps [] k row e h = cc
  read_first-keeps (r ∷ rows) zero row e h = elim (Bool-cases (named r)) [
    | inl a ↦
        let same : r ≡ row = cc in
        let mine : is_to user row ≡ true =
          subst (λ x. is_to user x ≡ true) same (named_is_to external_id user r a) in
        cc
    | inr a ↦ rw a e
  ]
  read_first-keeps (r ∷ rows) (suc k) row e h = elim (Bool-cases (named r)) [
    | inl a ↦ rw a e
    | inr a ↦ rw a (read_first-keeps rows k row e h)
  ]

  unread_when : (row : InboxRow) → named row ≡ true → is_unread user row ≡ is_none row.read_at
  unfolding is_unread
  unread_when row e = let mine = named_is_to external_id user row e in rw mine refl

  read_first-counts :
      (rows : List InboxRow) (row : InboxRow)
      → find named rows ≡ some row
      → unread_count (read_first now named rows) user + (if is_none row.read_at then 1 else 0)
        ≡ unread_count rows user
  unfolding read_first
  read_first-counts [] row e = cc
  read_first-counts (r ∷ rows) row e = elim (Bool-cases (named r)) [
    | inl a ↦
        let x = rw a at e in
        let same : r ≡ row = cc in
        let when = unread_when r a in
        subst
          (λ y.
            unread_count (read_first now named (r ∷ rows)) user
              + (if is_none y.read_at then 1 else 0)
            ≡ unread_count (r ∷ rows) user)
          same
          (rw a (elim (Bool-cases (is_none r.read_at)) [
            | inl b ↦
                let c = counted user (read_now now r) rows in
                let d = counted user r rows in
                let over = now_read now user r in
                let c2 = rw over at c in let d2 = rw (when, b) at d in rw b (omega (arith, c2, d2))
            | inr b ↦ rw b (omega arith)
          ]))
    | inr a ↦
        let x = rw a at e in
        let more = read_first-counts rows row x in
        let c = counted user r (read_first now named rows) in
        let d = counted user r rows in
        rw a (elim (Bool-cases (is_unread user r)) [
          | inl b ↦ let c2 = rw b at c in let d2 = rw b at d in omega (arith, more, c2, d2)
          | inr b ↦ let c2 = rw b at c in let d2 = rw b at d in omega (arith, more, c2, d2)
        ])
  ]

-- A notification that is marked as read is one of the person's own: what they have unread goes down
-- by the number that is reported, which is at most one, to the count that is reported, and every
-- row of another person stays as it was, in its place.
pub mark_read_lem :
    (now : DateTime) (external_id : Text) (user : ℕ) (rows left : List InboxRow)
    (response : MarkReadResponse)
    → mark_read now external_id user rows ≡ ok (left, response)
    → (response.unread_count ≡ unread_count left user)
      × (response.unread_count + response.marked ≡ unread_count rows user)
      × (response.marked ≤ 1)
      × ((k : ℕ) (row : InboxRow)
          → get_elem? rows k ≡ some row
          → is_to user row ≡ false
          → get_elem? left k ≡ some row)
unfolding mark_read
mark_read_lem now external_id user rows left response e =
    elim (Option-cases (find (is_named external_id user) rows)) [
      | inl a ↦ let x = rw (mark_read, a) at e in cc
      | inr (row, a) ↦
          let x = rw (mark_read, a) at e in
          let same = ok_inj x in
          let count = read_first-counts now external_id user rows row a in
          subst
            (λ t.
              (t.1.unread_count ≡ unread_count t.0 user)
              × (t.1.unread_count + t.1.marked ≡ unread_count rows user)
              × (t.1.marked ≤ 1)
              × ((k : ℕ) (r : InboxRow)
                  → get_elem? rows k ≡ some r
                  → is_to user r ≡ false
                  → get_elem? t.0 k ≡ some r))
            same
            (
              refl,
              count,
              one_at_most (is_none row.read_at),
              read_first-keeps now external_id user rows,
            )
    ]
  where
    one_at_most : (b : Bool) → (if b then 1 else 0) ≤ 1
    one_at_most true = omega arith
    one_at_most false = omega arith
