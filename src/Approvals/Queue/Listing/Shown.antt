-- ===== src/Approvals/Queue/Listing/Shown.antt =====
-- What an approver's queue shows (`approval_queue` of approvals/router.py).
use expense_reimbursement_ta.Prelude.{
  ℕ, ◌≡◌, refl, subst, true, false, Option, none, some, List, [], ◌∷◌, ◌++◌, All, All-imp, ◌⊎◌,
  All-append, Any, here, there, Bool-cases, inl, inr,
}
use expense_reimbursement_ta.Prelude.Result.{ok, ok_inj, bind_ok}
use expense_reimbursement_ta.Prelude.Text.{Text}
use expense_reimbursement_ta.Claims.Rows.{ApprovalStep, SettlementClaim}
use expense_reimbursement_ta.Approvals.Queue.{RoutedClaim, Scope, is_routed_to, my_step}
use expense_reimbursement_ta.Approvals.Queue.Listing.{
  ApprovalQueueItemResponse, addressed, approval_queue, claims_for, claims_from, entries, entry,
  in_order, item_of, row_of,
}
use expense_reimbursement_ta.Approvals.Queue.Listing.Order.{
  IsOrdered, in_order-All, in_order-Any, in_order-IsOrdered,
}
use expense_reimbursement_ta.Identity.{Employee, admin_user}
use expense_reimbursement_ta.Tables.{Tables}

-- The item shows the step of the row that the queue is about.
abbrev pub IsOf : ℕ → Scope → ApprovalQueueItemResponse → RoutedClaim → Type 0
IsOf user scope item row =
    (step : ApprovalStep) × (my_step row.claim user scope ≡ some step) × (item ≡ item_of row step)

-- The row is in the queue, if it has a step that the queue is about.
abbrev pub IsShown : RoutedClaim → Option ApprovalStep → List ApprovalQueueItemResponse → Type 0
IsShown row none items = Unit
IsShown row (some step) items = Any (λ item. item ≡ item_of row step) items

Any-append_right : {A : Type 0} {P : A → Type 0} (xs ys : List A) → Any P ys → Any P (xs ++ ys)
Any-append_right [] ys h = h
Any-append_right (x ∷ xs) ys h = there (Any-append_right xs ys h)

entry-IsOf :
    (user : ℕ) (scope : Scope) (row : RoutedClaim) (rows : List RoutedClaim)
    (found : Option ApprovalStep)
    → my_step row.claim user scope ≡ found
    → All (λ item. Any (IsOf user scope item) (row ∷ rows)) (entry row found)
unfolding entry
entry-IsOf user scope row rows none e = tt
entry-IsOf user scope row rows (some step) e = (here (step, e, refl), tt)

entries-IsOf :
    (user : ℕ) (scope : Scope) (rows : List RoutedClaim)
    → All (λ item. Any (IsOf user scope item) rows) (entries user scope rows)
unfolding entries
entries-IsOf user scope [] = tt
entries-IsOf user scope (row ∷ rows) =
    All-append (λ item. Any (IsOf user scope item) (row ∷ rows))
      (entry row (my_step row.claim user scope)) (entries user scope rows)
      (entry-IsOf user scope row rows (my_step row.claim user scope) refl)
      (All-imp (entries user scope rows) (λ item h. there h) (entries-IsOf user scope rows))

entry-IsShown :
    (row : RoutedClaim) (found : Option ApprovalStep) (rest : List ApprovalQueueItemResponse)
    → IsShown row found (entry row found ++ rest)
unfolding entry
entry-IsShown row none rest = tt
entry-IsShown row (some step) rest = here refl

behind-IsShown :
    (row : RoutedClaim) (found : Option ApprovalStep) (xs ys : List ApprovalQueueItemResponse)
    → IsShown row found ys
    → IsShown row found (xs ++ ys)
behind-IsShown row none xs ys h = tt
behind-IsShown row (some step) xs ys h = Any-append_right xs ys h

in_order-IsShown :
    (row : RoutedClaim) (found : Option ApprovalStep) (xs : List ApprovalQueueItemResponse)
    → IsShown row found xs
    → IsShown row found (in_order xs)
in_order-IsShown row none xs h = tt
in_order-IsShown row (some step) xs h = in_order-Any (λ item. item ≡ item_of row step) xs h

entries-IsShown :
    (user : ℕ) (scope : Scope) (rows : List RoutedClaim)
    → All (λ row. IsShown row (my_step row.claim user scope) (entries user scope rows)) rows
unfolding entries
entries-IsShown user scope [] = tt
entries-IsShown user scope (row ∷ rows) =
    let found = my_step row.claim user scope in
    (
      entry-IsShown row found (entries user scope rows),
      All-imp rows
          (λ r h.
            behind-IsShown r (my_step r.claim user scope) (entry row found)
              (entries user scope rows) h)
          (entries-IsShown user scope rows),
    )

-- A claim with a step addressed to the person, joined with its trip and claimant.
abbrev pub IsTheirs : Tables → ℕ → RoutedClaim → SettlementClaim → Type 0
IsTheirs tables user row claim =
    (row_of tables claim ≡ some row) × (is_routed_to user row.claim ≡ true)

addressed-IsTheirs :
    (tables : Tables) (user : ℕ) (claim : SettlementClaim) (rest : List SettlementClaim)
    (found : Option RoutedClaim)
    → row_of tables claim ≡ found
    → All (λ row. Any (IsTheirs tables user row) (claim ∷ rest)) (addressed user found)
unfolding addressed
addressed-IsTheirs tables user claim rest none e = tt
addressed-IsTheirs tables user claim rest (some row) e =
    elim (Bool-cases (is_routed_to user row.claim)) [
      | inl a ↦ rw a (here (e, a), tt)
      | inr a ↦ rw a tt
    ]

claims_from-IsTheirs :
    (tables : Tables) (user : ℕ) (claims : List SettlementClaim)
    → All (λ row. Any (IsTheirs tables user row) claims) (claims_from tables user claims)
unfolding claims_from
claims_from-IsTheirs tables user [] = tt
claims_from-IsTheirs tables user (claim ∷ rest) =
    All-append (λ row. Any (IsTheirs tables user row) (claim ∷ rest))
      (addressed user (row_of tables claim)) (claims_from tables user rest)
      (addressed-IsTheirs tables user claim rest (row_of tables claim) refl)
      (All-imp (claims_from tables user rest) (λ row h. there h)
        (claims_from-IsTheirs tables user rest))

-- The row of a claim is among the rows, unless it has no step addressed to the person.
abbrev pub IsAmong : ℕ → List RoutedClaim → Option RoutedClaim → Type 0
IsAmong user rows none = Unit
IsAmong user rows (some row) = (is_routed_to user row.claim ≡ false) ⊎ Any (λ r. r ≡ row) rows

addressed-IsAmong :
    (user : ℕ) (found : Option RoutedClaim) (rest : List RoutedClaim)
    → IsAmong user (addressed user found ++ rest) found
unfolding addressed
addressed-IsAmong user none rest = tt
addressed-IsAmong user (some row) rest = elim (Bool-cases (is_routed_to user row.claim)) [
  | inl a ↦ rw a (inr (here refl))
  | inr a ↦ inl a
]

behind-IsAmong :
    (user : ℕ) (front back : List RoutedClaim) (found : Option RoutedClaim)
    → IsAmong user back found
    → IsAmong user (front ++ back) found
behind-IsAmong user front back none h = tt
behind-IsAmong user front back (some row) (inl a) = inl a
behind-IsAmong user front back (some row) (inr h) = inr (Any-append_right front back h)

claims_from-IsAmong :
    (tables : Tables) (user : ℕ) (claims : List SettlementClaim)
    → All (λ claim. IsAmong user (claims_from tables user claims) (row_of tables claim)) claims
unfolding claims_from
claims_from-IsAmong tables user [] = tt
claims_from-IsAmong tables user (claim ∷ rest) =
    let front = addressed user (row_of tables claim) in
    (
      addressed-IsAmong user (row_of tables claim) (claims_from tables user rest),
      All-imp rest
          (λ c h. behind-IsAmong user front (claims_from tables user rest) (row_of tables c) h)
          (claims_from-IsAmong tables user rest),
    )

-- The queue is for an approver. It is in the order of submission, claims without a time last. Each
-- item shows a claim that has a step addressed to the approver, and the step of it that the queue is
-- about: the front of its round in the pending queue, their latest decision in the other. And every
-- claim with a step addressed to them that has such a step is shown.
pub approval_queue_lem :
    (tables : Tables) (x_emp_code : Option Text) (scope : Scope)
    (items : List ApprovalQueueItemResponse)
    → approval_queue tables x_emp_code scope ≡ ok items
    → (user : Employee) × (admin_user tables.employees x_emp_code ≡ ok user)
      × IsOrdered items
      × All (λ item. Any (IsOf user.id scope item) (claims_for tables user)) items
      × All (λ row. Any (IsTheirs tables user.id row) tables.claims) (claims_for tables user)
      × All (λ claim. IsAmong user.id (claims_for tables user) (row_of tables claim)) tables.claims
      × All (λ row. IsShown row (my_step row.claim user.id scope) items) (claims_for tables user)
unfolding approval_queue claims_for
approval_queue_lem tables x_emp_code scope items e =
    let (user, signed_in, e1) = bind_ok (admin_user tables.employees x_emp_code) _ items e in
    let rows = claims_for tables user in
    let all = entries user.id scope rows in
    let same : in_order all ≡ items = ok_inj e1 in
    (
      user,
      signed_in,
      subst IsOrdered same (in_order-IsOrdered all),
      subst (All (λ item. Any (IsOf user.id scope item) rows)) same (
          in_order-All (λ item. Any (IsOf user.id scope item) rows) all
            (entries-IsOf user.id scope rows)),
      claims_from-IsTheirs tables user.id tables.claims,
      claims_from-IsAmong tables user.id tables.claims,
      subst (λ shown. All (λ row. IsShown row (my_step row.claim user.id scope) shown) rows) same
          (All-imp rows (λ row h. in_order-IsShown row (my_step row.claim user.id scope) all h)
            (entries-IsShown user.id scope rows)),
    )
