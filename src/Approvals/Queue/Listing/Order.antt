-- ===== src/Approvals/Queue/Listing/Order.antt =====
-- The order of an approver's queue (`approval_queue` of approvals/router.py).
use expense_reimbursement_ta.Prelude.{
  ◌≡◌, refl, true, false, Option, none, some, List, [], ◌∷◌, All, All-imp, Any, here, there, arith,
  Bool-cases, inl, inr,
}
use expense_reimbursement_ta.Models.{DateTime}
use expense_reimbursement_ta.Approvals.Queue.Listing.{
  ApprovalQueueItemResponse, in_order, not_after, place,
}

not_after_total : (a b : Option DateTime) → not_after a b ≡ false → not_after b a ≡ true
not_after_total a none e = cc
not_after_total none (some b) e = refl
not_after_total (some a) (some b) e = ground (arith, e)

not_after_trans :
    (a b c : Option DateTime) → not_after a b ≡ true → not_after b c ≡ true → not_after a c ≡ true
not_after_trans a b none e f = refl
not_after_trans none none (some c) e f = f
not_after_trans none (some b) (some c) e f = e
not_after_trans (some a) none (some c) e f = cc
not_after_trans (some a) (some b) (some c) e f = ground (arith, e, f)

abbrev Precedes : ApprovalQueueItemResponse → ApprovalQueueItemResponse → Type 0
Precedes x y = not_after x.submitted_at y.submitted_at ≡ true

-- Each item was submitted no later than those behind it, and what has no time comes last.
abbrev pub IsOrdered : List ApprovalQueueItemResponse → Type 0
IsOrdered [] = Unit
IsOrdered (x ∷ xs) = All (λ y. not_after x.submitted_at y.submitted_at ≡ true) xs × IsOrdered xs

module _ (P : ApprovalQueueItemResponse → Type 0) where
  place-All : (x : _) (ys : List ApprovalQueueItemResponse) → P x → All P ys → All P (place x ys)
  unfolding place
  place-All x [] h k = (h, tt)
  place-All x (y ∷ ys) h k = elim (Bool-cases (not_after x.submitted_at y.submitted_at)) [
    | inl e ↦ rw e (h, k)
    | inr e ↦ rw e (k.0, place-All x ys h k.1)
  ]

  pub in_order-All : (xs : List ApprovalQueueItemResponse) → All P xs → All P (in_order xs)
  unfolding in_order
  in_order-All [] h = tt
  in_order-All (x ∷ xs) h = place-All x (in_order xs) h.0 (in_order-All xs h.1)

  place-Any_here : (x : _) (ys : List ApprovalQueueItemResponse) → P x → Any P (place x ys)
  unfolding place
  place-Any_here x [] h = here h
  place-Any_here x (y ∷ ys) h = elim (Bool-cases (not_after x.submitted_at y.submitted_at)) [
    | inl e ↦ rw e (here h)
    | inr e ↦ rw e (there (place-Any_here x ys h))
  ]

  place-Any_there : (x : _) (ys : List ApprovalQueueItemResponse) → Any P ys → Any P (place x ys)
  unfolding place
  place-Any_there x [] h = elim h [ ]
  place-Any_there x (y ∷ ys) (here h) =
      elim (Bool-cases (not_after x.submitted_at y.submitted_at)) [
        | inl e ↦ rw e (there (here h))
        | inr e ↦ rw e (here h)
      ]
  place-Any_there x (y ∷ ys) (there h) =
      elim (Bool-cases (not_after x.submitted_at y.submitted_at)) [
        | inl e ↦ rw e (there (there h))
        | inr e ↦ rw e (there (place-Any_there x ys h))
      ]

  pub in_order-Any : (xs : List ApprovalQueueItemResponse) → Any P xs → Any P (in_order xs)
  unfolding in_order
  in_order-Any [] h = elim h [ ]
  in_order-Any (x ∷ xs) (here h) = place-Any_here x (in_order xs) h
  in_order-Any (x ∷ xs) (there h) = place-Any_there x (in_order xs) (in_order-Any xs h)

place-IsOrdered :
    (x : ApprovalQueueItemResponse) (ys : List ApprovalQueueItemResponse)
    → IsOrdered ys
    → IsOrdered (place x ys)
unfolding place
place-IsOrdered x [] h = (tt, tt)
place-IsOrdered x (y ∷ ys) h = elim (Bool-cases (not_after x.submitted_at y.submitted_at)) [
  | inl e ↦ rw e (
    (e, All-imp ys (λ z f. not_after_trans x.submitted_at y.submitted_at z.submitted_at e f) h.0),
    h,
  )
  | inr e ↦ rw e (
    place-All (Precedes y) x ys (not_after_total x.submitted_at y.submitted_at e) h.0,
    place-IsOrdered x ys h.1,
  )
]

pub in_order-IsOrdered : (xs : List ApprovalQueueItemResponse) → IsOrdered (in_order xs)
unfolding in_order
in_order-IsOrdered [] = tt
in_order-IsOrdered (x ∷ xs) = place-IsOrdered x (in_order xs) (in_order-IsOrdered xs)
