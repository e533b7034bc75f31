-- ===== src/Claims/Trips/Apply/Numbers.antt =====
-- The numbers that trips get (`_next_trq_id` and `create_trip` of claims/router.py).
use expense_reimbursement_ta.Prelude.{
  ℕ, ◌+◌, ◌≤◌, ◌≡◌, refl, subst, true, false, List, [], ◌∷◌, ◌++◌, arith, length, Bool-cases, inl,
  inr,
}
use expense_reimbursement_ta.Prelude.Decimals.{
  is_number, is_number-padded, padded, value, value-padded,
}
use expense_reimbursement_ta.Prelude.Result.{ok}
use expense_reimbursement_ta.Prelude.Text.{Text, drop, is_member, starts_with, text_eq, text_eq→eq}
use expense_reimbursement_ta.Models.{Date}
use expense_reimbursement_ta.Claims.Trips.{TripSummaryResponse}
use expense_reimbursement_ta.Claims.Trips.Apply.{
  CreateTripRequest, Race, RowState, TripCreated, claim_number, create_trip, created, greatest,
  new_trip, next_trq_id, prefix_of, taken_numbers,
}
use expense_reimbursement_ta.Identity.{Employee}
use expense_reimbursement_ta.Tables.{TravelRequest}

starts_with-append : (p s : Text) → starts_with (p ++ s) p ≡ true
unfolding starts_with
starts_with-append [] [] = refl
starts_with-append [] (c ∷ s) = refl
starts_with-append (c ∷ p) s = ground (arith, starts_with-append p s)

drop-append : (p s : Text) → drop (length p) (p ++ s) ≡ s
drop-append [] s = refl
drop-append (c ∷ p) s = drop-append p s

greatest_head : (n : ℕ) (rest : List ℕ) → n ≤ greatest (n ∷ rest)
greatest_head n rest = ground arith

greatest_tail : (n : ℕ) (rest : List ℕ) → greatest rest ≤ greatest (n ∷ rest)
greatest_tail n rest = ground arith

-- One more identifier does not lower the greatest number.
greatest-taken_numbers :
    (prefix t : Text) (ids : List Text)
    → greatest (taken_numbers prefix ids) ≤ greatest (taken_numbers prefix (t ∷ ids))
unfolding taken_numbers
greatest-taken_numbers prefix t ids = elim (Bool-cases (starts_with t prefix)) [
  | inr a ↦ rw a (omega arith)
  | inl a ↦ elim (Bool-cases (is_number (drop (length prefix) t))) [
    | inr b ↦ rw (a, b) (omega arith)
    | inl b ↦ rw (a, b) (greatest_tail (value (drop (length prefix) t)) (taken_numbers prefix ids))
  ]
]

taken_first :
    (prefix : Text) (n : ℕ) (ids : List Text)
    → n ≤ greatest (taken_numbers prefix ((prefix ++ padded n) ∷ ids))
unfolding taken_numbers
taken_first prefix n ids =
    let begins = starts_with-append prefix (padded n) in
    let goes_on = drop-append prefix (padded n) in
    let low = greatest_head n (taken_numbers prefix ids) in
    rw (begins, goes_on, is_number-padded n, value-padded n) low

-- The number of an identifier in the list is not above the greatest.
taken_member :
    (prefix : Text) (n : ℕ) (ids : List Text)
    → is_member (prefix ++ padded n) ids ≡ true
    → n ≤ greatest (taken_numbers prefix ids)
unfolding is_member
taken_member prefix n [] e = cc
taken_member prefix n (t ∷ ids) e = elim (Bool-cases (text_eq (prefix ++ padded n) t)) [
  | inl a ↦
      let same = text_eq→eq (prefix ++ padded n) t a in
      subst (λ u. n ≤ greatest (taken_numbers prefix (u ∷ ids))) same (taken_first prefix n ids)
  | inr a ↦
      let x = rw a at e in
      let low = taken_member prefix n ids x in
      let more = greatest-taken_numbers prefix t ids in omega (arith, low, more)
]

-- The next identifier is none of those that are taken.
pub next_trq_id-fresh : (ids : List Text) (year : ℕ) → is_member (next_trq_id ids year) ids ≡ false
unfolding next_trq_id
next_trq_id-fresh ids year =
    let top = greatest (taken_numbers (prefix_of year) ids) in
    elim (Bool-cases (is_member (prefix_of year ++ padded (top + 1)) ids)) [
      | inl a ↦
          let low = taken_member (prefix_of year) (top + 1) ids a in absurd (omega (arith, low))
      | inr a ↦ a
    ]

-- An application that nobody else writes into, between its read and its flush, creates the trip. It
-- belongs to the caller and has an identifier that no trip of the table had, which the event and the
-- response name.
pub create_trip_fresh :
    (rollback : RowState → RowState) (payload : CreateTripRequest) (user : Employee) (id : ℕ)
    (today : Date) (races : ℕ → Race)
    → (races 0).reads ≡ (races 0).holds
    → (request : TravelRequest) × (event : TripCreated) × (response : TripSummaryResponse)
      × (create_trip rollback payload user id today races ≡ ok (request, event, response))
      × (is_member request.trq_id (races 0).holds ≡ false)
      × (request.employee_id ≡ user.id)
      × (event.trq_id ≡ request.trq_id)
      × (response.trq_id ≡ request.trq_id)
unfolding created new_trip claim_number create_trip
create_trip_fresh rollback payload user id today races quiet =
    let trq_id = next_trq_id (races 0).reads payload.year in
    let free : is_member trq_id (races 0).holds ≡ false =
      subst (λ ids. is_member trq_id ids ≡ false) quiet
        (next_trq_id-fresh (races 0).reads payload.year) in
    let (request, event, response) = created payload user id today trq_id in
    (request, event, response, rw (create_trip, claim_number, free) refl, free, refl, refl, refl)
