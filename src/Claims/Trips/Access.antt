-- ===== src/Claims/Trips/Access.antt =====
-- Who sees a trip, and who may change it (claims/router.py).
use expense_reimbursement_ta.Prelude.{
  ◌≡◌, refl, sym, ap, subst, true, ◌⊎◌, inl, inr, ◌↔◌, Option, none, some, List, [], ◌∷◌, filter,
  All, All-reverse, ◌==◌, ==_iff, Bool, Bool-cases, arith, ◌&&◌,
}
use expense_reimbursement_ta.Prelude.Sort.{sorted, sorted-All}
use expense_reimbursement_ta.Prelude.Result.{ok, err, ok_inj, err_inj, bind_ok}
use expense_reimbursement_ta.Prelude.Text.{Text}
use expense_reimbursement_ta.Models.{ClaimStatus, claim_draft}
use expense_reimbursement_ta.Claims.Rows.{SettlementClaim}
use expense_reimbursement_ta.Claims.Trips.{
  is_listed, require_claimant, require_draft, require_own_draft, require_visible_trip,
  trip_routed_to, visible_or_404, visible_trips,
}
use expense_reimbursement_ta.Http.{HttpError, http_error, no_such_trip}
use expense_reimbursement_ta.Identity.{Employee, is_admin, profile_for}
use expense_reimbursement_ta.Tables.{Tables, TravelRequest, load_claim, trip_of}

-- The trip is the person's own, or they are an approver that a claim for it was routed to.
abbrev pub IsParty : Tables → Employee → TravelRequest → Type 0
IsParty tables user request =
    (request.employee_id ≡ user.id)
    ⊎ ((is_admin (profile_for user.role) ≡ true)
        × (trip_routed_to tables request.id user.id ≡ true))

and_parts : (a b : Bool) → a && b ≡ true → (a ≡ true) × (b ≡ true)
and_parts a b e = ground (arith, e)

module _ (tables : Tables) (user : Employee) where
  seen-IsParty :
      (found : Option TravelRequest) (request : TravelRequest)
      → visible_or_404 tables user found ≡ ok request
      → (found ≡ some request) × IsParty tables user request
  unfolding visible_or_404
  seen-IsParty none request e = cc
  seen-IsParty (some r) request e = elim (Bool-cases (r.employee_id == user.id)) [
    | inl a ↦
        let x = rw a at e in
        let same : r ≡ request = ok_inj x in
        (ap some same, subst (IsParty tables user) same (inl ((==_iff r.employee_id user.id).0 a)))
    | inr a ↦
        elim (Bool-cases (is_admin (profile_for user.role) && trip_routed_to tables r.id user.id)) [
          | inl b ↦
              let x = rw (a, b) at e in
              let same : r ≡ request = ok_inj x in
              (ap some same, subst (IsParty tables user) same (inr (and_parts _ _ b)))
          | inr b ↦ let x = rw (a, b) at e in cc
        ]
  ]

  IsParty-seen :
      (request : TravelRequest)
      → IsParty tables user request
      → visible_or_404 tables user (some request) ≡ ok request
  unfolding visible_or_404
  IsParty-seen request (inl own) =
      let a : (request.employee_id == user.id) ≡ true = ground (arith, own) in rw a refl
  IsParty-seen request (inr (approver, routed)) =
      elim (Bool-cases (request.employee_id == user.id)) [
        | inl a ↦ rw a refl
        | inr a ↦ rw (a, approver, routed) refl
      ]

  hidden :
      (found : Option TravelRequest) (e : HttpError)
      → visible_or_404 tables user found ≡ err e
      → e ≡ http_error 404 no_such_trip
  unfolding visible_or_404
  hidden none e h = sym (err_inj h)
  hidden (some r) e h = elim (Bool-cases (r.employee_id == user.id)) [
    | inl a ↦ let x = rw a at h in cc
    | inr a ↦
        elim (Bool-cases (is_admin (profile_for user.role) && trip_routed_to tables r.id user.id)) [
          | inl b ↦ let x = rw (a, b) at h in cc
          | inr b ↦ let x = rw (a, b) at h in sym (err_inj x)
        ]
  ]

  -- A trip is opened exactly for those that are party to it: its claimant, and an approver that a
  -- claim for it was routed to. Everyone else gets one and the same answer, that there is no such
  -- trip, whether there is one or not.
  pub require_visible_trip_lem :
      (trq_id : Text)
      → ((request : TravelRequest)
          → (require_visible_trip tables trq_id user ≡ ok request)
            ↔ ((trip_of tables trq_id ≡ some request) × IsParty tables user request))
        × ((e : HttpError)
            → require_visible_trip tables trq_id user ≡ err e
            → e ≡ http_error 404 no_such_trip)
  unfolding require_visible_trip
  require_visible_trip_lem trq_id = (
    λ request.
        (seen-IsParty (trip_of tables trq_id) request, λ h. rw h.0 (IsParty-seen request h.1)),
    hidden (trip_of tables trq_id),
  )

  free_draft :
      (stored : Option SettlementClaim) (u : Unit {0})
      → require_draft stored ≡ ok u
      → (claim : SettlementClaim) → stored ≡ some claim
      → claim.status ≡ ClaimStatus.draft
  unfolding require_draft
  free_draft none u e claim h = cc
  free_draft (some c) u e claim h = elim (Bool-cases (claim_draft c.status)) [
    | inl a ↦
        let same : c ≡ claim = cc in
        subst (λ d. d.status ≡ ClaimStatus.draft) same (draft_status c.status a)
    | inr a ↦ let x = rw a at e in cc
  ]
    where
      draft_status : (s : ClaimStatus) → claim_draft s ≡ true → s ≡ ClaimStatus.draft
      draft_status s h = ground (arith, h)

  -- Whoever may change a trip is its claimant, and the stored claim of the trip, if there is one, is
  -- a draft.
  pub require_own_draft_sound :
      (trq_id : Text) (request : TravelRequest)
      → require_own_draft tables trq_id user ≡ ok request
      → (trip_of tables trq_id ≡ some request)
        × (request.employee_id ≡ user.id)
        × ((claim : SettlementClaim)
            → load_claim tables request.id ≡ some claim
            → claim.status ≡ ClaimStatus.draft)
  unfolding require_own_draft require_claimant
  require_own_draft_sound trq_id request e =
      let (r, seen, e1) = bind_ok (require_visible_trip tables trq_id user) _ request e in
      let (_, own, e2) = bind_ok (require_claimant r user) _ request e1 in
      let (u, free, e3) = bind_ok (require_draft (load_claim tables r.id)) _ request e2 in
      let same : r ≡ request = ok_inj e3 in
      let (found, _) = ((require_visible_trip_lem trq_id).0 r).0 seen in
      subst
        (λ t.
          (trip_of tables trq_id ≡ some t)
          × (t.employee_id ≡ user.id)
          × ((claim : SettlementClaim)
              → load_claim tables t.id ≡ some claim
              → claim.status ≡ ClaimStatus.draft))
        same (found, claimant r own, free_draft (load_claim tables r.id) u free)
    where
      claimant :
          (r : TravelRequest) {u : Unit {0}}
          → require_claimant r user ≡ ok u
          → r.employee_id ≡ user.id
      claimant r h = elim (Bool-cases (r.employee_id == user.id)) [
        | inl a ↦ (==_iff r.employee_id user.id).0 a
        | inr a ↦ let x = rw (require_claimant, a) at h in cc
      ]

  All-filter :
      (P : TravelRequest → Type 0) (p : TravelRequest → Bool) (xs : List TravelRequest)
      → ((x : TravelRequest) → p x ≡ true → P x)
      → All P (filter p xs)
  All-filter P p [] f = tt
  All-filter P p (x ∷ xs) f = elim (Bool-cases (p x)) [
    | inl a ↦ rw a (f x a, All-filter P p xs f)
    | inr a ↦ rw a (All-filter P p xs f)
  ]

  listed-IsParty :
      (request : TravelRequest) → is_listed tables user request ≡ true → IsParty tables user request
  unfolding is_listed
  listed-IsParty request e = elim (Bool-cases (is_admin (profile_for user.role))) [
    | inl a ↦ let x = rw a at e in inr (a, x)
    | inr a ↦ let x = rw a at e in inl ((==_iff request.employee_id user.id).0 x)
  ]

  -- Everyone is party to each trip that they are listed.
  pub visible_trips-IsParty : All (IsParty tables user) (visible_trips tables user)
  unfolding visible_trips
  visible_trips-IsParty =
      All-reverse (IsParty tables user)
        (sorted (λ t. t.from_date) (filter (is_listed tables user) tables.trips))
        (sorted-All (λ t. t.from_date) (IsParty tables user)
          (filter (is_listed tables user) tables.trips)
          (All-filter (IsParty tables user) (is_listed tables user) tables.trips listed-IsParty))
