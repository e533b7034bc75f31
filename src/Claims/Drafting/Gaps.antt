-- ===== src/Claims/Drafting/Gaps.antt =====
-- The nights that `find_coverage_gaps` of claims/drafting.py reports.
use expense_reimbursement_ta.Prelude.{
  ℕ, zero, suc, ◌+◌, ◌-◌, ◌≤◌, ◌<◌, ◌≡◌, ◌⊎◌, ◌↔◌, refl, Bool, true, false, not, List, [], ◌∷◌,
  filter, any, arith, Bool-cases, inl, inr,
}
use expense_reimbursement_ta.Models.{Date}
use expense_reimbursement_ta.Claims.Drafting.{covers, dates_from, find_coverage_gaps}

-- A stay covers the night of the day.
abbrev pub IsCovered : Date → List (Date × ℕ) → Type 0
IsCovered day [] = ⊥
IsCovered day ((check_in, nights) ∷ stays) =
    (check_in ≤ day) × (day < check_in + nights) ⊎ IsCovered day stays

-- The day is one of the list's.
abbrev pub IsAmong : Date → List Date → Type 0
IsAmong day [] = ⊥
IsAmong day (d ∷ days) = (d ≡ day) ⊎ IsAmong day days

covers_iff :
    (day : Date) (stays : List (Date × ℕ)) → (any (covers day) stays ≡ true) ↔ IsCovered day stays
unfolding covers
covers_iff day [] = ((λ h. let x = h in cc), λ h. absurd h)
covers_iff day ((first, nights) ∷ rest) =
    let (to, from) = covers_iff day rest in
    (
      (λ h. elim (Bool-cases (covers day (first, nights))) [
        | inl a ↦ inl (ground arith, ground arith)
        | inr a ↦ inr (to (rw a at h))
      ]),
      λ h. elim h [
        | inl (low, high) ↦ ground arith
        | inr later ↦ let x = from later in ground arith
      ],
    )

IsAmong-iff :
    (keep : Date → Bool) (n : ℕ) (first day : Date)
    → IsAmong day (filter keep (dates_from first n))
      ↔ ((first ≤ day) × (day < first + n) × (keep day ≡ true))
unfolding dates_from
IsAmong-iff keep zero first day = ((λ h. absurd h), λ h. absurd (omega (arith, h.0, h.1)))
IsAmong-iff keep (suc n) first day =
    let (to, from) = IsAmong-iff keep n (suc first) day in
    elim (Bool-cases (keep first)) [
      | inl a ↦ rw a (
        (λ h. elim h [
          | inl same ↦ (omega arith, omega arith, rw same at a)
          | inr later ↦ let (low, high, kept) = to later in (omega arith, omega arith, kept)
        ]),
        λ h. elim (le_cases first day h.0) [
          | inl same ↦ inl same
          | inr less ↦ inr (from (less, omega (arith, h.1), h.2))
        ],
      )
      | inr a ↦ rw a (
        (λ later. let (low, high, kept) = to later in (omega arith, omega arith, kept)),
        λ h. elim (le_cases first day h.0) [
          | inl same ↦ let x = rw same at a in let y = h.2 in cc
          | inr less ↦ from (less, omega (arith, h.1), h.2)
        ],
      )
    ]
  where
    le_cases : (a b : ℕ) → a ≤ b → (a ≡ b) ⊎ (suc a ≤ b)
    le_cases a b h = omega arith

-- The gaps are exactly the nights from the trip's first day up to, but not including, its last
-- that no stay covers.
pub find_coverage_gaps_sound :
    (trip_from trip_to : Date) (stays : List (Date × ℕ)) (day : Date)
    → IsAmong day (find_coverage_gaps trip_from trip_to stays)
      ↔ ((trip_from ≤ day) × (day < trip_to) × (IsCovered day stays → ⊥))
unfolding find_coverage_gaps
find_coverage_gaps_sound trip_from trip_to stays day =
    let keep : Date → Bool = λ d. not (any (covers d) stays) in
    let (to, from) = IsAmong-iff keep (trip_to - trip_from) trip_from day in
    let (reads, shows) = covers_iff day stays in
    (
      (λ h.
          let (low, high, kept) = to h in
          (low, omega arith, λ covered. let x = shows covered in let y = rw x at kept in cc)),
      λ h.
          let off : any (covers day) stays ≡ false = elim (Bool-cases (any (covers day) stays)) [
            | inl a ↦ absurd (h.2 (reads a))
            | inr a ↦ a
          ] in
          from (h.0, omega (arith, h.0, h.1), rw off refl),
    )
