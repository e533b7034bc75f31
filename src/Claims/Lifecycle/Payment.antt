-- ===== src/Claims/Lifecycle/Payment.antt =====
-- The payment run of a verified claim (`next_payment_run` of claims/lifecycle.py).
use expense_reimbursement_ta.Prelude.{
  ℕ, if◌then◌else◌, leb, ◌==◌, ◌+◌, ◌*◌, ◌≤◌, ◌<◌, ◌≡◌, ◌⊎◌, refl, none, some, arith, Bool-cases,
  inl, inr,
}
use expense_reimbursement_ta.Claims.Lifecycle.{CivilDate, month_length, next_payment_run}

pub record IsDate (d : CivilDate) : Type 0 where
  pub month_low : 1 ≤ d.month
  pub month_high : d.month ≤ 12
  pub day_low : 1 ≤ d.day
  pub day_high : d.day ≤ month_length d.year d.month

-- A number that orders dates by the calendar.
abbrev pub stamp : CivilDate → ℕ
stamp d = (d.year * 12 + d.month) * 32 + d.day

abbrev pub IsRunDay : CivilDate → Type 0
IsRunDay d = (d.day ≡ 10) ⊎ (d.day ≡ 25)

month_length-bounds : (y m : ℕ) → (28 ≤ month_length y m) × (month_length y m ≤ 31)
unfolding month_length
month_length-bounds y m = ground arith

IsDate-early :
    (y m d : ℕ) → 1 ≤ m → m ≤ 12 → 1 ≤ d → d ≤ 28 → IsDate (record { year = y; month = m; day = d })
IsDate-early y m d ml mh dl dh =
    let (lo, hi) = month_length-bounds y m in
    record { month_low = ml; month_high = mh; day_low = dl; day_high = omega arith }

abbrev run_date : CivilDate → CivilDate
run_date after =
    if leb after.day 10
    then record { year = after.year; month = after.month; day = 10 }
    else if leb after.day 25
    then record { year = after.year; month = after.month; day = 25 }
    else if after.month == 12
    then record { year = after.year + 1; month = 1; day = 10 }
    else record { year = after.year; month = after.month + 1; day = 10 }

next_payment_run-eq :
    (after : CivilDate) → IsDate after → next_payment_run after none ≡ some (run_date after)
unfolding next_payment_run
next_payment_run-eq after v = ground arith

-- What the payment run of a date is.
record IsEarliest (after r : CivilDate) : Type 0 where
  pub is_date : IsDate r
  pub runs : IsRunDay r
  pub not_before : stamp after ≤ stamp r
  pub earliest : (d : CivilDate) → IsDate d → IsRunDay d → stamp after ≤ stamp d → stamp r ≤ stamp d

at_most_31 : (d : CivilDate) → IsDate d → d.day ≤ 31
at_most_31 d v = let bounds = month_length-bounds d.year d.month in omega arith

module _ (after : CivilDate) (v : IsDate after) where
  this_month :
      (k : ℕ)
      → (k ≡ 10) ⊎ (k ≡ 25) × (10 < after.day)
      → after.day ≤ k
      → IsEarliest after (record { year = after.year; month = after.month; day = k })
  this_month k runs left = record {
    is_date =
        IsDate-early after.year after.month k v.month_low v.month_high (omega arith) (omega arith);
    runs = ground arith;
    not_before = omega arith;
    earliest = λ d w r later. let b = at_most_31 d w in let c = v.day_low in ground arith;
  }

  next_month :
      (y m : ℕ)
      → 25 < after.day
      → 1 ≤ m
      → m ≤ 12
      → y * 12 + m ≡ after.year * 12 + after.month + 1
      → IsEarliest after (record { year = y; month = m; day = 10 })
  next_month y m past low high next = record {
    is_date = IsDate-early y m 10 low high (omega arith) (omega arith);
    runs = inl refl;
    not_before = let b = at_most_31 after v in omega arith;
    earliest = λ d w r later. ground arith;
  }

  run_date-IsEarliest : IsEarliest after (run_date after)
  run_date-IsEarliest = elim (Bool-cases (leb after.day 10)) [
    | inl a ↦ rw a (this_month 10 (inl refl) (ground arith))
    | inr a ↦ elim (Bool-cases (leb after.day 25)) [
      | inl b ↦ rw (a, b) (this_month 25 (inr (refl, ground arith)) (ground arith))
      | inr b ↦ elim (Bool-cases (after.month == 12)) [
        | inl c ↦
            rw (a, b, c)
              (next_month (after.year + 1) 1 (ground arith) (omega arith) (omega arith)
                (ground arith))
        | inr c ↦
            rw (a, b, c)
              (next_month after.year (after.month + 1) (ground arith) (omega arith) (ground arith)
                (omega arith))
      ]
    ]
  ]

-- By default a claim goes out on the first 10th or 25th that is not before the given day.
pub next_payment_run_earliest :
    (after : CivilDate)
    → IsDate after
    → (r : CivilDate) × (next_payment_run after none ≡ some r)
      × IsDate r
      × IsRunDay r
      × (stamp after ≤ stamp r)
      × ((d : CivilDate) → IsDate d → IsRunDay d → stamp after ≤ stamp d → stamp r ≤ stamp d)
next_payment_run_earliest after v =
    let e = run_date-IsEarliest after v in
    (run_date after, next_payment_run-eq after v, e.is_date, e.runs, e.not_before, e.earliest)
