-- ===== src/Policy/Engine/Slots.antt =====
-- The slots that the loop of `evaluate_lines` fills, one for each line (policy/engine.py).
use expense_reimbursement_ta.Prelude.{
  ℕ, zero, suc, ◌≤◌, ◌≡◌, refl, ap, Bool, false, ◌&&◌, Option, none, some, List, [], ◌∷◌, map,
  arith, ◌==◌, if◌then◌else◌, length, get_elem?, All, set, replicate,
}
use expense_reimbursement_ta.Prelude.Int.{ℤ, pos, ◌+ℤ◌, sum, int_laws}
use expense_reimbursement_ta.Models.{Date, is_meals}
use expense_reimbursement_ta.Policy.Decision.{LineUnderReview}
use expense_reimbursement_ta.Policy.Engine.{LineOutcome, Slots, filled}

-- Every slot that is filled holds the outcome of the line in its place.
abbrev pub Agree : List LineUnderReview → Slots → Type 0
Agree [] [] = Unit
Agree [] (s ∷ ss) = ⊥
Agree (l ∷ ls) [] = ⊥
Agree (l ∷ ls) (none ∷ ss) = Agree ls ss
Agree (l ∷ ls) (some o ∷ ss) = (o.line ≡ l) × Agree ls ss

pub Agree-replicate : (ls : List LineUnderReview) → Agree ls (replicate (length ls) none)
Agree-replicate [] = tt
Agree-replicate (l ∷ ls) = Agree-replicate ls

pub Agree-set :
    (ls : List LineUnderReview) (ss : Slots) (i : ℕ) (l : LineUnderReview) (o : LineOutcome)
    → get_elem? ls i ≡ some l
    → o.line ≡ l
    → Agree ls ss
    → Agree ls (set ss i (some o))
Agree-set [] ss i l o at e h = cc
Agree-set (m ∷ ls) [] i l o at e h = h
Agree-set (m ∷ ls) (none ∷ ss) zero l o at e h = (cc, h)
Agree-set (m ∷ ls) (some p ∷ ss) zero l o at e h = (cc, h.1)
Agree-set (m ∷ ls) (none ∷ ss) (suc i) l o at e h = Agree-set ls ss i l o at e h
Agree-set (m ∷ ls) (some p ∷ ss) (suc i) l o at e h = (h.0, Agree-set ls ss i l o at e h.1)

abbrev pub filled_count : Slots → ℕ
filled_count [] = 0
filled_count (none ∷ ss) = filled_count ss
filled_count (some o ∷ ss) = suc (filled_count ss)

pub filled_count-replicate : (n : ℕ) → filled_count (replicate n none) ≡ 0
filled_count-replicate zero = refl
filled_count-replicate (suc n) = filled_count-replicate n

pub filled_count-set :
    (ss : Slots) (i : ℕ) (o : LineOutcome)
    → get_elem? ss i ≡ some none
    → filled_count (set ss i (some o)) ≡ suc (filled_count ss)
filled_count-set [] i o h = cc
filled_count-set (none ∷ ss) zero o h = refl
filled_count-set (some p ∷ ss) zero o h = ground arith
filled_count-set (none ∷ ss) (suc i) o h = filled_count-set ss i o h
filled_count-set (some p ∷ ss) (suc i) o h = ap suc (filled_count-set ss i o h)

filled_count-le :
    (ls : List LineUnderReview) (ss : Slots) → Agree ls ss → filled_count ss ≤ length ls
filled_count-le [] [] h = omega arith
filled_count-le [] (s ∷ ss) h = absurd h
filled_count-le (l ∷ ls) [] h = absurd h
filled_count-le (l ∷ ls) (none ∷ ss) h = omega (arith, filled_count-le ls ss h)
filled_count-le (l ∷ ls) (some o ∷ ss) h = omega (arith, filled_count-le ls ss h.1)

-- With every slot filled, the outcomes are those of the lines, in the order of the lines.
pub map-filled :
    (ls : List LineUnderReview) (ss : Slots)
    → Agree ls ss
    → filled_count ss ≡ length ls
    → map (λ o. o.line) (filled ss) ≡ ls
unfolding filled
map-filled [] [] h n = refl
map-filled [] (s ∷ ss) h n = absurd h
map-filled (l ∷ ls) [] h n = absurd h
map-filled (l ∷ ls) (none ∷ ss) h n = absurd (omega (arith, filled_count-le ls ss h))
map-filled (l ∷ ls) (some o ∷ ss) h n = cc (h.0, map-filled ls ss h.1 (omega arith))

abbrev pub dated : Date → Option Date → Bool
dated day none = false
dated day (some d) = d == day

-- What an outcome allows of the meals of a day.
unfoldable pub meal_on : Date → LineOutcome → ℤ
meal_on day o =
    if is_meals o.line.head && dated day o.line.line_date then o.allowed_amount else pos 0

abbrev pub slot_sum : (LineOutcome → ℤ) → Slots → ℤ
slot_sum f [] = pos 0
slot_sum f (none ∷ ss) = slot_sum f ss
slot_sum f (some o ∷ ss) = f o +ℤ slot_sum f ss

pub slot_sum-replicate : (f : LineOutcome → ℤ) (n : ℕ) → slot_sum f (replicate n none) ≡ pos 0
slot_sum-replicate f zero = refl
slot_sum-replicate f (suc n) = slot_sum-replicate f n

pub slot_sum-set :
    (f : LineOutcome → ℤ) (ss : Slots) (i : ℕ) (o : LineOutcome)
    → get_elem? ss i ≡ some none
    → slot_sum f (set ss i (some o)) ≡ slot_sum f ss +ℤ f o
slot_sum-set f [] i o h = cc
slot_sum-set f (none ∷ ss) zero o h = omega int_laws
slot_sum-set f (some p ∷ ss) zero o h = ground arith
slot_sum-set f (none ∷ ss) (suc i) o h = slot_sum-set f ss i o h
slot_sum-set f (some p ∷ ss) (suc i) o h = rw (slot_sum-set f ss i o h) (omega int_laws)

pub slot_sum-filled : (f : LineOutcome → ℤ) (ss : Slots) → slot_sum f ss ≡ sum (map f (filled ss))
unfolding filled sum
slot_sum-filled f [] = refl
slot_sum-filled f (none ∷ ss) = slot_sum-filled f ss
slot_sum-filled f (some o ∷ ss) = ap (λ s. f o +ℤ s) (slot_sum-filled f ss)

-- Every outcome that is there has the property.
abbrev pub AllFilled : (LineOutcome → Type 0) → Slots → Type 0
AllFilled Q [] = Unit
AllFilled Q (none ∷ ss) = AllFilled Q ss
AllFilled Q (some o ∷ ss) = Q o × AllFilled Q ss

module _ (Q : LineOutcome → Type 0) where
  pub AllFilled-replicate : (n : ℕ) → AllFilled Q (replicate n none)
  AllFilled-replicate zero = tt
  AllFilled-replicate (suc n) = AllFilled-replicate n

  pub AllFilled-set :
      (ss : Slots) (i : ℕ) (o : LineOutcome)
      → Q o
      → AllFilled Q ss
      → AllFilled Q (set ss i (some o))
  AllFilled-set [] i o q h = h
  AllFilled-set (none ∷ ss) zero o q h = (q, h)
  AllFilled-set (some p ∷ ss) zero o q h = (q, h.1)
  AllFilled-set (none ∷ ss) (suc i) o q h = AllFilled-set ss i o q h
  AllFilled-set (some p ∷ ss) (suc i) o q h = (h.0, AllFilled-set ss i o q h.1)

  pub All-filled : (ss : Slots) → AllFilled Q ss → All Q (filled ss)
  unfolding filled
  All-filled [] h = tt
  All-filled (none ∷ ss) h = All-filled ss h
  All-filled (some o ∷ ss) h = (h.0, All-filled ss h.1)
