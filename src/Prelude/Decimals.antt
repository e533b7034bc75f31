-- ===== src/Prelude/Decimals.antt =====
-- A natural number in decimal digits: `str(n)`, `f"{n:04d}"`, `int(text)` and `text.isdigit()`, on
-- ASCII text.
use Prim.Native.Nat.{ℕ, zero, suc, ◌+◌, ◌-◌, ◌*◌, ◌/◌, ◌%◌, ◌≤◌, ◌<◌}
use mathlib.Core.Path.{◌≡◌, refl}
use mathlib.Core.Logic.{inl, inr}
use mathlib.Core.Bool.{Bool, true, false}
use mathlib.Core.List.{[], ◌∷◌, ◌++◌}
use native.Mathlib.Omega.{arith}
use expense_reimbursement_ta.Prelude.Tests.{if◌then◌else◌, ltb, Bool-cases}
use expense_reimbursement_ta.Prelude.Lists.{length, replicate, all}
use expense_reimbursement_ta.Prelude.Text.{Text, is_digit}

-- The digits of a number less than 10 ^ fuel.
unfoldable digits_of : ℕ → ℕ → Text
digits_of zero n = []
digits_of (suc fuel) n =
    let front = digits_of fuel (n / 10) in
    if ltb n 10 then (48 + n) ∷ [] else front ++ (48 + n % 10) ∷ []

-- `str(n)`
unfoldable pub decimal : ℕ → Text
unfolding digits_of
decimal n = digits_of (suc n) n

-- `f"{n:04d}"`
unfoldable pub padded : ℕ → Text
unfolding decimal
padded n = replicate (4 - length (decimal n)) 48 ++ decimal n

unfoldable value_from : ℕ → Text → ℕ
value_from acc [] = acc
value_from acc (c ∷ t) = value_from (10 * acc + (c - 48)) t

-- `int(text)`, on digits
unfoldable pub value : Text → ℕ
unfolding value_from
value = value_from 0

-- `text.isdigit()`
unfoldable pub is_number : Text → Bool
is_number [] = false
is_number (c ∷ t) = all is_digit (c ∷ t)

value_from-append :
    (acc : ℕ) (s : Text) (c : ℕ) → value_from acc (s ++ c ∷ []) ≡ 10 * value_from acc s + (c - 48)
unfolding value_from
value_from-append acc [] c = refl
value_from-append acc (d ∷ s) c = value_from-append (10 * acc + (d - 48)) s c

value-digits_of : (fuel n : ℕ) → n < fuel → value_from 0 (digits_of fuel n) ≡ n
unfolding digits_of value_from
value-digits_of zero n h = absurd (omega (arith, h))
value-digits_of (suc fuel) n h = elim (Bool-cases (ltb n 10)) [
  | inl a ↦ rw a (omega arith)
  | inr a ↦
      let big : 10 ≤ n = ground (arith, a) in
      let less : n / 10 < fuel = omega (arith, h, big) in
      let before = value-digits_of fuel (n / 10) less in
      rw a (rw (value_from-append 0 (digits_of fuel (n / 10)) (48 + n % 10), before) (omega arith))
]

value-zeros : (k : ℕ) (t : Text) → value_from 0 (replicate k 48 ++ t) ≡ value_from 0 t
unfolding value_from
value-zeros zero t = refl
value-zeros (suc k) t = value-zeros k t

all-append :
    (s t : Text) → all is_digit s ≡ true → all is_digit t ≡ true → all is_digit (s ++ t) ≡ true
all-append [] t h k = k
all-append (c ∷ s) t h k = elim (Bool-cases (is_digit c)) [
  | inl a ↦ let x = rw a at h in rw a (all-append s t x k)
  | inr a ↦ let x = rw a at h in cc
]

all-digits_of : (fuel n : ℕ) → all is_digit (digits_of fuel n) ≡ true
unfolding digits_of
all-digits_of zero n = refl
all-digits_of (suc fuel) n = elim (Bool-cases (ltb n 10)) [
  | inl a ↦ rw a (let small : n < 10 = ground (arith, a) in ground (arith, small))
  | inr a ↦
      let last : all is_digit ((48 + n % 10) ∷ []) ≡ true =
        let small : n % 10 < 10 = omega arith in ground (arith, small) in
      rw a (
        all-append (digits_of fuel (n / 10)) ((48 + n % 10) ∷ []) (all-digits_of fuel (n / 10))
          last)
]

all-zeros : (k : ℕ) → all is_digit (replicate k 48) ≡ true
all-zeros zero = refl
all-zeros (suc k) = all-zeros k

-- Reading a padded number gives the number back.
pub value-padded : (n : ℕ) → value (padded n) ≡ n
unfolding padded decimal value
value-padded n =
    rw (value-zeros (4 - length (digits_of (suc n) n)) (digits_of (suc n) n))
      (value-digits_of (suc n) n (omega arith))

number-append :
    (s t : Text) → all is_digit s ≡ true → is_number t ≡ true → is_number (s ++ t) ≡ true
unfolding is_number
number-append [] t h k = k
number-append (c ∷ s) [] h k = cc
number-append (c ∷ s) (d ∷ t) h k = all-append (c ∷ s) (d ∷ t) h k

number-digits_of : (fuel n : ℕ) → is_number (digits_of (suc fuel) n) ≡ true
unfolding digits_of is_number
number-digits_of fuel n = elim (Bool-cases (ltb n 10)) [
  | inl a ↦ rw a (let small : n < 10 = ground (arith, a) in ground (arith, small))
  | inr a ↦
      let last : is_number ((48 + n % 10) ∷ []) ≡ true =
        let small : n % 10 < 10 = omega arith in ground (arith, small) in
      rw a (
        number-append (digits_of fuel (n / 10)) ((48 + n % 10) ∷ []) (all-digits_of fuel (n / 10))
          last)
]

pub is_number-padded : (n : ℕ) → is_number (padded n) ≡ true
unfolding padded decimal
is_number-padded n =
    number-append (replicate (4 - length (digits_of (suc n) n)) 48) (digits_of (suc n) n)
      (all-zeros (4 - length (digits_of (suc n) n))) (number-digits_of n n)

pub all-decimal : (n : ℕ) → all is_digit (decimal n) ≡ true
unfolding decimal
all-decimal n = all-digits_of (suc n) n

length-snoc : (t : Text) (c : ℕ) → length (t ++ c ∷ []) ≡ suc (length t)
length-snoc [] c = refl
length-snoc (d ∷ t) c = let more = length-snoc t c in omega (arith, more)

one_digit : (fuel n : ℕ) → n < 10 → length (digits_of fuel n) ≤ 1
unfolding digits_of
one_digit zero n h = omega arith
one_digit (suc fuel) n h = let small : ltb n 10 ≡ true = ground (arith, h) in rw small (omega arith)

-- One digit more than the number without its last.
one_more :
    (k fuel n : ℕ) → length (digits_of fuel (n / 10)) ≤ k → length (digits_of (suc fuel) n) ≤ suc k
unfolding digits_of
one_more k fuel n h = elim (Bool-cases (ltb n 10)) [
  | inl a ↦ rw a (omega arith)
  | inr a ↦ rw (a, length-snoc (digits_of fuel (n / 10)) (48 + n % 10)) (omega (arith, h))
]

two_digits : (fuel n : ℕ) → n < 100 → length (digits_of fuel n) ≤ 2
unfolding digits_of
two_digits zero n h = omega arith
two_digits (suc fuel) n h = one_more 1 fuel n (one_digit fuel (n / 10) (omega (arith, h)))

-- A number under a thousand has at most three digits.
pub length-decimal : (n : ℕ) → n < 1000 → length (decimal n) ≤ 3
unfolding decimal
length-decimal n h = one_more 2 n n (two_digits n (n / 10) (omega (arith, h)))
