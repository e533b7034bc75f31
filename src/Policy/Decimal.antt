-- ===== src/Policy/Decimal.antt =====
-- Division and rounding as `decimal` does them in its default context: a quotient or a product is
-- rounded to 28 significant digits, half to even, and `quantize` then rounds to paise. Amounts are
-- under 10 ^ 26 paise, so the scale below does not reach 0.
use expense_reimbursement_ta.Prelude.{
  ℕ, zero, suc, ◌+◌, ◌-◌, ◌*◌, ◌/◌, ◌%◌, ◌^◌, ◌≡◌, refl, Bool, true, false, ltb, leb, ◌==◌,
  if◌then◌else◌,
}
use expense_reimbursement_ta.Prelude.Int.{ℤ, pos, negsuc, ◌-ℤ◌, pos_part, neg_part, ltb_ℤ}

-- coefficient / 10 ^ scale, not negative
pub record Decimal : Type 0 where
  pub coefficient : ℕ
  pub scale : ℕ

unfoldable pub count_digits : ℕ → ℕ → ℕ
count_digits zero n = 0
count_digits (suc fuel) n = elim (n == 0) [ true ↦ 0 | false ↦ suc (count_digits fuel (n / 10)) ]

-- The number of decimal digits; each round divides by ten, so a fuel of `n` is enough.
unfoldable pub digits : ℕ → ℕ
unfolding count_digits
digits n = count_digits n n

unfoldable pub half_even : ℕ → ℕ → ℕ
half_even n d =
    let q = n / d in
    let r = 2 * (n % d) in if ltb r d then q else if ltb d r then q + 1 else q + q % 2

unfoldable pub half_up : ℕ → ℕ → ℕ
half_up n d = let q = n / d in if leb d (2 * (n % d)) then q + 1 else q

-- a / b
unfoldable pub divide : ℕ → ℕ → Decimal
unfolding digits half_even
divide a b =
    let s = 28 + digits b - digits a in
    if leb (10 ^ 28 * b) (a * 10 ^ s)
    then record { coefficient = half_even (a * 10 ^ (s - 1)) b; scale = s - 1 }
    else record { coefficient = half_even (a * 10 ^ s) b; scale = s }

-- x * t
unfoldable pub multiply : Decimal → ℕ → Decimal
unfolding digits half_even
multiply x t =
    let c = x.coefficient * t in
    let excess = digits c - 28 in
    record { coefficient = half_even c (10 ^ excess); scale = x.scale - excess }

unfoldable pub magnitude : ℤ → ℕ
magnitude a = pos_part a + neg_part a

-- The sign of `a` on a magnitude.
unfoldable pub with_sign : Bool → ℕ → ℤ
with_sign negative n = if negative then pos 0 -ℤ pos n else pos n

abbrev is_negative : ℤ → Bool
is_negative a = ltb_ℤ a (pos 0)

-- `(amount / nights).quantize(Decimal("0.01"))`
unfoldable pub per_unit : ℤ → ℕ → ℤ
unfolding divide half_even magnitude with_sign ◌-ℤ◌
per_unit amount nights =
    let q = divide (magnitude amount) nights in
    with_sign (is_negative amount) (half_even q.coefficient (10 ^ q.scale))

abbrev differ : Bool → Bool → Bool
differ true true = false
differ true false = true
differ false b = b

-- `(amount / subtotal * total).quantize(Decimal("0.01"), rounding=ROUND_HALF_UP)`
unfoldable pub pro_rata : ℤ → ℤ → ℤ → ℤ
unfolding divide multiply half_up magnitude with_sign ◌-ℤ◌
pro_rata amount subtotal total =
    let x = multiply (divide (magnitude amount) (magnitude subtotal)) (magnitude total) in
    with_sign (differ (is_negative amount) (differ (is_negative subtotal) (is_negative total)))
      (half_up x.coefficient (10 ^ x.scale))

-- A third of an amount, a tie that goes to even, and a tie that the rounded product meets again.
per_unit-3 : per_unit (pos 100) 3 ≡ pos 33
unfolding per_unit
per_unit-3 = refl

per_unit-2 : per_unit (negsuc 24) 2 ≡ negsuc 11
unfolding per_unit
per_unit-2 = refl

pro_rata-5 : pro_rata (pos 500) (pos 600) (pos 3) ≡ pos 3
unfolding pro_rata
pro_rata-5 = refl

pro_rata-folio : pro_rata (pos 1725000) (pos 1920000) (pos 230400) ≡ pos 207000
unfolding pro_rata
pro_rata-folio = refl
