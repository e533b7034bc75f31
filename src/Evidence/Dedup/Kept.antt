-- ===== src/Evidence/Dedup/Kept.antt =====
-- The items that survive `find_duplicates` of evidence/dedup.py.
use expense_reimbursement_ta.Prelude.{
  ℕ, suc, ◌+◌, ◌≡◌, ◌≢◌, ◌⊎◌, refl, sym, ap, subst, ◌∙◌, true, false, none, some, List, [], ◌∷◌,
  get_elem?, arith, All, All-imp, Any, here, there, Bool-cases, Option-cases, inl, inr,
}
use expense_reimbursement_ta.Prelude.Int.{ℤ}
use expense_reimbursement_ta.Prelude.Text.{text_eq→eq, text_eq_refl}
use expense_reimbursement_ta.Evidence.Extraction.{ExtractedItem}
use expense_reimbursement_ta.Evidence.Dedup.{
  exact, Fingerprint, When, Seen, same_key, same_when, same_amount, seen_at, fingerprint, near_key,
  scan, find_duplicates, items_at, filter_out,
}

same_when→eq : (a b : When) → same_when a b ≡ true → a ≡ b
same_when→eq a b h = ground arith

same_amount→eq : (a b : ℤ) → same_amount a b ≡ true → a ≡ b
same_amount→eq a b h = ground arith

pub same_key→eq : (a b : Fingerprint) → same_key a b ≡ true → a ≡ b
unfolding same_key
same_key→eq a b h = ground (
  arith,
  text_eq→eq a.merchant b.merchant,
  same_when→eq a.when b.when,
  same_amount→eq a.amount b.amount,
  text_eq→eq a.bill_no b.bill_no,
)

pub same_key_refl : (a : Fingerprint) → same_key a a ≡ true
unfolding same_key
same_key_refl a = ground (arith, text_eq_refl a.merchant, text_eq_refl a.bill_no)

-- A key that an extended dictionary lacks is not the new one, and the old one lacks it.
seen_at-cons :
    (q k : Fingerprint) (i : ℕ) (seen : Seen)
    → seen_at q ((k, i) ∷ seen) ≡ none
    → (q ≢ k) × (seen_at q seen ≡ none)
unfolding seen_at
seen_at-cons q k i seen e = elim (Bool-cases (same_key k q)) [
  | inl a ↦ let x = rw a at e in cc
  | inr a ↦ (
    (λ same. let y : same_key k k ≡ false = rw same at a in let z = same_key_refl k in cc),
    rw a at e,
  )
]

seen_at-hit :
    (q k : Fingerprint) (i : ℕ) (seen : Seen)
    → seen_at q ((k, i) ∷ seen) ≢ none
    → (k ≡ q) ⊎ (seen_at q seen ≢ none)
unfolding seen_at
seen_at-hit q k i seen h = elim (Bool-cases (same_key k q)) [
  | inl a ↦ inl (same_key→eq k q a)
  | inr a ↦ inr (rw a at h)
]

-- What an item that has not been seen does to the rest of the scan.
pub scan-new :
    (i : ℕ) (seen near : Seen) (x : ExtractedItem) (rest : List ExtractedItem)
    → seen_at (fingerprint x) seen ≡ none
    → (near2 : Seen) × ((scan i seen near (x ∷ rest)).kept
        ≡ i ∷ (scan (suc i) ((fingerprint x, i) ∷ seen) near2 rest).kept)
      × ((scan i seen near (x ∷ rest)).suppressed
          ≡ (scan (suc i) ((fingerprint x, i) ∷ seen) near2 rest).suppressed)
unfolding scan
scan-new i seen near x rest e = elim (Option-cases (seen_at (near_key x) near)) [
  | inl a ↦ ((near_key x, i) ∷ near, rw (e, a, scan) refl, rw (e, a, scan) refl)
  | inr (j, a) ↦ (near, rw (e, a, scan) refl, rw (e, a, scan) refl)
]

-- What an item that has been seen does to it.
pub scan-seen :
    (i : ℕ) (seen near : Seen) (x : ExtractedItem) (rest : List ExtractedItem) (j : ℕ)
    → seen_at (fingerprint x) seen ≡ some j
    → ((scan i seen near (x ∷ rest)).kept ≡ (scan (suc i) seen near rest).kept)
      × ((scan i seen near (x ∷ rest)).suppressed
          ≡ record { index = i; duplicate_of = j; strength = exact }
            ∷ (scan (suc i) seen near rest).suppressed)
unfolding scan
scan-seen i seen near x rest j e = (rw (e, scan) refl, rw (e, scan) refl)

-- No two of the items have the same fingerprint.
abbrev pub HasApartKeys : List ExtractedItem → Type 0
HasApartKeys [] = Unit
HasApartKeys (x ∷ rest) = All (λ y. fingerprint y ≢ fingerprint x) rest × HasApartKeys rest

-- The list's items from place `i` on.
abbrev pub IsTail : List ExtractedItem → ℕ → List ExtractedItem → Type 0
IsTail whole i rest = (k : ℕ) → get_elem? whole (i + k) ≡ get_elem? rest k

pub IsTail-of :
    (whole rest : List ExtractedItem) (i : ℕ) (x : ExtractedItem)
    → IsTail whole i (x ∷ rest)
    → (get_elem? whole i ≡ some x) × IsTail whole (suc i) rest
IsTail-of whole rest i x h =
    let first = h 0 in
    let place : i + 0 ≡ i = omega arith in
    (
      rw place at first,
      λ k.
          let next = h (suc k) in
          let place2 : i + suc k ≡ suc i + k = omega arith in rw place2 at next,
    )

-- The result of a scan from place `i` on: what it keeps, and what it does to what it has seen.
abbrev IsScanned : Seen → List ExtractedItem → List ExtractedItem → Type 0
IsScanned seen rest kept =
    All (λ y. seen_at (fingerprint y) seen ≡ none) kept
    × HasApartKeys kept
    × All
        (λ x. (seen_at (fingerprint x) seen ≢ none) ⊎ Any (λ y. fingerprint y ≡ fingerprint x) kept)
        rest

module _ (whole : List ExtractedItem) where
  scan-IsScanned :
      (rest : List ExtractedItem) (i : ℕ) (seen near : Seen)
      → IsTail whole i rest
      → IsScanned seen rest (items_at whole (scan i seen near rest).kept)
  unfolding scan items_at
  scan-IsScanned [] i seen near h = (tt, tt, tt)
  scan-IsScanned (x ∷ rest) i seen near h =
      let (found, next) = IsTail-of whole rest i x h in
      elim (Option-cases (seen_at (fingerprint x) seen)) [
        | inr (j, e) ↦
            let (fresh, apart, all) = scan-IsScanned rest (suc i) seen near next in
            let later = items_at whole (scan (suc i) seen near rest).kept in
            let shape : items_at whole (scan i seen near (x ∷ rest)).kept ≡ later =
              ap (items_at whole) (scan-seen i seen near x rest j e).0 in
            let known : seen_at (fingerprint x) seen ≢ none = λ q. cc in
            subst (IsScanned seen (x ∷ rest)) (sym shape) (fresh, apart, (inl known, all))
        | inl e ↦
            let (near2, same, _) = scan-new i seen near x rest e in
            let seen2 = (fingerprint x, i) ∷ seen in
            let (fresh, apart, all) = scan-IsScanned rest (suc i) seen2 near2 next in
            let later = items_at whole (scan (suc i) seen2 near2 rest).kept in
            let new =
              All-imp later (λ y h. seen_at-cons (fingerprint y) (fingerprint x) i seen h) fresh in
            let shape : items_at whole (scan i seen near (x ∷ rest)).kept ≡ x ∷ later =
              ap (items_at whole) same ∙ rw (found, items_at) refl in
            subst (IsScanned seen (x ∷ rest)) (sym shape) (
              (e, All-imp later (λ y h. h.1) new),
              (All-imp later (λ y h. h.0) new, apart),
              (
                inr (here refl),
                All-imp rest
                    (λ y h. elim h [
                      | inr old ↦ inr (there old)
                      | inl hit ↦ elim (seen_at-hit (fingerprint y) (fingerprint x) i seen hit) [
                        | inl own ↦ inr (here own)
                        | inr old ↦ inl old
                      ]
                    ])
                    all,
              ),
            )
      ]

-- No two of the items that survive have the same fingerprint, and each of the items has the
-- fingerprint of one that survives: nothing is counted twice and no transaction is lost.
pub find_duplicates_sound :
    (items : List ExtractedItem)
    → HasApartKeys (filter_out items (find_duplicates items))
      × All
          (λ x. Any (λ y. fingerprint y ≡ fingerprint x) (filter_out items (find_duplicates items)))
          items
unfolding find_duplicates filter_out seen_at
find_duplicates_sound items =
    let (_, apart, all) =
      scan-IsScanned items items 0 [] []
        (λ k. let place : 0 + k ≡ k = omega arith in rw place refl) in
    (apart, All-imp items (λ x h. elim h [ inl hit ↦ absurd (hit refl) | inr kept ↦ kept ]) all)
