-- ===== src/Evidence/Dedup/Suppressed.antt =====
-- The items that `find_duplicates` of evidence/dedup.py suppresses.
use expense_reimbursement_ta.Prelude.{
  ℕ, suc, ◌+◌, ◌<◌, ◌≡◌, refl, sym, subst, some, List, [], ◌∷◌, get_elem?, arith, All, Bool-cases,
  Option-cases, inl, inr,
}
use expense_reimbursement_ta.Evidence.Extraction.{ExtractedItem}
use expense_reimbursement_ta.Evidence.Dedup.{
  DuplicateMatch, Fingerprint, Seen, same_key, seen_at, fingerprint, scan, find_duplicates,
}
use expense_reimbursement_ta.Evidence.Dedup.Kept.{
  IsTail, same_key→eq, scan-new, scan-seen, IsTail-of,
}

-- A match points from an item to an earlier one with the same fingerprint.
abbrev pub IsDuplicate : List ExtractedItem → DuplicateMatch → Type 0
IsDuplicate whole m =
    (m.duplicate_of < m.index)
    × (x : ExtractedItem) × (original : ExtractedItem) × (get_elem? whole m.index ≡ some x)
    × (get_elem? whole m.duplicate_of ≡ some original)
    × (fingerprint original ≡ fingerprint x)

module _ (whole : List ExtractedItem) where
  -- What has been seen before place `i` stands there, under its own fingerprint.
  abbrev IsSeen : ℕ → Seen → Type 0
  IsSeen i seen =
      (q : Fingerprint) (j : ℕ)
      → seen_at q seen ≡ some j
      → (j < i) × (x : ExtractedItem) × (get_elem? whole j ≡ some x) × (fingerprint x ≡ q)

  seen-later : (i : ℕ) (seen : Seen) → IsSeen i seen → IsSeen (suc i) seen
  seen-later i seen h q j e =
      let (before, x, found, same) = h q j e in (omega arith, x, found, same)

  seen-cons :
      (i : ℕ) (seen : Seen) (x : ExtractedItem)
      → get_elem? whole i ≡ some x
      → IsSeen i seen
      → IsSeen (suc i) ((fingerprint x, i) ∷ seen)
  unfolding seen_at
  seen-cons i seen x found h q j e = elim (Bool-cases (same_key (fingerprint x) q)) [
    | inl a ↦
        let place : i ≡ j = let y = rw a at e in cc in
        (omega arith, x, rw (← place) found, same_key→eq (fingerprint x) q a)
    | inr a ↦ seen-later i seen h q j (rw a at e)
  ]

  scan-IsDuplicate :
      (rest : List ExtractedItem) (i : ℕ) (seen near : Seen)
      → IsTail whole i rest
      → IsSeen i seen
      → All (IsDuplicate whole) (scan i seen near rest).suppressed
  unfolding scan
  scan-IsDuplicate [] i seen near tail h = tt
  scan-IsDuplicate (x ∷ rest) i seen near tail h =
      let (found, next) = IsTail-of whole rest i x tail in
      elim (Option-cases (seen_at (fingerprint x) seen)) [
        | inr (j, e) ↦
            let (before, original, earlier, same) = h (fingerprint x) j e in
            subst (All (IsDuplicate whole)) (sym (scan-seen i seen near x rest j e).1) (
              (before, x, original, found, earlier, same),
              scan-IsDuplicate rest (suc i) seen near next (seen-later i seen h),
            )
        | inl e ↦
            let (near2, _, same) = scan-new i seen near x rest e in
            subst (All (IsDuplicate whole)) (sym same) (
              scan-IsDuplicate rest (suc i) ((fingerprint x, i) ∷ seen) near2 next
                (seen-cons i seen x found h))
      ]

-- Each suppressed match points from an item to an earlier one that has the same fingerprint.
pub suppressed-IsDuplicate :
    (items : List ExtractedItem) → All (IsDuplicate items) (find_duplicates items).suppressed
unfolding find_duplicates seen_at
suppressed-IsDuplicate items =
    scan-IsDuplicate items items 0 [] [] (λ k. let place : 0 + k ≡ k = omega arith in rw place refl)
      (λ q j e. let x = e in cc)
