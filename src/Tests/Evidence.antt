-- ===== src/Tests/Evidence.antt =====
-- Evidence at concrete inputs.
use expense_reimbursement_ta.Models.{ExtractionStatus}
use expense_reimbursement_ta.Evidence.Corrections.{EvidenceDocument}
use expense_reimbursement_ta.Prelude.Text.{lower}
use expense_reimbursement_ta.Evidence.Dedup.{near_key, same_key}
use expense_reimbursement_ta.Prelude.{
  ◌≡◌, ◌↔◌, refl, true, Option, none, some, List, [], ◌∷◌, All, Any,
}
use expense_reimbursement_ta.Prelude.Int.{ℤ, pos, sum}
use expense_reimbursement_ta.Prelude.Text.{codes}
use expense_reimbursement_ta.Evidence.Extraction.{
  ExtractedItem, checked_amounts, from_items, is_usable,
}
use expense_reimbursement_ta.Evidence.Extraction.Exact.{from_items_exact}
use expense_reimbursement_ta.Evidence.Dedup.{filter_out, find_duplicates, fingerprint}
use expense_reimbursement_ta.Evidence.Dedup.Kept.{HasApartKeys, find_duplicates_sound}
use expense_reimbursement_ta.Tests.Trip.{item}

-- A cab, a forward of its receipt, and another cab of the same fare.
abbrev three_cabs : List ExtractedItem
three_cabs = item 101 17200 ∷ item 101 17200 ∷ item 102 17200 ∷ []

two_kept : (find_duplicates three_cabs).kept ≡ 0 ∷ 2 ∷ []
unfolding find_duplicates same_key fingerprint lower near_key
two_kept = refl

find_duplicates_sound_example :
    HasApartKeys (filter_out three_cabs (find_duplicates three_cabs))
    × All
        (λ x.
          Any
            (λ y. fingerprint y ≡ fingerprint x)
            (filter_out three_cabs (find_duplicates three_cabs)))
        three_cabs
find_duplicates_sound_example = find_duplicates_sound three_cabs

from_items_exact_example :
    ((from_items (codes "rules") three_cabs (some (pos 55000)) none none none).items ≡ three_cabs)
    × ((is_usable (from_items (codes "rules") three_cabs (some (pos 55000)) none none none) ≡ true)
        ↔ ((s : ℤ)
            → ◌≡◌ {A = Option ℤ} (some (pos 55000)) (some s)
            → sum (checked_amounts three_cabs none) ≡ s))
from_items_exact_example =
    from_items_exact (codes "rules") three_cabs none none none (some (pos 55000))

-- A bill that nothing could read, with figures typed in for it.
abbrev unread : EvidenceDocument
unread = record {
  extractor_name = none;
  extraction_status = ExtractionStatus.needs_input;
  needs_input_reason = none;
  line_items = [];
}
