-- ===== src/Tests/Built.antt =====
-- A draft built of two documents: a cab receipt, and a sale mail that is set aside.
use expense_reimbursement_ta.Prelude.{◌≡◌, refl, false, none, some, [], ◌∷◌, map, All}
use expense_reimbursement_ta.Prelude.Int.{pos, ◌≤ℤ◌}
use expense_reimbursement_ta.Prelude.Result.{ok}
use expense_reimbursement_ta.Prelude.Text.{Text, codes}
use expense_reimbursement_ta.Models.{DocKind, ExtractionStatus}
use expense_reimbursement_ta.Approvals.Routing.{directory_of, resolve_chain}
use expense_reimbursement_ta.Claims.Drafting.{find_coverage_gaps}
use expense_reimbursement_ta.Claims.Pipeline.Built.{build_claim_complete, build_claim_sound}
use expense_reimbursement_ta.Claims.Pipeline.Collect.{
  BuiltDraft, Collected, Reading, build_claim, built_of, collect, extracted, marked,
  nothing_collected, promotional_mail,
}
use expense_reimbursement_ta.Claims.Pipeline.Collect.Accounted.{IsShelved, gathered, shelf_of}
use expense_reimbursement_ta.Claims.Pipeline.Collect.Stays.{stays_shown}
use expense_reimbursement_ta.Claims.Pipeline.Judged.{said_by_item, said_by_line}
use expense_reimbursement_ta.Evidence.Dedup.{filter_out, find_duplicates}
use expense_reimbursement_ta.Claims.Summary.Settlement.{allowed_sum}
use expense_reimbursement_ta.Evidence.Extraction.{ExtractionResult}
use expense_reimbursement_ta.Tables.{DocumentRow}
use expense_reimbursement_ta.Tests.Settled.{settled_draft, settles}
use expense_reimbursement_ta.Tests.Trip.{asha, cab, drafting, evaluation, item, people}

abbrev pub document : Text → DocKind → DocumentRow
document name kind = record {
  external_id = name;
  travel_request_id = some 7;
  source_filename = name;
  source_path = none;
  message_id = none;
  sender = none;
  subject = none;
  received_at = none;
  attachment_path = none;
  doc_kind = kind;
  proof_ref = codes "mail";
  body_text = none;
  evidence = record {
    extractor_name = none;
    extraction_status = ExtractionStatus.pending;
    needs_input_reason = none;
    line_items = [];
  };
}

abbrev pub receipt : DocumentRow
receipt = document (codes "cab.eml") DocKind.cab_receipt

abbrev pub sale : DocumentRow
sale = document (codes "sale.eml") DocKind.promotional

abbrev result : ExtractionResult
result = record {
  extractor_name = codes "rule_based";
  status = ExtractionStatus.extracted;
  items = item 101 17200 ∷ [];
  stated_subtotal = none;
  stated_total = none;
  reconciliation = none;
  ocr_text = none;
  needs_input_reason = none;
}

abbrev pub read : DocumentRow → Reading
read _ = extracted result

abbrev gone_through : Collected
gone_through = record {
  pieces = cab 101 17200 ∷ [];
  stays = [];
  needs_input = [];
  set_aside = (codes "sale.eml", promotional_mail) ∷ [];
  manually_entered = [];
  documents =
      marked ExtractionStatus.extracted none (some (codes "rule_based")) receipt ∷ sale ∷ [];
}

collects : collect read nothing_collected (receipt ∷ sale ∷ []) ≡ ok gone_through
unfolding collect
collects = refl

abbrev pub built : BuiltDraft
built = built_of evaluation gone_through settled_draft

pub builds :
    build_claim read (receipt ∷ sale ∷ []) drafting evaluation [] (pos 10000) asha people ≡ ok built
builds =
    build_claim_complete read (receipt ∷ sale ∷ []) drafting evaluation [] (pos 10000) asha people
      gone_through settled_draft collects settles

build_claim_sound_example :
    (map (λ p. p.item) built.collected.pieces ≡ gathered read (receipt ∷ sale ∷ []))
    × All (λ d. IsShelved (shelf_of read d) d.source_filename built.collected) (receipt ∷ sale ∷ [])
    × (built.settled.summary.net_reimbursable ≡ allowed_sum built.settled.outcomes)
    × (pos 0 ≤ℤ built.settled.summary.net_reimbursable)
    × (resolve_chain built.settled.summary.net_reimbursable asha
          (directory_of people)
          evaluation.params
          false
        ≡ ok built.settled.chain)
    × (built.coverage_gaps ≡ find_coverage_gaps 100 104 (stays_shown read (receipt ∷ sale ∷ [])))
    × (built.settled.dedup ≡ find_duplicates (gathered read (receipt ∷ sale ∷ [])))
    × (map (λ o. said_by_line o.line) built.settled.outcomes
        ≡ map said_by_item (filter_out (gathered read (receipt ∷ sale ∷ [])) built.settled.dedup))
build_claim_sound_example =
    build_claim_sound read (receipt ∷ sale ∷ []) drafting evaluation [] (pos 10000) asha people
      built builds
