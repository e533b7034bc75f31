-- ===== src/Policy/Rev4.antt =====
-- The parameters of policy/versions (NTX-HR-POL-11, Rev 4) that the modelled code reads, as the
-- payload of a policy version.
use expense_reimbursement_ta.Prelude.{ℕ, ◌*◌, true, String, List, [], ◌∷◌}
use expense_reimbursement_ta.Prelude.Int.{pos}
use expense_reimbursement_ta.Prelude.Text.{codes}
use expense_reimbursement_ta.Policy.Params.{
  Node, null, flag, num, text, seq, table, Nodes, nil, cons, end, field,
}

abbrev rupees : ℕ → Node
rupees n = num (pos (n * 100))

abbrev names : List String → Nodes
names [] = nil
names (s ∷ rest) = cons (text (codes s)) (names rest)

abbrev band : Node → Node → List String → Node
band low high roles = table (
    field (codes "min") low
      (field (codes "max") high (field (codes "roles") (seq (names roles)) end)))

abbrev approval_matrix : Node
approval_matrix = seq (
    cons (band (rupees 0) (rupees 25000) ("Reporting Manager" ∷ [])) (
      cons (band (rupees 25001) (rupees 75000) ("Reporting Manager" ∷ "Head of Department" ∷ [])) (
        cons
          (band (rupees 75001) (rupees 200000)
            ("Reporting Manager" ∷ "Head of Department" ∷ "Head of Division" ∷ []))
          (cons
            (band (rupees 200001) null
              ("Reporting Manager" ∷ "Head of Department" ∷ "Head of Division" ∷ "MD" ∷ []))
            nil))))

abbrev by_city : Node → Node → Node → Node
by_city a b c =
    table (field (codes "Tier 1") a (field (codes "Tier 2") b (field (codes "Tier 3") c end)))

abbrev categories : List String
categories =
    "laundry" ∷ "mini bar" ∷ "in-room entertainment" ∷ "spa" ∷ "gym" ∷ "personal phone"
    ∷ "personal data" ∷ "fines" ∷ "penalties" ∷ "traffic challan"
    ∷ "travel insurance purchased independently" ∷ []

abbrev pub rev4 : Node
rev4 = table (
    field (codes "approval_matrix") approval_matrix (
      field (codes "approvals")
        (table (
          field (codes "finance_verification_always") (flag true)
            (field (codes "international_requires_md") (flag true) end)))
        (field (codes "lodging")
          (table (
            field (codes "limits_per_night") (by_city (rupees 6000) (rupees 4000) (rupees 2800))
              end))
          (field (codes "meals")
            (table (
              field (codes "daily_limits") (by_city (rupees 1500) (rupees 1000) (rupees 1000))
                (field (codes "bill_required_above") (rupees 500) end)))
            (field (codes "business_entertainment")
              (table (
                field (codes "prior_approval_threshold") (rupees 2000)
                  (field (codes "prior_approval_role") (text (codes "Head of Department")) end)))
              (field (codes "non_reimbursable")
                (table (field (codes "categories") (seq (names categories)) end)) end))))))
