-- ===== src/Policy/Params.antt =====
-- The payload of a policy version (JSON), and `EvaluationContext.limit` of policy/registry.py.
-- A number stands for its value in paise: the payload's amounts are rupees with at most two
-- decimals. A leaf of another type than the reader expects reads as missing; Python raises there.
use expense_reimbursement_ta.Prelude.{Bool, Option, none, some, List, [], ◌∷◌, if◌then◌else◌}
use expense_reimbursement_ta.Prelude.Int.{ℤ}
use expense_reimbursement_ta.Prelude.Text.{Text, text_eq}

mutual
  pub data Node : Type 0 where
    null : Node
    flag : Bool → Node
    num : ℤ → Node
    text : Text → Node
    seq : Nodes → Node
    table : Entries → Node

  pub data Nodes : Type 0 where
    nil : Nodes
    cons : Node → Nodes → Nodes

  pub data Entries : Type 0 where
    end : Entries
    field : Text → Node → Entries → Entries

-- `entries.get(key)`; Python's `None` is `null`.
get_entry : Text → Entries → Node
get_entry key end = null
get_entry key (field k v rest) = if text_eq k key then v else get_entry key rest

unfoldable pub get_field : Node → Text → Node
unfolding get_entry
get_field (table entries) key = get_entry key entries
get_field _ key = null

-- The loop over the path.
unfoldable pub limit : Node → List Text → Node
unfolding get_field
limit node [] = node
limit node (key ∷ path) = limit (get_field node key) path

unfoldable pub amount_of : Node → Option ℤ
amount_of (num n) = some n
amount_of _ = none

unfoldable pub text_of : Node → Option Text
text_of (text t) = some t
text_of _ = none

-- A flag, or the default where it is missing.
unfoldable pub flag_or : Bool → Node → Bool
flag_or d (flag b) = b
flag_or d _ = d

items : Nodes → List Node
items nil = []
items (cons n rest) = n ∷ items rest

-- `node or []`
unfoldable pub elements : Node → List Node
unfolding items
elements (seq ns) = items ns
elements _ = []

unfoldable pub texts : List Node → List Text
texts [] = []
texts (text t ∷ rest) = t ∷ texts rest
texts (_ ∷ rest) = texts rest
