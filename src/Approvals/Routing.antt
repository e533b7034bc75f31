-- ===== src/Approvals/Routing.antt =====
-- approvals/routing.py. A directory is an association list from employee codes, in the order of
-- its rows.
pub mod Line
pub mod Chain
pub mod Bands
use expense_reimbursement_ta.Prelude.{
  ℕ, zero, suc, ◌+◌, Bool, true, false, ◌&&◌, Option, none, some, List, [], ◌∷◌, ◌++◌, map, filter,
  find, any, if◌then◌else◌, or_else, length,
}
use expense_reimbursement_ta.Prelude.Int.{ℤ, pos, leb_ℤ}
use expense_reimbursement_ta.Prelude.Text.{Text, codes, text_eq, text_ltb, is_member, is_empty}
use expense_reimbursement_ta.Prelude.Result.{Result, ok, err, ◌>>=◌}
use expense_reimbursement_ta.Models.{Role, same_role, is_finance}
use expense_reimbursement_ta.Policy.Params.{
  Node, get_field, limit, amount_of, flag_or, elements, texts,
}

pub record EmployeeRef : Type 0 where
  pub emp_code : Text
  pub name : Text
  pub role : Role
  pub reporting_manager_code : Option Text

-- Why a level is closed: nobody above the claimant holds the role.
pub data Note : Type 0 where
  skipped : (role : Role) (claimant : Text) → Note

pub record ChainStep : Type 0 where
  pub sequence : ℕ
  pub role : Role
  pub approver : Option EmployeeRef
  pub note : Option Note

-- `RoutingError` with its message, and the `ValueError` of `Role(role)`.
pub data RoutingError : Type 0 where
  loops_back : (claimant code : Text) → RoutingError
  not_in_master : (claimant code : Text) → RoutingError
  no_band : (claim_value : ℤ) → RoutingError
  unknown_role : Text → RoutingError

abbrev pub Directory : Type 0
Directory = List (Text × EmployeeRef)

-- `directory.get(code)`
unfoldable pub employee : Text → Directory → Option EmployeeRef
employee code [] = none
employee code ((k, person) ∷ rest) = if text_eq k code then some person else employee code rest

-- `_directory` of claims/pipeline.py, on the rows of the employee table.
unfoldable pub directory_of : List EmployeeRef → Directory
directory_of = map (λ person. (person.emp_code, person))

-- The loop of `ancestors`, with the number of people that the chain may still take.
walk :
    (claimant : Text) (directory : Directory)
    → ℕ
    → Option Text
    → List Text
    → Result RoutingError (List EmployeeRef)
walk claimant directory zero code seen = ok []
walk claimant directory (suc room) none seen = ok []
walk claimant directory (suc room) (some code) seen =
    let rest = λ (manager : EmployeeRef).
      walk claimant directory room manager.reporting_manager_code (code ∷ seen) in
    if is_empty code
    then ok []
    else if is_member code seen
    then err (loops_back claimant code)
    else elim (employee code directory) [
      | none ↦ err (not_in_master claimant code)
      | some manager ↦ do line ← rest manager; ok (manager ∷ line)
    ]

-- `max_depth=12`
abbrev pub max_depth : ℕ
max_depth = 12

unfoldable pub ancestors : EmployeeRef → Directory → ℕ → Result RoutingError (List EmployeeRef)
unfolding walk
ancestors claimant directory depth =
    walk claimant.emp_code directory depth claimant.reporting_manager_code (claimant.emp_code ∷ [])

-- `Role(role)`
unfoldable pub role_of_text : Text → Result RoutingError Role
role_of_text t =
    if text_eq t (codes "Employee")
    then ok Role.employee
    else if text_eq t (codes "Reporting Manager")
    then ok Role.reporting_manager
    else if text_eq t (codes "Head of Department")
    then ok Role.head_of_department
    else if text_eq t (codes "Head of Division")
    then ok Role.head_of_division
    else if text_eq t (codes "MD")
    then ok Role.md
    else if text_eq t (codes "Finance")
    then ok Role.finance
    else err (unknown_role t)

unfoldable pub parse_roles : List Text → Result RoutingError (List Role)
unfolding role_of_text
parse_roles [] = ok []
parse_roles (t ∷ ts) = do r ← role_of_text t; rs ← parse_roles ts; ok (r ∷ rs)

-- `band.get("min", 0) <= claim_value`, and the upper end if there is one.
unfoldable pub in_band : ℤ → Node → Bool
in_band claim_value band =
    leb_ℤ (or_else (amount_of (get_field band (codes "min"))) (pos 0)) claim_value
    && elim (amount_of (get_field band (codes "max"))) [
      | none ↦ true
      | some upper ↦ leb_ℤ claim_value upper
    ]

first_band : ℤ → List Node → Result RoutingError (List Role)
unfolding in_band parse_roles
first_band claim_value [] = err (no_band claim_value)
first_band claim_value (band ∷ bands) =
    if in_band claim_value band
    then parse_roles (texts (elements (get_field band (codes "roles"))))
    else first_band claim_value bands

unfoldable pub roles_for_value : ℤ → Node → Result RoutingError (List Role)
unfolding first_band
roles_for_value claim_value params =
    first_band claim_value (elements (get_field params (codes "approval_matrix")))

-- `if role not in required: required.append(role)`
unfoldable with_role : List Role → Role → List Role
with_role required role = if any (same_role role) required then required else required ++ role ∷ []

unfoldable pub required_roles : Bool → Node → List Role → List Role
unfolding with_role
required_roles international params required =
    if international
      && flag_or false (limit params (codes "approvals" ∷ codes "international_requires_md" ∷ []))
    then with_role
        (with_role (with_role (with_role required Role.reporting_manager) Role.head_of_department)
          Role.head_of_division)
        Role.md
    else required

-- One level: the nearest person above the claimant who holds the role, or a skipped step.
unfoldable pub level : EmployeeRef → List EmployeeRef → ℕ → Role → ChainStep
level claimant line sequence role = elim (find (λ person. same_role person.role role) line) [
  | none ↦ record {
    sequence = sequence;
    role = role;
    approver = none;
    note = some (skipped role claimant.name);
  }
  | some person ↦ record { sequence = sequence; role = role; approver = some person; note = none }
]

unfoldable pub levels : EmployeeRef → List EmployeeRef → ℕ → List Role → List ChainStep
unfolding level
levels claimant line sequence [] = []
levels claimant line sequence (role ∷ roles) =
    level claimant line sequence role ∷ levels claimant line (suc sequence) roles

-- The one with the lowest code; of equal codes the first.
lowest_code : List EmployeeRef → Option EmployeeRef
lowest_code [] = none
lowest_code (p ∷ rest) = elim (lowest_code rest) [
  | none ↦ some p
  | some q ↦ if text_ltb q.emp_code p.emp_code then some q else some p
]

-- `directory.values()`
abbrev values : Directory → List EmployeeRef
values = map (λ entry. entry.1)

unfoldable pub first_finance : Directory → Option EmployeeRef
unfolding lowest_code
first_finance directory = lowest_code (filter (λ person. is_finance person.role) (values directory))

unfoldable pub finance_step : ℕ → Directory → ChainStep
unfolding first_finance
finance_step sequence directory = record {
  sequence = sequence;
  role = Role.finance;
  approver = first_finance directory;
  note = none;
}

abbrev pub finance_always : Node → Bool
finance_always params =
    flag_or true (limit params (codes "approvals" ∷ codes "finance_verification_always" ∷ []))

unfoldable pub resolve_chain :
    (claim_value : ℤ) (claimant : EmployeeRef) (directory : Directory) (params : Node)
    (international : Bool)
    → Result RoutingError (List ChainStep)
unfolding required_roles finance_step
resolve_chain claim_value claimant directory params international = do
  banded ← roles_for_value claim_value params
  line ← ancestors claimant directory max_depth
  let required = required_roles international params banded
  let steps = levels claimant line 1 required
  ok (
      if finance_always params
      then steps ++ finance_step (length steps + 1) directory ∷ []
      else steps)
