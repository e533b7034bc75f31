-- ===== src/Identity.antt =====
-- identity/deps.py and identity/router.py: who is calling, and which profile they have. A text that
-- the source tests for truth is present and not empty.
use expense_reimbursement_ta.Prelude.{
  ℕ, Bool, true, false, not, Option, none, some, List, find, if◌then◌else◌,
}
use expense_reimbursement_ta.Prelude.Result.{Result, ok, err, ◌>>=◌}
use expense_reimbursement_ta.Prelude.Text.{Text, is_empty, strip, text_eq}
use expense_reimbursement_ta.Models.{Role}
use expense_reimbursement_ta.Http.{
  HttpError, http_error, not_an_approver, not_signed_in, unknown_profile,
}

pub record Employee : Type 0 where
  pub id : ℕ
  pub emp_code : Text
  pub name : Text
  pub email : Text
  pub designation : Text
  pub department : Text
  pub cost_centre : Text
  pub city : Text
  pub role : Role
  pub reporting_manager_code : Option Text

pub data Profile : Type 0 where
  employee admin : Profile

-- `role in ADMIN_ROLES`
unfoldable pub is_admin_role : Role → Bool
is_admin_role Role.employee = false
is_admin_role Role.reporting_manager = true
is_admin_role Role.head_of_department = true
is_admin_role Role.head_of_division = true
is_admin_role Role.md = true
is_admin_role Role.finance = true

unfoldable pub profile_for : Role → Profile
unfolding is_admin_role
profile_for role = if is_admin_role role then Profile.admin else Profile.employee

abbrev pub is_admin : Profile → Bool
is_admin Profile.employee = false
is_admin Profile.admin = true

unfoldable pub get_current_employee : List Employee → Option Text → Result HttpError Employee
get_current_employee employees none = err (http_error 401 not_signed_in)
get_current_employee employees (some x_emp_code) =
    let found = find (λ e. text_eq e.emp_code (strip x_emp_code)) employees in
    if is_empty x_emp_code
    then err (http_error 401 not_signed_in)
    else elim found [ none ↦ err (http_error 401 unknown_profile) | some person ↦ ok person ]

unfoldable pub require_admin : Employee → Result HttpError Employee
unfolding profile_for
require_admin user =
    if not (is_admin (profile_for user.role)) then err (http_error 403 not_an_approver) else ok user

-- The dependency `AdminUser`.
unfoldable pub admin_user : List Employee → Option Text → Result HttpError Employee
unfolding get_current_employee require_admin
admin_user employees x_emp_code = do
  user ← get_current_employee employees x_emp_code
  require_admin user

pub record CurrentUserResponse : Type 0 where
  pub emp_code : Text
  pub name : Text
  pub email : Text
  pub role : Role
  pub designation : Text
  pub department : Text
  pub profile : Profile
  pub reporting_manager_code : Option Text

unfoldable pub me : Employee → CurrentUserResponse
unfolding profile_for
me user = record {
  emp_code = user.emp_code;
  name = user.name;
  email = user.email;
  role = user.role;
  designation = user.designation;
  department = user.department;
  profile = profile_for user.role;
  reporting_manager_code = user.reporting_manager_code;
}
