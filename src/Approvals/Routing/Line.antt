-- ===== src/Approvals/Routing/Line.antt =====
-- The reporting line (`ancestors` of approvals/routing.py).
use expense_reimbursement_ta.Prelude.{
  ℕ, zero, suc, ◌≤◌, ◌≡◌, ◌≢◌, refl, false, Option, none, some, List, [], ◌∷◌, arith, length, All,
  Bool-cases, Option-cases, inl, inr, All-imp,
}
use expense_reimbursement_ta.Prelude.Text.{
  Text, text_eq, text_eq→eq, text_eq_refl, is_member, is_empty,
}
use expense_reimbursement_ta.Prelude.Result.{Result, ok, err, ◌>>=◌}
use expense_reimbursement_ta.Approvals.Routing.{
  EmployeeRef, Directory, RoutingError, employee, directory_of, walk, ancestors,
}

-- Every person is found under a code that `seen` lacks, and the later ones under yet other codes.
abbrev pub IsLine : Directory → List Text → List EmployeeRef → Type 0
IsLine directory seen [] = Unit
IsLine directory seen (person ∷ rest) =
    (code : Text) × (employee code directory ≡ some person)
    × (is_member code seen ≡ false)
    × IsLine directory (code ∷ seen) rest

stop-IsLine :
    (directory : Directory) (seen : List Text) {room : ℕ} (line : List EmployeeRef)
    → ◌≡◌ {A = Result RoutingError (List EmployeeRef)} (ok []) (ok line)
    → IsLine directory seen line × (length line ≤ room)
stop-IsLine directory seen [] e = (tt, omega arith)
stop-IsLine directory seen (p ∷ line) e = cc

cons_of_bind :
    (p : EmployeeRef) (r : Result RoutingError (List EmployeeRef)) (line : List EmployeeRef)
    → (r >>= λ rest. ok (p ∷ rest)) ≡ ok line
    → (rest : List EmployeeRef) × (r ≡ ok rest) × (line ≡ p ∷ rest)
cons_of_bind p (ok rest) line e = (rest, refl, cc)
cons_of_bind p (err x) line e = cc

module _ (claimant : Text) (directory : Directory) where
  walk-IsLine :
      (room : ℕ) (code : Option Text) (seen : List Text) (line : List EmployeeRef)
      → walk claimant directory room code seen ≡ ok line
      → IsLine directory seen line × (length line ≤ room)
  unfolding walk
  walk-IsLine zero code seen [] e = (tt, omega arith)
  walk-IsLine zero code seen (p ∷ line) e = cc
  walk-IsLine (suc room) none seen [] e = (tt, omega arith)
  walk-IsLine (suc room) none seen (p ∷ line) e = cc
  walk-IsLine (suc room) (some code) seen line e = elim (Bool-cases (is_empty code)) [
    | inl a ↦ stop-IsLine directory seen line (rw a at e)
    | inr a ↦ elim (Bool-cases (is_member code seen)) [
      | inl b ↦ let x = rw (a, b) at e in cc
      | inr b ↦ elim (Option-cases (employee code directory)) [
        | inl c ↦ let x = rw (a, b, c) at e in cc
        | inr (p, c) ↦
            let (rest, walked, same) =
              cons_of_bind p (walk claimant directory room p.reporting_manager_code (code ∷ seen))
                line (rw (a, b, c) at e) in
            let (sound, short) =
              walk-IsLine room p.reporting_manager_code (code ∷ seen) rest walked in
            rw same ((code, c, b, sound), omega arith)
      ]
    ]
  ]

-- The directory files each person under their own code.
abbrev pub IsKeyed : Directory → Type 0
IsKeyed directory =
    (code : Text) (person : EmployeeRef)
    → employee code directory ≡ some person
    → person.emp_code ≡ code

-- Whoever the directory of an employee table files under a code has that code.
pub directory_of-IsKeyed : (people : List EmployeeRef) → IsKeyed (directory_of people)
unfolding directory_of employee
directory_of-IsKeyed [] code person e = cc
directory_of-IsKeyed (p ∷ people) code person e = elim (Bool-cases (text_eq p.emp_code code)) [
  | inl a ↦
      let same : p ≡ person = let x = rw a at e in cc in rw (← same) (text_eq→eq p.emp_code code a)
  | inr a ↦ directory_of-IsKeyed people code person (rw a at e)
]

not_member :
    (code other : Text) (seen : List Text)
    → is_member code (other ∷ seen) ≡ false
    → (code ≢ other) × (is_member code seen ≡ false)
unfolding is_member
not_member code other seen h = (λ e. ground (arith, text_eq_refl other), ground arith)

line_fresh :
    (directory : Directory) (seen : List Text) (line : List EmployeeRef)
    → IsKeyed directory
    → IsLine directory seen line
    → All (λ p. is_member p.emp_code seen ≡ false) line
line_fresh directory seen [] keyed h = tt
line_fresh directory seen (p ∷ rest) keyed (code, found, fresh, more) = (
  rw (keyed code p found) fresh,
  All-imp rest (λ q far. (not_member q.emp_code code seen far).1)
      (line_fresh directory (code ∷ seen) rest keyed more),
)

-- No code twice.
abbrev pub NoRepeat : List EmployeeRef → Type 0
NoRepeat [] = Unit
NoRepeat (p ∷ rest) = All (λ q. q.emp_code ≢ p.emp_code) rest × NoRepeat rest

line-NoRepeat :
    (directory : Directory) (seen : List Text) (line : List EmployeeRef)
    → IsKeyed directory
    → IsLine directory seen line
    → NoRepeat line
line-NoRepeat directory seen [] keyed h = tt
line-NoRepeat directory seen (p ∷ rest) keyed (code, found, fresh, more) = (
  rw (keyed code p found) (
      All-imp rest (λ q far. (not_member q.emp_code code seen far).0)
        (line_fresh directory (code ∷ seen) rest keyed more)),
  line-NoRepeat directory (code ∷ seen) rest keyed more,
)

-- From a directory that files each person under their own code, a reporting line that is returned
-- never holds the claimant nor anyone twice, and is no longer
-- than the depth allows.
pub ancestors_sound :
    (claimant : EmployeeRef) (directory : Directory) (depth : ℕ) (line : List EmployeeRef)
    → IsKeyed directory
    → ancestors claimant directory depth ≡ ok line
    → All (λ p. p.emp_code ≢ claimant.emp_code) line × NoRepeat line × (length line ≤ depth)
unfolding ancestors
ancestors_sound claimant directory depth line keyed e =
    let (sound, short) =
      walk-IsLine claimant.emp_code directory depth claimant.reporting_manager_code
        (claimant.emp_code ∷ []) line e in
    (
      All-imp line (λ q far. (not_member q.emp_code claimant.emp_code [] far).0)
          (line_fresh directory (claimant.emp_code ∷ []) line keyed sound),
      line-NoRepeat directory (claimant.emp_code ∷ []) line keyed sound,
      short,
    )
