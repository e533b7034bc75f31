-- ===== src/Approvals/Routing/Chain.antt =====
-- The approval chain (`resolve_chain` of approvals/routing.py).
use expense_reimbursement_ta.Prelude.{
  ℕ, suc, ◌+◌, ◌≡◌, ◌≢◌, ◌⊎◌, refl, sym, Bool, true, false, none, some, List, [], ◌∷◌, ◌++◌, map,
  arith, length, find, All, if◌then◌else◌, Bool-cases, Option-cases, inl, inr,
}
use expense_reimbursement_ta.Prelude.Int.{ℤ}
use expense_reimbursement_ta.Prelude.Result.{ok, bind_ok, ok_inj}
use expense_reimbursement_ta.Models.{Role, same_role, same_role→eq}
use expense_reimbursement_ta.Policy.Params.{Node}
use expense_reimbursement_ta.Approvals.Routing.{
  EmployeeRef, ChainStep, Directory, ancestors, max_depth, level, levels, required_roles,
  roles_for_value, resolve_chain, finance_step, finance_always,
}
use expense_reimbursement_ta.Approvals.Routing.Line.{IsKeyed, ancestors_sound}

-- A step of a business level: its approver holds the role and is not the claimant, or the step
-- says that the level is skipped.
abbrev pub IsLevel : EmployeeRef → ChainStep → Type 0
IsLevel claimant step =
    (step.approver ≡ none) × (step.note ≢ none)
    ⊎ (person : EmployeeRef) × (step.approver ≡ some person)
      × (person.role ≡ step.role)
      × (person.emp_code ≢ claimant.emp_code)

-- The steps are numbered from a number on.
abbrev pub Numbered : ℕ → List ChainStep → Type 0
Numbered n [] = Unit
Numbered n (s ∷ rest) = (s.sequence ≡ n) × Numbered (suc n) rest

find_holds :
    (P : EmployeeRef → Type 0) (test : EmployeeRef → Bool) (line : List EmployeeRef)
    (person : EmployeeRef)
    → All P line
    → find test line ≡ some person
    → P person × (test person ≡ true)
find_holds P test [] person h e = cc
find_holds P test (p ∷ rest) person h e = elim (Bool-cases (test p)) [
  | inl a ↦ let same : p ≡ person = let x = rw a at e in cc in rw (← same) (h.0, a)
  | inr a ↦ find_holds P test rest person h.1 (rw a at e)
]

module _ (claimant : EmployeeRef) (line : List EmployeeRef)
    (others : All (λ p. p.emp_code ≢ claimant.emp_code) line) where
  level-IsLevel :
      (n : ℕ) (role : Role)
      → IsLevel claimant (level claimant line n role)
        × ((level claimant line n role).sequence ≡ n)
        × ((level claimant line n role).role ≡ role)
  unfolding level
  level-IsLevel n role = elim (Option-cases (find (λ person. same_role person.role role) line)) [
    | inl e ↦ rw (e, level) (inl (refl, λ q. cc), refl, refl)
    | inr (p, e) ↦
        let (other, fits) =
          find_holds (λ q. q.emp_code ≢ claimant.emp_code) (λ person. same_role person.role role)
            line p others e in
        rw (e, level) (inr (p, refl, same_role→eq p.role role fits, other), refl, refl)
  ]

  levels-IsLevel :
      (n : ℕ) (roles : List Role)
      → All (IsLevel claimant) (levels claimant line n roles)
        × Numbered n (levels claimant line n roles)
        × (map (λ s. s.role) (levels claimant line n roles) ≡ roles)
  unfolding levels
  levels-IsLevel n [] = (tt, tt, refl)
  levels-IsLevel n (role ∷ roles) =
      let (here, number, named) = level-IsLevel n role in
      let (all, numbers, names) = levels-IsLevel (suc n) roles in
      ((here, all), (number, numbers), cc)

Numbered-append :
    (n : ℕ) (steps : List ChainStep) (s : ChainStep)
    → Numbered n steps
    → s.sequence ≡ length steps + n
    → Numbered n (steps ++ s ∷ [])
Numbered-append n [] s h e = (omega arith, tt)
Numbered-append n (t ∷ steps) s h e = (h.0, Numbered-append (suc n) steps s h.1 (omega arith))

Numbered-if :
    (test : Bool) (steps : List ChainStep) (s : ChainStep)
    → Numbered 1 steps
    → s.sequence ≡ length steps + 1
    → Numbered 1 (if test then steps ++ s ∷ [] else steps)
Numbered-if true steps s h e = Numbered-append 1 steps s h e
Numbered-if false steps s h e = h

-- From a directory that files each person under their own code, a resolved chain has a level for each role that the claim's value requires, in that order, none
-- of them decided by the claimant, and behind them, if the policy asks for it, the Finance step.
-- The steps are numbered from 1.
pub resolve_chain_sound :
    (value : ℤ) (claimant : EmployeeRef) (directory : Directory) (params : Node)
    (international : Bool) (steps : List ChainStep)
    → IsKeyed directory
    → resolve_chain value claimant directory params international ≡ ok steps
    → (banded : List Role) × (business : List ChainStep) × (roles_for_value value params
        ≡ ok banded)
      × (map (λ s. s.role) business ≡ required_roles international params banded)
      × All (IsLevel claimant) business
      × Numbered 1 steps
      × (steps ≡ (
          if finance_always params
          then business ++ finance_step (length business + 1) directory ∷ []
          else business))
unfolding resolve_chain finance_step
resolve_chain_sound value claimant directory params international steps keyed e =
    let (banded, found, e2) = bind_ok (roles_for_value value params) _ steps e in
    let (line, walked, e3) = bind_ok (ancestors claimant directory max_depth) _ steps e2 in
    let (others, _, _) = ancestors_sound claimant directory max_depth line keyed walked in
    let required = required_roles international params banded in
    let business = levels claimant line 1 required in
    let (sound, numbers, named) = levels-IsLevel claimant line others 1 required in
    let step = finance_step (length business + 1) directory in
    let same = ok_inj e3 in
    (
      banded,
      business,
      found,
      named,
      sound,
      rw (← same) (Numbered-if (finance_always params) business step numbers refl),
      sym same,
    )
