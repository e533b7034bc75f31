-- ===== src/Claims/Pipeline/Trip/Version.antt =====
-- Which policy version a draft is built under (`policy_for` of claims/pipeline.py).
use expense_reimbursement_ta.Prelude.{
  suc, ◌≤◌, ◌≡◌, refl, subst, true, false, List, [], ◌∷◌, ◌⊎◌, inl, inr, All, Any, here, there,
  arith, Bool-cases, filter, leb, ltb,
}
use expense_reimbursement_ta.Prelude.Result.{ok, ok_inj}
use expense_reimbursement_ta.Models.{Date}
use expense_reimbursement_ta.Claims.Pipeline.Trip.{
  PolicyVersion, first_version, latest_version, policy_for,
}
use expense_reimbursement_ta.Tables.{TravelRequest}

-- The version is one of the list.
abbrev pub IsOneOf : List PolicyVersion → PolicyVersion → Type 0
IsOneOf versions v = Any (λ w. w ≡ v) versions

-- The second version starts no later than the first, unless it starts after the date.
abbrev pub IsPassed : Date → PolicyVersion → PolicyVersion → Type 0
IsPassed from_date v w = (suc from_date ≤ w.effective_from) ⊎ (w.effective_from ≤ v.effective_from)

past :
    {u v w : PolicyVersion} {rest : List PolicyVersion}
    → IsOneOf (v ∷ rest) u
    → IsOneOf (v ∷ w ∷ rest) u
past (here same) = here same
past (there more) = there (there more)

latest_version-IsOneOf :
    (v : PolicyVersion) (rest : List PolicyVersion) → IsOneOf (v ∷ rest) (latest_version v rest)
unfolding latest_version
latest_version-IsOneOf v [] = here refl
latest_version-IsOneOf v (w ∷ rest) = elim (Bool-cases (ltb v.effective_from w.effective_from)) [
  | inl e ↦ rw e (there (latest_version-IsOneOf w rest))
  | inr e ↦ rw e (past (latest_version-IsOneOf v rest))
]

latest_version_later :
    (v w : PolicyVersion) (rest : List PolicyVersion)
    → ltb v.effective_from w.effective_from ≡ true
    → latest_version w rest ≡ latest_version v (w ∷ rest)
unfolding latest_version
latest_version_later v w rest e = rw e refl

latest_version_same :
    (v w : PolicyVersion) (rest : List PolicyVersion)
    → ltb v.effective_from w.effective_from ≡ false
    → latest_version v rest ≡ latest_version v (w ∷ rest)
unfolding latest_version
latest_version_same v w rest e = rw e refl

latest_version_greatest :
    (v : PolicyVersion) (rest : List PolicyVersion)
    → All (λ w. w.effective_from ≤ (latest_version v rest).effective_from) (v ∷ rest)
unfolding latest_version
latest_version_greatest v [] = (omega arith, tt)
latest_version_greatest v (w ∷ rest) = elim (Bool-cases (ltb v.effective_from w.effective_from)) [
  | inl e ↦
      let (low, more) = latest_version_greatest w rest in
      let less : v.effective_from ≤ w.effective_from = ground (arith, e) in
      subst (λ u. All (λ x. x.effective_from ≤ u.effective_from) (v ∷ w ∷ rest))
        (latest_version_later v w rest e) (omega (arith, low, less), (low, more))
  | inr e ↦
      let (low, more) = latest_version_greatest v rest in
      let less : w.effective_from ≤ v.effective_from = ground (arith, e) in
      subst (λ u. All (λ x. x.effective_from ≤ u.effective_from) (v ∷ w ∷ rest))
        (latest_version_same v w rest e) (low, (omega (arith, low, less), more))
]

-- Those that have begun by the date.
abbrev begun : Date → List PolicyVersion → List PolicyVersion
begun from_date = filter (λ v. leb v.effective_from from_date)

begun_first :
    (from_date : Date) (w v : PolicyVersion) (front rest : List PolicyVersion)
    → w.effective_from ≤ from_date
    → (IsOneOf front v → IsOneOf rest v × (v.effective_from ≤ from_date))
    → IsOneOf (w ∷ front) v
    → IsOneOf (w ∷ rest) v × (v.effective_from ≤ from_date)
begun_first from_date w v front rest low more (here same) =
    (here same, subst (λ u. u.effective_from ≤ from_date) same low)
begun_first from_date w v front rest low more (there h) =
    let (one, before) = more h in (there one, before)

begun_kept :
    (from_date : Date) (versions : List PolicyVersion) (v : PolicyVersion)
    → IsOneOf (begun from_date versions) v
    → IsOneOf versions v × (v.effective_from ≤ from_date)
begun_kept from_date [] v h = elim h [ ]
begun_kept from_date (w ∷ rest) v h = elim (Bool-cases (leb w.effective_from from_date)) [
  | inl e ↦
      let x = rw e at h in
      begun_first from_date w v (begun from_date rest) rest (ground (arith, e))
        (begun_kept from_date rest v) x
  | inr e ↦ let x = rw e at h in let (one, low) = begun_kept from_date rest v x in (there one, low)
]

begun-IsPassed :
    (from_date : Date) (versions : List PolicyVersion) (v : PolicyVersion)
    → All (λ w. w.effective_from ≤ v.effective_from) (begun from_date versions)
    → All (IsPassed from_date v) versions
begun-IsPassed from_date [] v h = tt
begun-IsPassed from_date (w ∷ rest) v h = elim (Bool-cases (leb w.effective_from from_date)) [
  | inl e ↦ let (low, more) = rw e at h in (inr low, begun-IsPassed from_date rest v more)
  | inr e ↦ let x = rw e at h in (inl (ground (arith, e)), begun-IsPassed from_date rest v x)
]

first_version_latest :
    (from_date : Date) (versions : List PolicyVersion) (v : PolicyVersion)
    → first_version from_date versions ≡ ok v
    → IsOneOf versions v × All (λ w. w.effective_from ≤ v.effective_from) versions
unfolding first_version
first_version_latest from_date [] v e = cc
first_version_latest from_date (w ∷ rest) v e =
    let same : latest_version w rest ≡ v = ok_inj e in
    (
      subst (IsOneOf (w ∷ rest)) same (latest_version-IsOneOf w rest),
      subst (λ u. All (λ x. x.effective_from ≤ u.effective_from) (w ∷ rest)) same
          (latest_version_greatest w rest),
    )

-- The version that a trip is judged under has begun by its first day, and no version of the table
-- that has begun by then began later.
pub policy_for_latest :
    (versions : List PolicyVersion) (request : TravelRequest) (v : PolicyVersion)
    → policy_for versions request ≡ ok v
    → IsOneOf versions v
      × (v.effective_from ≤ request.from_date)
      × All (IsPassed request.from_date v) versions
unfolding policy_for
policy_for_latest versions request v e =
    let (one, least) =
      first_version_latest request.from_date (begun request.from_date versions) v e in
    let (among, low) = begun_kept request.from_date versions v one in
    (among, low, begun-IsPassed request.from_date versions v least)
