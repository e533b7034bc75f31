-- ===== src/Evidence/Uploads/Names.antt =====
-- The names of uploaded files (evidence/uploads.py): none leaves the upload directory, and none
-- overwrites a file.
use expense_reimbursement_ta.Prelude.{
  ℕ, zero, suc, ◌≤◌, ◌≡◌, refl, ap, subst, Bool, true, false, [], ◌∷◌, All, arith, Bool-cases, inl,
  inr, length, take, if◌then◌else◌,
}
use expense_reimbursement_ta.Prelude.Result.{ok, ok_inj}
use expense_reimbursement_ta.Prelude.Text.{Text, codes}
use expense_reimbursement_ta.Evidence.Uploads.{
  alternative, base_name, cleaned, is_safe, is_trimmed, numbered, or_upload, safe_name, trim_left,
  trim_right, unique_path,
}

abbrev pub AllSafe : Text → Type 0
AllSafe = All (λ c. is_safe c ≡ true)

-- The name begins with a character that is neither a dot nor an underscore, if it has any.
abbrev pub Begins : Text → Type 0
Begins [] = Unit
Begins (c ∷ _) = is_trimmed c ≡ false

cleaned-AllSafe : (in_run : Bool) (t : Text) → AllSafe (cleaned in_run t)
unfolding cleaned
cleaned-AllSafe in_run [] = tt
cleaned-AllSafe in_run (c ∷ t) = elim (Bool-cases (is_safe c)) [
  | inl a ↦ rw a (a, cleaned-AllSafe false t)
  | inr a ↦ elim (Bool-cases in_run) [
    | inl b ↦ rw (a, b) (cleaned-AllSafe true t)
    | inr b ↦ rw (a, b) (refl, cleaned-AllSafe true t)
  ]
]

trim_left-AllSafe : (t : Text) → AllSafe t → AllSafe (trim_left t) × Begins (trim_left t)
unfolding trim_left
trim_left-AllSafe [] h = (tt, tt)
trim_left-AllSafe (c ∷ t) h = elim (Bool-cases (is_trimmed c)) [
  | inl a ↦ rw a (trim_left-AllSafe t h.1)
  | inr a ↦ rw a (h, a)
]

trim_right_cons :
    (c : ℕ) (t rest : Text)
    → trim_right t ≡ rest
    → AllSafe (c ∷ rest)
    → is_trimmed c ≡ false
    → AllSafe (trim_right (c ∷ t)) × Begins (trim_right (c ∷ t))
unfolding trim_right
trim_right_cons c t [] e h begins = rw (trim_right, e, begins) (h, begins)
trim_right_cons c t (d ∷ s) e h begins = rw (trim_right, e) (h, begins)

trim_right-AllSafe : (t : Text) → AllSafe t → AllSafe (trim_right t)
unfolding trim_right
trim_right-AllSafe [] h = tt
trim_right-AllSafe (c ∷ t) h = with_rest c (trim_right t) h.0 (trim_right-AllSafe t h.1)
  where
    with_rest :
        (c : ℕ) (rest : Text)
        → is_safe c ≡ true
        → AllSafe rest
        → AllSafe (elim rest [ [] ↦ if is_trimmed c then [] else c ∷ [] | d ∷ s ↦ c ∷ d ∷ s ])
    with_rest c [] first h = elim (Bool-cases (is_trimmed c)) [
      | inl a ↦ rw a tt
      | inr a ↦ rw a (first, tt)
    ]
    with_rest c (d ∷ s) first h = (first, h)

trim_right-Begins : (t : Text) → AllSafe t → Begins t → Begins (trim_right t)
unfolding trim_right
trim_right-Begins [] h k = tt
trim_right-Begins (c ∷ t) h k =
    (trim_right_cons c t (trim_right t) refl (h.0, trim_right-AllSafe t h.1) k).1

-- A name of at least one character, all of them safe, whose first is neither a dot nor an underscore.
abbrev IsNamed : Text → Type 0
IsNamed t = (c : ℕ) × (rest : Text) × (t ≡ c ∷ rest) × (is_trimmed c ≡ false) × AllSafe t

or_upload-IsNamed : (t : Text) → AllSafe t → Begins t → IsNamed (or_upload t)
or_upload-IsNamed [] h k =
    (117, codes "pload", refl, refl, (refl, (refl, (refl, (refl, (refl, (refl, tt)))))))
or_upload-IsNamed (c ∷ t) h k = (c, t, refl, k, h)

take-AllSafe : (n : ℕ) (t : Text) → AllSafe t → AllSafe (take n t)
take-AllSafe zero t h = tt
take-AllSafe (suc n) [] h = tt
take-AllSafe (suc n) (c ∷ t) h = (h.0, take-AllSafe n t h.1)

length-take : (n : ℕ) (t : Text) → length (take n t) ≤ n
length-take zero t = omega arith
length-take (suc n) [] = omega arith
length-take (suc n) (c ∷ t) = omega (arith, length-take n t)

-- Whatever a file is called, its cleaned name has from 1 to 120 characters, all of them letters, digits,
-- dots, underscores or dashes, so none that parts a path; and its first is neither a dot nor an
-- underscore. A file of that name may exist: what is stored is then called otherwise.
pub safe_name_lem :
    (filename : Text)
    → (c : ℕ) × (rest : Text) × (safe_name filename ≡ c ∷ rest)
      × (is_trimmed c ≡ false)
      × All (λ d. is_safe d ≡ true) (safe_name filename)
      × (length (safe_name filename) ≤ 120)
unfolding safe_name
safe_name_lem filename =
    let text = cleaned false (base_name filename) in
    let (safe, begins) = trim_left-AllSafe text (cleaned-AllSafe false (base_name filename)) in
    let trimmed = trim_right (trim_left text) in
    let (c, rest, whole, first, all) =
      or_upload-IsNamed trimmed (trim_right-AllSafe (trim_left text) safe)
        (trim_right-Begins (trim_left text) safe begins) in
    (
      c,
      take 119 rest,
      ap (take 120) whole,
      first,
      take-AllSafe 120 (or_upload trimmed) all,
      length-take 120 (or_upload trimmed),
    )

alternative_free :
    (exists : Text → Bool) (name : Text) (left counter : ℕ) (path : Text)
    → alternative exists name left counter ≡ ok path
    → exists path ≡ false
unfolding alternative
alternative_free exists name zero counter path e = cc
alternative_free exists name (suc left) counter path e =
    elim (Bool-cases (exists (numbered name counter))) [
      | inl a ↦ let x = rw a at e in alternative_free exists name left (suc counter) path x
      | inr a ↦
          let x = rw a at e in
          let same : numbered name counter ≡ path = ok_inj x in subst (λ p. exists p ≡ false) same a
    ]

-- The path that an upload gets is not one that exists.
pub unique_path_free :
    (exists : Text → Bool) (name path : Text)
    → unique_path exists name ≡ ok path
    → exists path ≡ false
unfolding unique_path
unique_path_free exists name path e = elim (Bool-cases (exists name)) [
  | inl a ↦ let x = rw a at e in alternative_free exists name 999 1 path x
  | inr a ↦
      let x = rw a at e in let same : name ≡ path = ok_inj x in subst (λ p. exists p ≡ false) same a
]
