-- ===== src/Evidence/Uploads/Stored.antt =====
-- The names under which uploads are stored, whatever files exist (`_unique_path` of
-- evidence/uploads.py).
use expense_reimbursement_ta.Prelude.{
  ℕ, zero, suc, ◌+◌, ◌≤◌, ◌<◌, ◌≡◌, refl, sym, ap, ◌∙◌, subst, Bool, true, false, [], ◌∷◌, ◌++◌,
  append-nil, append_assoc, All, All-append, all, arith, Bool-cases, inl, inr, length,
  length-append, leb, ◌==◌,
}
use expense_reimbursement_ta.Prelude.Decimals.{all-decimal, decimal, length-decimal}
use expense_reimbursement_ta.Prelude.Result.{ok, ok_inj}
use expense_reimbursement_ta.Prelude.Text.{Text, codes, is_digit, is_empty}
use expense_reimbursement_ta.Evidence.Uploads.{
  alternative, is_safe, is_trimmed, numbered, safe_name, split_at_dot, stem_and_suffix, unique_path,
}
use expense_reimbursement_ta.Evidence.Uploads.Names.{AllSafe, safe_name_lem, unique_path_free}

-- The two parts make up the whole, and the first begins with the character.
abbrev IsCut : ℕ → Text → Text × Text → Type 0
IsCut c whole parts = (rest : Text) × (parts.0 ≡ c ∷ rest) × (parts.0 ++ parts.1 ≡ whole)

front-IsCut :
    (c : ℕ) (f word t whole : Text)
    → c ∷ (f ++ word ++ t) ≡ whole
    → IsCut c whole (split_at_dot (c ∷ f) word t)
unfolding split_at_dot is_empty
front-IsCut c f word [] whole e = elim (Bool-cases (leb (length word) 1)) [
  | inl a ↦ rw a (f ++ word, refl, e)
  | inr a ↦ rw a (f, refl, ap (λ x. c ∷ x) (sym (append-nil (f ++ word))) ∙ e)
]
front-IsCut c f word (d ∷ t) whole e = elim (Bool-cases (d == b'.')) [
  | inl a ↦ rw a (
      front-IsCut c (f ++ word) (d ∷ []) t whole
        (ap (λ x. c ∷ x) (append_assoc (f ++ word) (d ∷ []) t) ∙ e))
  | inr a ↦ rw a (
      front-IsCut c f (word ++ d ∷ []) t whole (
        ap (λ x. c ∷ (x ++ t)) (sym (append_assoc f word (d ∷ [])))
        ∙ ap (λ x. c ∷ x) (append_assoc (f ++ word) (d ∷ []) t)
        ∙ e))
]

word-IsCut :
    (c : ℕ) (w t whole : Text) → c ∷ (w ++ t) ≡ whole → IsCut c whole (split_at_dot [] (c ∷ w) t)
unfolding split_at_dot is_empty
word-IsCut c w [] whole e = (w, refl, e)
word-IsCut c w (d ∷ t) whole e =
    let next = ap (λ x. c ∷ x) (append_assoc w (d ∷ []) t) ∙ e in
    elim (Bool-cases (d == b'.')) [
      | inl a ↦ rw a (front-IsCut c w (d ∷ []) t whole next)
      | inr a ↦ rw a (word-IsCut c (w ++ d ∷ []) t whole next)
    ]

no_dot : (c : ℕ) → is_trimmed c ≡ false → (c == b'.') ≡ false
no_dot c h = ground (arith, h)

stem_and_suffix-IsCut :
    (c : ℕ) (t : Text) → is_trimmed c ≡ false → IsCut c (c ∷ t) (stem_and_suffix (c ∷ t))
unfolding stem_and_suffix split_at_dot
stem_and_suffix-IsCut c t begins = rw (no_dot c begins) (word-IsCut c [] t (c ∷ t) refl)

All-left : (s t : Text) → AllSafe (s ++ t) → AllSafe s
All-left [] t h = tt
All-left (c ∷ s) t h = (h.0, All-left s t h.1)

All-right : (s t : Text) → AllSafe (s ++ t) → AllSafe t
All-right [] t h = h
All-right (c ∷ s) t h = All-right s t h.1

digits-AllSafe : (t : Text) → all is_digit t ≡ true → AllSafe t
digits-AllSafe [] h = tt
digits-AllSafe (c ∷ t) h = elim (Bool-cases (is_digit c)) [
  | inl a ↦ let x = rw a at h in (ground (arith, a), digits-AllSafe t x)
  | inr a ↦ let x = rw a at h in cc
]

-- A name of safe characters that begins with neither a dot nor an underscore, and its length.
abbrev IsStored : ℕ → Text → Type 0
IsStored limit name =
    (c : ℕ) × (rest : Text) × (name ≡ c ∷ rest)
    × (is_trimmed c ≡ false)
    × AllSafe name
    × (length name ≤ limit)

numbered-IsStored :
    (c : ℕ) (t : Text) (counter : ℕ)
    → is_trimmed c ≡ false
    → AllSafe (c ∷ t)
    → length (c ∷ t) ≤ 120
    → counter < 1000
    → IsStored 124 (numbered (c ∷ t) counter)
unfolding numbered
numbered-IsStored c t counter begins safe short small =
    let (rest, first, whole) = stem_and_suffix-IsCut c t begins in
    let stem = (stem_and_suffix (c ∷ t)).0 in
    let suffix = (stem_and_suffix (c ∷ t)).1 in
    let parts : AllSafe (stem ++ suffix) = subst AllSafe (sym whole) safe in
    let digits = digits-AllSafe (decimal counter) (all-decimal counter) in
    let total : length stem + length suffix ≡ length (c ∷ t) =
      sym (length-append stem suffix) ∙ ap length whole in
    let dash = stem ++ codes "-" in
    let dashed = length-append stem (codes "-") in
    let to_digits = length-append dash (decimal counter) in
    let long = length-append (dash ++ decimal counter) suffix in
    let three = length-decimal counter small in
    let P = λ (d : ℕ). is_safe d ≡ true in
    (
      c,
      rest ++ codes "-" ++ decimal counter ++ suffix,
      ap (λ s. s ++ codes "-" ++ decimal counter ++ suffix) first,
      begins,
      All-append P (dash ++ decimal counter) suffix
          (All-append P dash (decimal counter)
            (All-append P stem (codes "-") (All-left stem suffix parts) (refl, tt)) digits)
          (All-right stem suffix parts),
      omega (arith, total, dashed, to_digits, long, three, short),
    )

alternative-IsStored :
    (exists : Text → Bool) (c : ℕ) (t : Text) (left counter : ℕ) (path : Text)
    → is_trimmed c ≡ false
    → AllSafe (c ∷ t)
    → length (c ∷ t) ≤ 120
    → counter + left ≤ 1000
    → alternative exists (c ∷ t) left counter ≡ ok path
    → IsStored 124 path
unfolding alternative
alternative-IsStored exists c t zero counter path begins safe short room e = cc
alternative-IsStored exists c t (suc left) counter path begins safe short room e =
    elim (Bool-cases (exists (numbered (c ∷ t) counter))) [
      | inl a ↦
          let x = rw a at e in
          alternative-IsStored exists c t left (suc counter) path begins safe short
            (omega (arith, room)) x
      | inr a ↦
          let x = rw a at e in
          subst (IsStored 124) (ok_inj x)
            (numbered-IsStored c t counter begins safe short (omega (arith, room)))
    ]

unique_path-IsStored :
    (exists : Text → Bool) (name path : Text)
    → IsStored 120 name
    → unique_path exists name ≡ ok path
    → IsStored 124 path
unfolding unique_path
unique_path-IsStored exists name path (c, rest, same, begins, safe, short) e =
    elim (Bool-cases (exists name)) [
      | inl a ↦
          let x = rw a at e in
          alternative-IsStored exists c rest 999 1 path begins (subst AllSafe same safe)
            (subst (λ n. length n ≤ 120) same short) (omega arith)
            (subst (λ n. alternative exists n 999 1 ≡ ok path) same x)
      | inr a ↦
          let x = rw a at e in
          subst (IsStored 124) (ok_inj x) (c, rest, same, begins, safe, omega (arith, short))
    ]

-- Whatever a file is called and whatever files exist, the name that an upload is stored under is of no
-- file that exists and has from 1 to 124 characters, 120 of its own and up to 4 that tell it apart;
-- they are letters, digits, dots, underscores or dashes, so none of them parts a path, and the first
-- is neither a dot nor an underscore.
pub stored_name_lem :
    (exists : Text → Bool) (filename path : Text)
    → unique_path exists (safe_name filename) ≡ ok path
    → (exists path ≡ false)
      × (c : ℕ) × (rest : Text) × (path ≡ c ∷ rest)
      × (is_trimmed c ≡ false)
      × All (λ d. is_safe d ≡ true) path
      × (length path ≤ 124)
stored_name_lem exists filename path e =
    let (c, rest, same, begins, safe, short) =
      unique_path-IsStored exists (safe_name filename) path (safe_name_lem filename) e in
    (unique_path_free exists (safe_name filename) path e, c, rest, same, begins, safe, short)
