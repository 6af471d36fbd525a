-- ===== src/Labels/Trim.antt =====
-- The texts' equality, and the trimming of src/parsers/mod.rs.
use sqlite_graphrag.Base.{
  ℕ, ◌≡◌, refl, ap, ◌∙◌, ◌↔◌, ◌⊎◌, inl, inr, Bool, true, false, [], ◌∷◌, ==_iff, arith, Bool-cases,
  All,
}
use sqlite_graphrag.Labels.{
  Label, label_eq, is_hyphen, hyphen, collapse, trim_start, trim_end, keep_before,
}

pub label_eq-true : (s t : Label) → label_eq s t ≡ true → s ≡ t
unfolding label_eq
label_eq-true [] [] h = refl
label_eq-true [] (d ∷ t) h = ground arith
label_eq-true (c ∷ s) [] h = ground arith
label_eq-true (c ∷ s) (d ∷ t) h =
    let same : c ≡ d = ground arith in rw (same, label_eq-true s t (ground arith)) refl

pub label_eq_self : (s : Label) → label_eq s s ≡ true
unfolding label_eq
label_eq_self [] = refl
label_eq_self (c ∷ s) = let now = (==_iff c c).1 refl in rw (now, label_eq_self s) refl

pub label_eq_iff : (s t : Label) → (label_eq s t ≡ true) ↔ (s ≡ t)
label_eq_iff s t = (label_eq-true s t, λ e. rw e (label_eq_self t))

-- The lists that trimming and collapsing produce: a hyphen stands neither first, where the flag
-- says that one went before, nor after another.
abbrev pub IsTidy : Bool → Label → Type 0
IsTidy prev [] = Unit
IsTidy prev (c ∷ s) = ((is_hyphen c ≡ true) → prev ≡ false) × IsTidy (is_hyphen c) s

pub collapse-IsTidy : (prev : Bool) (s : Label) → IsTidy prev (collapse prev s)
unfolding collapse
collapse-IsTidy prev [] = tt
collapse-IsTidy prev (c ∷ s) = elim (Bool-cases (is_hyphen c)) [
  | inr e ↦ rw e (λ f. absurd (ground arith), rw e (rw (← e) (collapse-IsTidy (is_hyphen c) s)))
  | inl e ↦ elim (Bool-cases prev) [
    | inl f ↦ rw (e, f) (collapse-IsTidy true s)
    | inr f ↦ rw (e, f) (λ q. refl, collapse-IsTidy true s)
  ]
]

pub collapse-IsTidy_id : (prev : Bool) (s : Label) → IsTidy prev s → collapse prev s ≡ s
unfolding collapse
collapse-IsTidy_id prev [] h = refl
collapse-IsTidy_id prev (c ∷ s) h =
    let rest = collapse-IsTidy_id (is_hyphen c) s h.1 in
    elim (Bool-cases (is_hyphen c)) [
      | inr e ↦ let later : collapse false s ≡ s = rw (← e) rest in rw (e, later) refl
      | inl e ↦
          let later : collapse true s ≡ s = rw (← e) rest in
          let first = h.0 e in let same = (==_iff c hyphen).0 e in rw (e, first, later, same) refl
    ]

pub IsTidy-weaken : (prev : Bool) (s : Label) → IsTidy true s → IsTidy prev s
IsTidy-weaken prev [] h = tt
IsTidy-weaken prev (c ∷ s) h = (λ e. let never = h.0 e in absurd (ground arith), h.1)

pub trim_start-IsTidy :
    (prev : Bool) (s : Label) → IsTidy prev s → IsTidy true (trim_start is_hyphen s)
unfolding trim_start
trim_start-IsTidy prev [] h = tt
trim_start-IsTidy prev (c ∷ s) h = elim (Bool-cases (is_hyphen c)) [
  | inl e ↦ rw e (trim_start-IsTidy (is_hyphen c) s h.1)
  | inr e ↦ rw e (λ f. absurd (ground arith), h.1)
]

pub trim_start-IsTidy_id : (s : Label) → IsTidy true s → trim_start is_hyphen s ≡ s
unfolding trim_start
trim_start-IsTidy_id [] h = refl
trim_start-IsTidy_id (c ∷ s) h = elim (Bool-cases (is_hyphen c)) [
  | inl e ↦ let never = h.0 e in absurd (ground arith)
  | inr e ↦ rw e refl
]

keep_before-cases :
    (b : Bool) (c : ℕ) (t : Label) → (keep_before b c t ≡ []) ⊎ (keep_before b c t ≡ c ∷ t)
keep_before-cases true c [] = inl refl
keep_before-cases true c (d ∷ t) = inr refl
keep_before-cases false c t = inr refl

pub trim_end-IsTidy : (prev : Bool) (s : Label) → IsTidy prev s → IsTidy prev (trim_end is_hyphen s)
unfolding trim_end
trim_end-IsTidy prev [] h = tt
trim_end-IsTidy prev (c ∷ s) h = elim (keep_before-cases (is_hyphen c) c (trim_end is_hyphen s)) [
  | inl e ↦ rw e tt
  | inr e ↦ rw e (h.0, trim_end-IsTidy (is_hyphen c) s h.1)
]

pub trim_end_idem : (p : ℕ → Bool) (s : Label) → trim_end p (trim_end p s) ≡ trim_end p s
unfolding trim_end
trim_end_idem p [] = refl
trim_end_idem p (c ∷ s) = elim (keep_before-cases (p c) c (trim_end p s)) [
  | inl e ↦ rw e refl
  | inr e ↦ ap (λ t. trim_end p t) e ∙ ap (λ t. keep_before (p c) c t) (trim_end_idem p s)
]

-- What holds of every character holds after the trimming.
module _ (P : ℕ → Type 0) where
  pub trim_start-All : (p : ℕ → Bool) (s : Label) → All P s → All P (trim_start p s)
  unfolding trim_start
  trim_start-All p [] h = tt
  trim_start-All p (c ∷ s) h = elim (Bool-cases (p c)) [
    | inl e ↦ rw e (trim_start-All p s h.1)
    | inr e ↦ rw e h
  ]

  pub trim_end-All : (p : ℕ → Bool) (s : Label) → All P s → All P (trim_end p s)
  unfolding trim_end
  trim_end-All p [] h = tt
  trim_end-All p (c ∷ s) h = elim (keep_before-cases (p c) c (trim_end p s)) [
    | inl e ↦ rw e tt
    | inr e ↦ rw e (h.0, trim_end-All p s h.1)
  ]

  pub collapse-All : (prev : Bool) (s : Label) → P hyphen → All P s → All P (collapse prev s)
  unfolding collapse
  collapse-All prev [] q h = tt
  collapse-All prev (c ∷ s) q h =
      let rest = collapse-All (is_hyphen c) s q h.1 in
      elim (Bool-cases (is_hyphen c)) [
        | inr e ↦ rw e (h.0, rw (← e) rest)
        | inl e ↦
            let later : All P (collapse true s) = rw (← e) rest in
            elim (Bool-cases prev) [ inl f ↦ rw (e, f) later | inr f ↦ rw (e, f) (q, later) ]
      ]
