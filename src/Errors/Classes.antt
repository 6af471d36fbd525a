-- ===== src/Errors/Classes.antt =====
-- The retry classes of src/errors.rs against each other, the exit codes and the enrich classifier.
use sqlite_graphrag.Base.{
  ◌≡◌, refl, ◌↔◌, ◌⊎◌, Bool, true, false, String, arith, eq_iff, if◌then◌else◌,
}
use sqlite_graphrag.Retry.{hard_failure}
use sqlite_graphrag.Errors.{
  AppError, exit_code, is_retryable, is_permanent, error_class, classify_enrich_outcome,
}

disjoint : (e : AppError) → is_retryable e ≡ true → is_permanent e ≡ false
unfolding is_retryable is_permanent
disjoint e h = ground arith

class_of : Bool → Bool → String
class_of r p = if r then "transient" else if p then "permanent" else "ambiguous"

class_of_lem :
    (r p : Bool)
    → (r ≡ true → p ≡ false)
    → ((class_of r p ≡ "transient") ↔ (r ≡ true)) × ((class_of r p ≡ "permanent") ↔ (p ≡ true))
unfolding class_of
class_of_lem true true h = cc (h refl)
class_of_lem true false h =
    ((λ _. refl, λ _. refl), (λ e. cc ((eq_iff "transient" "permanent").1 e), λ e. cc))
class_of_lem false true h =
    ((λ e. cc ((eq_iff "permanent" "transient").1 e), λ e. cc), (λ _. refl, λ _. refl))
class_of_lem false false h = (
  (λ e. cc ((eq_iff "ambiguous" "transient").1 e), λ e. cc),
  (λ e. cc ((eq_iff "ambiguous" "permanent").1 e), λ e. cc),
)

-- `error_class` says "transient" if and only if `is_retryable` holds, and "permanent" if and only
-- if `is_permanent` holds; the two predicates never hold together.
pub error_class_iff :
    (e : AppError)
    → ((error_class e ≡ "transient") ↔ (is_retryable e ≡ true))
      × ((error_class e ≡ "permanent") ↔ (is_permanent e ≡ true))
      × ¬ ((is_retryable e ≡ true) × (is_permanent e ≡ true))
unfolding error_class class_of
error_class_iff e =
    let (t, p) = class_of_lem (is_retryable e) (is_permanent e) (disjoint e) in
    (t, p, λ (r, q). cc (disjoint e r))

-- The exit codes 15, 75 and 77 are exactly those of retryable errors alone: an error with one of
-- them is retryable, and a retryable error has one of them, or the code 1 or 4 that it shares with
-- permanent errors.
pub exit_code-is_retryable :
    (e : AppError)
    → ((exit_code e ≡ 15) ⊎ (exit_code e ≡ 75) ⊎ (exit_code e ≡ 77) → is_retryable e ≡ true)
      × (is_retryable e ≡ true
          → (exit_code e ≡ 15)
            ⊎ (exit_code e ≡ 75)
            ⊎ (exit_code e ≡ 77)
            ⊎ (exit_code e ≡ 1)
            ⊎ (exit_code e ≡ 4))
unfolding exit_code is_retryable
exit_code-is_retryable e = (λ h. ground arith, λ h. ground arith)

-- Against the queue's classifier: a permanent error is always a hard failure, and a retryable
-- error is a hard failure only if it is one of host contention, with exit code 75 or 77.
pub classify_coherent :
    (e : AppError)
    → (is_permanent e ≡ true → classify_enrich_outcome e ≡ hard_failure)
      × (is_retryable e ≡ true
          → classify_enrich_outcome e ≡ hard_failure
          → (exit_code e ≡ 75) ⊎ (exit_code e ≡ 77))
unfolding is_permanent is_retryable classify_enrich_outcome exit_code
classify_coherent e = (λ h. ground arith, λ h k. ground arith)
