-- ===== src/Queue/Claim/Batch.antt =====
-- How many rows a batch claim of src/commands/enrich/queue_ops.rs takes, and which.
use sqlite_graphrag.Base.{◌≢◌, List, [], ◌∷◌, All}
use sqlite_graphrag.Queue.{Row, Queue}

abbrev Apart : Row → Row → Type 0
Apart r s = r.id ≢ s.id

abbrev Distinct : List Row → Type 0
Distinct [] = Unit
Distinct (r ∷ rs) = All (Apart r) rs × Distinct rs
