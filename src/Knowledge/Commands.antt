-- ===== src/Knowledge/Commands.antt =====
-- Histories of the commands on the graph: src/commands/link.rs, unlink.rs, delete_entity.rs and
-- prune_relations.rs.
use sqlite_graphrag.Base.{ℕ, ◌≡◌, String, Bool, false, Option, List, [], ◌∷◌, All, Result, ok, err}
use sqlite_graphrag.Errors.{AppError}
use sqlite_graphrag.Labels.{Label}
use sqlite_graphrag.Knowledge.{Db, Platform}
use sqlite_graphrag.Knowledge.Link.{LinkArgs, link}
use sqlite_graphrag.Knowledge.Unlink.{UnlinkArgs, unlink}
use sqlite_graphrag.Knowledge.DeleteEntity.{delete_entity}
use sqlite_graphrag.Knowledge.Prune.{prune_relations}
use sqlite_graphrag.Knowledge.Good.{IsGood, Holds}
use sqlite_graphrag.Knowledge.LinkGood.{link-IsGood}
use sqlite_graphrag.Knowledge.UnlinkGood.{unlink-IsGood, prune_relations-IsGood}
use sqlite_graphrag.Knowledge.DeleteGood.{delete_entity-IsGood}

pub data Command : Type 0 where
  link_ends : LinkArgs → Command
  unlink_ends : UnlinkArgs → Command
  delete_one : (cascade : Bool) → Label → Command
  prune : (dry_run confirmed : Bool) → Label → Command

-- A refused command is rolled back.
abbrev pub settle : {A : Type 0} → Db → Result AppError (A × Db) → Db
settle db (ok (a, db')) = db'
settle db (err e) = db

unfoldable pub run : Platform → (String → String → Option ℕ) → String → Command → Db → Db
run platform memory_id namespace (link_ends args) db = settle db (link platform namespace args db)
run platform memory_id namespace (unlink_ends args) db =
    settle db (unlink platform memory_id namespace args db)
run platform memory_id namespace (delete_one cascade name) db =
    settle db (delete_entity platform namespace cascade name db)
run platform memory_id namespace (prune dry_run confirmed relation) db =
    (prune_relations dry_run confirmed namespace relation db).1

-- Commands in any namespaces, one after the other.
unfoldable pub history : Platform → (String → String → Option ℕ) → List (String × Command) → Db → Db
unfolding run
history platform memory_id [] db = db
history platform memory_id ((namespace, command) ∷ later) db =
    history platform memory_id later (run platform memory_id namespace command db)

-- Every command but `unlink --entity --all`.
abbrev pub Recalculates : String × Command → Type 0
Recalculates (namespace, unlink_ends args) = args.all_of_entity ≡ false
Recalculates _ = Unit

settle-IsGood :
    {A : Type 0} (db : Db) (r : Result AppError (A × Db))
    → IsGood db
    → Holds (λ x. IsGood x.1) r
    → IsGood (settle db r)
settle-IsGood db (ok (a, db')) good h = h
settle-IsGood db (err e) good h = good

run-IsGood :
    (platform : Platform) (memory_id : String → String → Option ℕ) (namespace : String)
    (command : Command) (db : Db)
    → Recalculates (namespace, command)
    → IsGood db
    → IsGood (run platform memory_id namespace command db)
unfolding run
run-IsGood platform memory_id namespace (link_ends args) db c good =
    settle-IsGood db (link platform namespace args db) good
      (link-IsGood platform namespace args db good)
run-IsGood platform memory_id namespace (unlink_ends args) db c good =
    settle-IsGood db (unlink platform memory_id namespace args db) good
      (unlink-IsGood platform memory_id namespace args db c good)
run-IsGood platform memory_id namespace (delete_one cascade name) db c good =
    settle-IsGood db (delete_entity platform namespace cascade name db) good
      (delete_entity-IsGood platform namespace cascade name db good)
run-IsGood platform memory_id namespace (prune dry_run confirmed relation) db c good =
    prune_relations-IsGood dry_run confirmed namespace relation db good

-- After any history of `link`, `unlink` without `--all`, `delete-entity` and `prune-relations`, a
-- graph that was good is good: ids, names and keys of edges are unique, no edge or binding dangles,
-- and the degree of every entity is the number of its edges.
pub history-IsGood :
    (platform : Platform) (memory_id : String → String → Option ℕ)
    (commands : List (String × Command)) (db : Db)
    → All Recalculates commands
    → IsGood db
    → IsGood (history platform memory_id commands db)
unfolding history
history-IsGood platform memory_id [] db c good = good
history-IsGood platform memory_id ((namespace, command) ∷ later) db c good =
    history-IsGood platform memory_id later (run platform memory_id namespace command db) c.1
      (run-IsGood platform memory_id namespace command db c.0 good)
