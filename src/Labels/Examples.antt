-- ===== src/Labels/Examples.antt =====
-- Tests of src/parsers/mod.rs, and the theorems on labels at concrete inputs.
use sqlite_graphrag.Base.{◌≡◌, refl, [], map, ok, err, ◌==◌, filter}
use sqlite_graphrag.Labels.{
  Unicode, IsUnicode, codes, ascii_lower, normalize_entity_name, map_to_canonical_relation,
  parse_relation, validate_entity_name, normalize_entity_type,
}
use sqlite_graphrag.Labels.Names.{normalize_entity_name_idem}
use sqlite_graphrag.Labels.Relations.{map_to_canonical_relation_idem}
use sqlite_graphrag.Errors.{validation}

-- Unicode as far as ASCII goes.
abbrev pub ascii : Unicode
ascii = record { nfkd = λ s. s; to_lowercase = map ascii_lower; is_whitespace = λ c. c == 32 }

pub ascii-IsUnicode : IsUnicode ascii
ascii-IsUnicode = record { nfkd_ascii = λ s h. refl; lower_ascii = λ s h. refl }

hello_world : normalize_entity_name ascii (codes "  Hello_ World  ") ≡ codes "hello-world"
unfolding normalize_entity_name filter
hello_world = refl

only_separators : normalize_entity_name ascii (codes "---") ≡ []
unfolding normalize_entity_name filter
only_separators = refl

part_of : map_to_canonical_relation ascii (codes "Part_Of") ≡ codes "applies-to"
unfolding map_to_canonical_relation
part_of = refl

weird : map_to_canonical_relation ascii (codes "some-weird-relation") ≡ codes "related"
unfolding map_to_canonical_relation
weird = refl

tested_by : parse_relation ascii (codes "Tested_By") ≡ ok (codes "tested-by")
unfolding parse_relation
tested_by = refl

issue_tracker : normalize_entity_type ascii (codes "  Issue-Tracker ") ≡ ok (codes "issue_tracker")
unfolding normalize_entity_type
issue_tracker = refl

noise : validate_entity_name (codes "NER") ≡ err (validation "entity_name_all_caps_noise")
unfolding validate_entity_name
noise = refl

normalize_entity_name_idem_example :
    normalize_entity_name ascii (normalize_entity_name ascii (codes "  Hello_ World  "))
    ≡ normalize_entity_name ascii (codes "  Hello_ World  ")
normalize_entity_name_idem_example =
    normalize_entity_name_idem ascii ascii-IsUnicode (codes "  Hello_ World  ")

map_to_canonical_relation_idem_example :
    map_to_canonical_relation ascii (map_to_canonical_relation ascii (codes "Depends_On"))
    ≡ map_to_canonical_relation ascii (codes "Depends_On")
map_to_canonical_relation_idem_example =
    map_to_canonical_relation_idem ascii ascii-IsUnicode (codes "Depends_On")
