-- ===== src/Registry/Select/Tests.antt =====
-- Queries with conditions at concrete rows.
use drogue_cloud.Base.{◌≡◌, ◌&&◌, List, [], ◌∷◌, some, none, false, refl, arith}
use drogue_cloud.Registry.Select.{
  Operation, label_in, label_not_eq, sql, condition, name_is, text, varchar, build, SelectBuilder,
  new, name, labels,
}
use drogue_cloud.Registry.Select.Meaning.{SelectRow, all_match, answer}
use drogue_cloud.Registry.Select.Labels.{labels-selected}
use drogue_cloud.Registry.Select.Preparing.{IsReady, selected}

abbrev base : SelectBuilder
base = name (some "door") (new "SELECT" [] [])

abbrev ops : List Operation
ops = label_in "color" ("red" ∷ "blue" ∷ []) ∷ label_not_eq "size" "big" ∷ []

labels-selected_example :
    IsReady false (labels ops base)
    × ((row : SelectRow)
        → answer false (build (labels ops base)) row
          ≡ some (selected base row && all_match ops row))
unfolding name new
labels-selected_example = labels-selected false ops base (refl, refl, (omega arith, tt))

-- Without the keyword the database refuses the query.
not_a_query :
    (row : SelectRow)
    → answer false (sql "SELECT" ∷ condition (name_is 1) ∷ [], text "door" ∷ [], varchar ∷ []) row
      ≡ none
not_a_query row = refl
