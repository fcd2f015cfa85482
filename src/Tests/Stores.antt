-- ===== src/Tests/Stores.antt =====
-- A store with the status of a task and a registered value.
use gxo.Prelude.{[], ◌∷◌, ◌≡◌, refl}
use gxo.Prelude.Text.{split_dots}
use gxo.Value.{Value, null, str, strings, list, dict, generic, nil, cons, end, field, pair, stop}
use gxo.Copy.{deep_copy}
use gxo.State.{MemoryStateStore, get_all}

abbrev store : MemoryStateStore
store = record {
  data' =
      ("_gxo.tasks.gen.status", str "Completed")
      ∷ ("_gxo.tasks.use.status", str "Failed")
      ∷ ("out", str "x")
      ∷ [];
}

nested :
    get_all store
    ≡ field "_gxo"
        (dict (
          field "tasks"
            (dict (
              field "gen"
                (dict (field "status" (str "Completed") end))
                (field "use" (dict (field "status" (str "Failed") end)) end)))
            end))
        (field "out" (str "x") end)
unfolding get_all split_dots deep_copy
nested = refl

-- Of two empty slices the second is taken for the first.
mixed_up :
    deep_copy (list (cons (strings []) (cons (list nil) nil)))
    ≡ list (cons (strings []) (cons (strings []) nil))
unfolding deep_copy
mixed_up = refl

-- A nil value of a map with keys of any type is lost.
nil_lost :
    deep_copy (generic (pair (str "k") null (pair (str "l") (str "x") stop)))
    ≡ generic (pair (str "l") (str "x") stop)
unfolding deep_copy
nil_lost = refl
