-- ===== src/Dag/Ready.antt =====
-- internal/engine/dag.go: `GetReadyNodes`.
use flow_ctl.Prelude.{
  ℕ, String, Bool, true, false, List, [], ◌∷◌, not, ◌&&◌, if◌then◌else◌, keys, select, get_list,
}
use flow_ctl.Dag.Graph.{Dag, MapOrder}

-- The inner loop with its `break`: every dependency is complete.
unfoldable pub all_complete : (String → Bool) → List String → Bool
all_complete completed [] = true
all_complete completed (dep ∷ deps) =
    let rest = all_complete completed deps in if not (completed dep) then false else rest

-- `completed` is the map of Go's argument, read by its keys; `n` numbers the iteration.
unfoldable pub get_ready_nodes : MapOrder → ℕ → Dag → (String → Bool) → List String
unfolding all_complete
get_ready_nodes o n d completed =
    select (λ id. not (completed id) && all_complete completed (get_list id d.in_edges))
      (o.walk n (keys d.nodes))
