-- ===== src/Dag/Sort.antt =====
-- internal/engine/dag.go: `TopologicalSort` (Kahn's algorithm in layers) and `DetectCycles`.
pub mod Layers
pub mod Rounds
pub mod Correct
pub mod Cycles
pub mod Acyclic
use flow_ctl.Prelude.{
  ℕ, zero, suc, ◌+◌, String, Bool, true, false, Option, none, some, List, [], ◌∷◌, ◌++◌, not, ◌&&◌,
  ltb, if◌then◌else◌, Assoc, keys, mem, length, select, is_empty, get_list, Result, ok, err,
}
use flow_ctl.Model.Value.{ℤ, pos}
use flow_ctl.Dag.Graph.{Dag, DagError, cycle, unfinished, MapOrder}
use flow_ctl.Dag.Degrees.{get_int, init_degrees, lower_all}

-- The loop's variables. `visited` is the map whose values are all true, as the list of its keys.
pub record SortState : Type 0 where
  pub in_degree : Assoc ℤ
  pub visited : List String
  pub layers : List (List String)

abbrev pub mark : String → List String → List String
mark id visited = if mem id visited then visited else id ∷ visited

abbrev pub is_zero : ℤ → Bool
is_zero (pos zero) = true
is_zero _ = false

-- The body of `for _, id := range layer`.
unfoldable pub visit : Dag → String → SortState → SortState
visit d id s = record s {
  visited = mark id s.visited;
  in_degree = lower_all (get_list id d.edges) s.in_degree;
}

unfoldable pub visit_all : Dag → List String → SortState → SortState
unfolding visit
visit_all d [] s = s
visit_all d (id ∷ ids) s = visit_all d ids (visit d id s)

-- The ids of degree 0 that are not visited, in the order of the map's iteration.
unfoldable pub next_layer : MapOrder → SortState → List String
next_layer o s =
    select (λ id. is_zero (get_int id s.in_degree) && not (mem id s.visited))
      (o.walk (length s.visited) (keys s.in_degree))

unfoldable pub unvisited : MapOrder → Dag → SortState → List String
unvisited o d s = select (λ id. not (mem id s.visited)) (o.walk (length d.nodes) (keys d.nodes))

unfoldable pub next_state : Dag → List String → SortState → SortState
unfolding visit_all
next_state d layer s = let t = visit_all d layer s in record t { layers = t.layers ++ layer ∷ [] }

-- The `for len(visited) < len(d.Nodes)` loop, on fuel. `unfinished` means that the fuel ran out.
unfoldable pub sort_rounds : MapOrder → Dag → ℕ → SortState → Result DagError (List (List String))
unfolding next_layer next_state unvisited
sort_rounds o d zero s =
    if ltb (length s.visited) (length d.nodes) then err unfinished else ok s.layers
sort_rounds o d (suc fuel) s =
    let layer = next_layer o s in
    let rest = sort_rounds o d fuel (next_state d layer s) in
    if ltb (length s.visited) (length d.nodes)
    then (if is_empty layer then err (cycle (unvisited o d s)) else rest)
    else ok s.layers

abbrev pub sort_start : MapOrder → Dag → SortState
sort_start o d = record {
  in_degree = init_degrees (λ id. get_list id d.in_edges) (o.walk 0 (keys d.nodes)) [];
  visited = [];
  layers = [];
}

-- Each round visits a node, so as many rounds as there are nodes suffice.
unfoldable pub topological_sort : MapOrder → Dag → Result DagError (List (List String))
unfolding sort_rounds init_degrees
topological_sort o d = sort_rounds o d (length d.nodes) (sort_start o d)

unfoldable pub detect_cycles : MapOrder → Dag → Option DagError
unfolding topological_sort
detect_cycles o d = elim (topological_sort o d) [ ok layers ↦ none | err e ↦ some e ]
