-- ===== src/Dag/Sort/Cycles.antt =====
-- `TopologicalSort` (internal/engine/dag.go) succeeds exactly on the graphs without a cycle.
use flow_ctl.Prelude.{
  ◌≡◌, refl, sym, ap, ◌∙◌, inl, inr, ℕ, ◌≤◌, ◌<◌, String, true, false, List, [], ◌∷◌, not, ◌&&◌,
  if◌then◌else◌, keys, has, has-count, mem, count, count-select, length, length-keys, get_list,
  arith, Result, ok, err, length_le_of_count, eq_refl,
}
use flow_ctl.Dag.Graph.{Dag, DagError, cycle, MapOrder, IsDag}
use flow_ctl.Dag.Degrees.{get_int}
use flow_ctl.Dag.Sort.{SortState, unvisited, next_layer, topological_sort, is_zero}
use flow_ctl.Dag.Sort.Layers.{SortInv, waiting_on, waiting_on_pos}
use flow_ctl.Dag.Sort.Rounds.{LoopInv, topological_sort_cases}

-- `rank` puts each dependency strictly below the node that depends on it: there is no cycle.
abbrev pub IsRanked : (String → ℕ) → Dag → Type 0
IsRanked rank d = (a b : String) → 0 < count a (get_list b d.in_edges) → rank a < rank b

-- The nodes that a cycle error names: there is one, and each of them depends on another of them.
pub record IsBlocked (d : Dag) (remaining : List String) : Type 0 where
  pub some_node : (k : String) × (0 < count k remaining)
  pub nodes : (k : String) → 0 < count k remaining → has k d.nodes ≡ true
  pub blocked :
      (k : String)
      → 0 < count k remaining
      → (a : String) × (0 < count a (get_list k d.in_edges)) × (0 < count a remaining)

module _ (o : MapOrder) (d : Dag) (g : IsDag d) where
  count-unvisited :
      (s : SortState) (k : String)
      → count k (unvisited o d s) ≡ (if mem k s.visited then 0 else count k (keys d.nodes))
  unfolding unvisited
  count-unvisited s k =
      count-select (λ id. not (mem id s.visited)) k (o.walk (length d.nodes) (keys d.nodes))
      ∙ ground (arith, o.visits (length d.nodes) k (keys d.nodes))

  some_unvisited :
      (s : SortState)
      → SortInv d s
      → length s.visited < length d.nodes
      → (l : List String) → l ≡ unvisited o d s
      → (k : String) × (0 < count k l)
  some_unvisited s inv h (k ∷ l) e = (k, ground (arith, eq_refl k))
  some_unvisited s inv h [] e = absurd (
      omega
        (arith, h, length-keys d.nodes, length_le_of_count (keys d.nodes) s.visited all_visited))
    where
      all_visited : (k : String) → count k (keys d.nodes) ≤ count k s.visited
      all_visited k = ground (arith, count-unvisited s k, ap (count k) e, g.nodes_map k)

  -- With no layer left, an unvisited node waits on a dependency that is unvisited too.
  waits :
      (s : SortState) (k : String)
      → SortInv d s
      → next_layer o s ≡ []
      → has k d.nodes ≡ true
      → mem k s.visited ≡ false
      → 0 < waiting_on s.visited (get_list k d.in_edges)
  unfolding next_layer
  waits s k inv e node new = ground (
    arith,
    count-select (λ id. is_zero (get_int id s.in_degree) && not (mem id s.visited)) k
        (o.walk (length s.visited) (keys s.in_degree)),
    ap (count k) e,
    o.visits (length s.visited) k (keys s.in_degree),
    inv.table k,
    inv.degree k node,
    has-count k d.nodes,
  )

  Stuck-IsBlocked :
      (s : SortState)
      → LoopInv d s
      → length s.visited < length d.nodes
      → next_layer o s ≡ []
      → IsBlocked d (unvisited o d s)
  Stuck-IsBlocked s inv h e = record {
    some_node = some_unvisited s inv.sorting h (unvisited o d s) refl;
    nodes = λ k p. (left k p).0;
    blocked = λ k p.
        let (node, new) = left k p in
        let (a, dep, a_new) =
          waiting_on_pos s.visited (get_list k d.in_edges) (waits s k inv.sorting e node new) in
        (
          a,
          dep,
          ground (arith, count-unvisited s a, a_new, has-count a d.nodes, (g.closed a k dep).0),
        );
  }
    where
      left :
          (k : String)
          → 0 < count k (unvisited o d s)
          → (has k d.nodes ≡ true) × (mem k s.visited ≡ false)
      left k p = ground (arith, count-unvisited s k, has-count k d.nodes)

  -- A failure of `TopologicalSort` is a cycle error, and the nodes that it names are blocked: at
  -- least one, all of them nodes, and each depends on another one of them (or on itself).
  pub topological_sort_error :
      (e : DagError)
      → topological_sort o d ≡ err e
      → (remaining : List String) × (e ≡ cycle remaining) × IsBlocked d remaining
  topological_sort_error e h = elim (topological_sort_cases o d g) [
    | inl f ↦ absurd (clash (sym f.returns ∙ h))
    | inr s ↦ (
      unvisited o d s.final,
      same (sym h ∙ s.returns),
      Stuck-IsBlocked s.final s.holds s.incomplete s.no_layer,
    )
  ]
    where
      same :
          {x y : DagError} → ◌≡◌ {A = Result DagError (List (List String))} (err x) (err y) → x ≡ y
      same p = cc

      clash : {m : List (List String)} → ok m ≡ err e → ⊥
      clash p = cc
