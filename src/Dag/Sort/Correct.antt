-- ===== src/Dag/Sort/Correct.antt =====
-- What a successful `TopologicalSort` (internal/engine/dag.go) returns.
use flow_ctl.Prelude.{
  ◌≡◌, sym, ◌∙◌, subst, inl, inr, ◌≤◌, String, List, [], keys, has, has-count, count, length-keys,
  bit, arith, Result, ok, err, flat, count-le_of_length,
}
use flow_ctl.Dag.Graph.{Dag, DagError, MapOrder, IsDag}
use flow_ctl.Dag.Sort.{SortState, topological_sort}
use flow_ctl.Dag.Sort.Layers.{SortInv}
use flow_ctl.Dag.Sort.Rounds.{IsLayered, Finished, topological_sort_cases}

pub visited_below :
    (d : Dag) (s : SortState)
    → SortInv d s
    → (a : String) → count a s.visited ≤ count a (keys d.nodes)
visited_below d s inv a = ground (arith, inv.once a, inv.known a, has-count a d.nodes)

module _ (o : MapOrder) (d : Dag) (g : IsDag d) (ls : List (List String))
    (sorted : topological_sort o d ≡ ok ls) where
  finished : (f : Finished o d g (topological_sort o d)) × (f.final.layers ≡ ls)
  finished = elim (topological_sort_cases o d g) [
    | inl f ↦ (f, same (sym f.returns ∙ sorted))
    | inr s ↦ absurd (clash (sym s.returns ∙ sorted))
  ]
    where
      same :
          {l m : List (List String)}
          → ◌≡◌ {A = Result DagError (List (List String))} (ok l) (ok m)
          → l ≡ m
      same e = cc

      clash : {e : DagError} {m : List (List String)} → err e ≡ ok m → ⊥
      clash e = cc

  -- The layers hold the nodes of the graph, each of them exactly once, and nothing else.
  pub sort_once : (k : String) → count k (flat ls) ≡ bit (has k d.nodes)
  sort_once k =
      let (f, same) = finished in
      let inv = f.holds in
      let all =
        count-le_of_length f.final.visited (keys d.nodes) (visited_below d f.final inv.sorting)
          (omega (arith, length-keys d.nodes, f.complete)) k in
      subst (λ l. count k (flat l) ≡ bit (has k d.nodes)) same
        (ground (
          arith,
          inv.flattened k,
          all,
          visited_below d f.final inv.sorting k,
          has-count k d.nodes,
          g.nodes_map k,
        ))

  -- Every dependency of a node stands in an earlier layer than the node.
  pub sort-IsLayered : IsLayered d [] ls
  sort-IsLayered = let (f, same) = finished in subst (IsLayered d []) same f.holds.layered
