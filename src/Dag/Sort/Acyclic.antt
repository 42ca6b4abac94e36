-- ===== src/Dag/Sort/Acyclic.antt =====
-- `TopologicalSort` (internal/engine/dag.go) succeeds exactly on the graphs without a cycle.
use flow_ctl.Prelude.{
  ◌≡◌, refl, inl, inr, ℕ, zero, suc, ◌<◌, String, List, [], ◌∷◌, ◌++◌, if◌then◌else◌, mem, count,
  count-append, get_list, arith, Result, ok, err, flat, Bool-cases,
}
use flow_ctl.Dag.Graph.{Dag, DagError, MapOrder, IsDag}
use flow_ctl.Dag.Sort.{topological_sort}
use flow_ctl.Dag.Sort.Rounds.{IsLayered}
use flow_ctl.Dag.Sort.Correct.{sort-IsLayered, sort_once}
use flow_ctl.Dag.Sort.Cycles.{IsRanked, IsBlocked, topological_sort_error}

abbrev layer_index : String → List (List String) → ℕ
layer_index k [] = 0
layer_index k (l ∷ ls) = let rest = layer_index k ls in if mem k l then 0 else suc rest

layer_index_lt :
    (d : Dag) (a b : String) (seen : List String) (ls : List (List String))
    → IsLayered d seen ls
    → 0 < count a (get_list b d.in_edges)
    → 0 < count b (flat ls)
    → count a seen ≡ 0
    → layer_index a ls < layer_index b ls
layer_index_lt d a b seen [] h e p new = absurd (omega arith)
layer_index_lt d a b seen (l ∷ ls) h e p new = elim (Bool-cases (mem b l)) [
  | inl here ↦ absurd (omega (arith, h.0 b a (ground (arith, here)) e, new))
  | inr later ↦ elim (Bool-cases (mem a l)) [
    | inl a_here ↦ ground (arith, later, a_here)
    | inr a_later ↦
        let rest =
          layer_index_lt d a b (seen ++ l) ls h.1 e
            (ground (arith, later, count-append b l (flat ls)))
            (ground (arith, a_later, count-append a seen l)) in
        ground (arith, later, a_later, rest)
  ]
]

module _ (o : MapOrder) (d : Dag) (g : IsDag d) where
  unblocked :
      (rank : String → ℕ) (remaining : List String)
      → IsRanked rank d
      → IsBlocked d remaining
      → (n : ℕ) (k : String) → rank k < n
      → 0 < count k remaining
      → ⊥
  unblocked rank remaining ranked b zero k small p = absurd (omega arith)
  unblocked rank remaining ranked b (suc n) k small p =
      let (a, dep, again) = b.blocked k p in
      unblocked rank remaining ranked b n a (omega (arith, ranked a k dep)) again

  -- If some ranking puts every dependency below the node that depends on it, so that the graph has
  -- no cycle, then `TopologicalSort` succeeds.
  pub topological_sort-acyclic :
      (rank : String → ℕ)
      → IsRanked rank d
      → (ls : List (List String)) × (topological_sort o d ≡ ok ls)
  topological_sort-acyclic rank ranked = result (topological_sort o d) refl
    where
      result :
          (r : Result DagError (List (List String)))
          → topological_sort o d ≡ r
          → (ls : List (List String)) × (r ≡ ok ls)
      result (ok ls) e = (ls, refl)
      result (err x) e =
          let (remaining, named, b) = topological_sort_error o d g x e in
          let (k, p) = b.some_node in
          absurd (unblocked rank remaining ranked b (suc (rank k)) k (omega arith) p)

  -- If `TopologicalSort` succeeds, then the graph has no cycle: some ranking puts every dependency
  -- strictly below the node that depends on it.
  pub topological_sort-ranks :
      (ls : List (List String))
      → topological_sort o d ≡ ok ls
      → (rank : String → ℕ) × IsRanked rank d
  topological_sort-ranks ls sorted = (
    (λ k. layer_index k ls),
    λ a b e.
        layer_index_lt d a b [] ls (sort-IsLayered o d g ls sorted) e
          (ground (arith, sort_once o d g ls sorted b, (g.closed a b e).1)) refl,
  )
