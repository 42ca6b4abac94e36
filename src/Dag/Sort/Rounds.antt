-- ===== src/Dag/Sort/Rounds.antt =====
-- The `for` loop of `TopologicalSort` (internal/engine/dag.go): its invariant and its two exits.
use flow_ctl.Prelude.{
  ◌≡◌, refl, ◌∙◌, ◌⊎◌, inl, inr, ℕ, zero, suc, ◌+◌, ◌≤◌, ◌<◌, String, Bool, true, false, List, [],
  ◌∷◌, ◌++◌, not, ◌&&◌, ltb, if◌then◌else◌, keys, has, has-count, mem, count, count-append,
  count-select, length, select, is_empty, get_list, Bool-cases, arith, Result, ok, err, flat,
  flat-snoc, lookup, &&-eq-true, le→ltb, ltb→le, ltb→lt,
}
use flow_ctl.Dag.Graph.{Dag, DagError, cycle, MapOrder, IsDag}
use flow_ctl.Dag.Degrees.{get_int, get_int-init, count-keys-init}
use flow_ctl.Dag.Sort.{
  SortState, is_zero, visit_all, next_layer, next_state, unvisited, sort_rounds, sort_start,
  topological_sort,
}
use flow_ctl.Dag.Sort.Layers.{
  waiting_on, waiting_on-nil, waiting_on_zero, SortInv, Visited, visit_all_lem,
}

list_cases : (l : List String) → (l ≡ []) ⊎ ((is_empty l ≡ false) × (0 < length l))
list_cases [] = inl refl
list_cases (x ∷ xs) = inr (refl, omega arith)

-- Each layer depends only on `seen` and on the layers before it.
abbrev pub IsLayered : Dag → List String → List (List String) → Type 0
IsLayered d seen [] = Unit
IsLayered d seen (l ∷ ls) =
    ((x a : String) → 0 < count x l → 0 < count a (get_list x d.in_edges) → 0 < count a seen)
    × IsLayered d (seen ++ l) ls

IsLayered-snoc :
    (d : Dag) (seen : List String) (ls : List (List String)) (l : List String)
    → IsLayered d seen ls
    → ((x a : String)
        → 0 < count x l
        → 0 < count a (get_list x d.in_edges)
        → 0 < count a seen + count a (flat ls))
    → IsLayered d seen (ls ++ l ∷ [])
IsLayered-snoc d seen [] l h k = ((λ x a p q. omega (arith, k x a p q)), tt)
IsLayered-snoc d seen (m ∷ ls) l h k = (
  h.0,
  IsLayered-snoc d (seen ++ m) ls l h.1
      λ x a p q. omega (arith, k x a p q, count-append a seen m, count-append a m (flat ls)),
)

-- The invariant of the `for` loop.
pub record LoopInv (d : Dag) (s : SortState) : Type 0 where
  pub sorting : SortInv d s
  pub flattened : (k : String) → count k (flat s.layers) ≡ count k s.visited
  pub layered : IsLayered d [] s.layers

module _ (o : MapOrder) (d : Dag) (g : IsDag d) where
  pub sort_start-LoopInv : LoopInv d (sort_start o d)
  unfolding lookup
  sort_start-LoopInv = record {
    sorting = record {
      once = λ k. omega arith;
      known = λ k h. absurd (omega arith);
      table = λ k.
          count-keys-init (λ id. get_list id d.in_edges) k (o.walk 0 (keys d.nodes)) []
            (λ j. omega (arith, o.visits 0 j (keys d.nodes), g.nodes_map j))
          ∙ omega (arith, o.visits 0 k (keys d.nodes));
      degree = λ k h.
          get_int-init (λ id. get_list id d.in_edges) k (o.walk 0 (keys d.nodes)) []
          ∙ ground (
            arith,
            o.visits 0 k (keys d.nodes),
            has-count k d.nodes,
            waiting_on-nil (get_list k d.in_edges),
          );
    };
    flattened = λ k. refl;
    layered = tt;
  }

  -- The members of the next layer are nodes that wait on nothing and are not visited yet.
  pub next_layer_lem :
      (s : SortState) (k : String)
      → SortInv d s
      → 0 < count k (next_layer o s)
      → (has k d.nodes ≡ true)
        × (mem k s.visited ≡ false)
        × (count k (next_layer o s) ≤ 1)
        × (waiting_on s.visited (get_list k d.in_edges) ≡ 0)
  unfolding next_layer
  next_layer_lem s k inv h = elim (Bool-cases (passes k)) [
    | inr e ↦ absurd (ground (arith, chosen, e))
    | inl e ↦
        let (node, one) = listed e in
        let (zero_degree, new) = &&-eq-true _ _ e in
        (node, ground (arith, new), one, degree_zero node zero_degree)
  ]
    where
      passes : String → Bool
      passes id = is_zero (get_int id s.in_degree) && not (mem id s.visited)

      order : List String
      order = o.walk (length s.visited) (keys s.in_degree)

      chosen : count k (select passes order) ≡ (if passes k then count k order else 0)
      chosen = count-select passes k order

      walked : count k order ≡ count k (keys d.nodes)
      walked = o.visits (length s.visited) k (keys s.in_degree) ∙ inv.table k

      listed : passes k ≡ true → (has k d.nodes ≡ true) × (count k (select passes order) ≤ 1)
      listed e = (
        ground (arith, chosen, e, walked, has-count k d.nodes),
        ground (arith, chosen, e, walked, g.nodes_map k),
      )

      degree_zero :
          has k d.nodes ≡ true
          → is_zero (get_int k s.in_degree) ≡ true
          → waiting_on s.visited (get_list k d.in_edges) ≡ 0
      degree_zero node z = ground (arith, inv.degree k node)

  next_state-LoopInv :
      (s : SortState)
      → LoopInv d s
      → LoopInv d (next_state d (next_layer o s) s)
        × (length (next_state d (next_layer o s) s).visited
            ≡ length (next_layer o s) + length s.visited)
  unfolding next_state
  next_state-LoopInv s inv = (
    record {
      sorting = record {
        once = v.keeps.once;
        known = v.keeps.known;
        table = v.keeps.table;
        degree = v.keeps.degree;
      };
      flattened = λ k.
          rw v.same_layers (omega (arith, flat-snoc k s.layers layer, inv.flattened k, v.counts k));
      layered = rw v.same_layers (IsLayered-snoc d [] s.layers layer inv.layered deps_before);
    },
    v.longer,
  )
    where
      layer : List String
      layer = next_layer o s

      v : Visited d g layer s (visit_all d layer s)
      v =
          visit_all_lem d g layer s
            (λ k h. let (node, new, one, z) = next_layer_lem s k inv.sorting h in (node, new, one))
            inv.sorting

      deps_before :
          (x a : String)
          → 0 < count x layer
          → 0 < count a (get_list x d.in_edges)
          → 0 < 0 + count a (flat s.layers)
      deps_before x a p q =
          let (node, new, one, z) = next_layer_lem s x inv.sorting p in
          let seen = waiting_on_zero s.visited (get_list x d.in_edges) a z q in
          ground (arith, seen, inv.flattened a)

  -- The loop ends because all nodes are visited.
  pub record Finished (r : Result DagError (List (List String))) : Type 0 where
    pub final : SortState
    pub holds : LoopInv d final
    pub complete : length d.nodes ≤ length final.visited
    pub returns : r ≡ ok final.layers

  -- The loop ends because no node of degree 0 is left.
  pub record Stuck (r : Result DagError (List (List String))) : Type 0 where
    pub final : SortState
    pub holds : LoopInv d final
    pub incomplete : length final.visited < length d.nodes
    pub no_layer : next_layer o final ≡ []
    pub returns : r ≡ err (cycle (unvisited o d final))

  sort_rounds_cases :
      (fuel : ℕ) (s : SortState)
      → LoopInv d s
      → length d.nodes ≤ fuel + length s.visited
      → Finished (sort_rounds o d fuel s) ⊎ Stuck (sort_rounds o d fuel s)
  unfolding sort_rounds
  sort_rounds_cases zero s inv bound = inl (record {
    final = s;
    holds = inv;
    complete = omega (arith, bound);
    returns = rw (le→ltb _ _ (bound_zero bound));
  })
    where
      bound_zero : length d.nodes ≤ 0 + length s.visited → length d.nodes ≤ length s.visited
      bound_zero h = omega (arith, h)
  sort_rounds_cases (suc fuel) s inv bound =
      elim (Bool-cases (ltb (length s.visited) (length d.nodes))) [
        | inr e ↦ inl (record { final = s; holds = inv; complete = ltb→le _ _ e; returns = rw e })
        | inl e ↦ elim (list_cases (next_layer o s)) [
          | inl none_left ↦ inr (record {
            final = s;
            holds = inv;
            incomplete = ltb→lt _ _ e;
            no_layer = none_left;
            returns = rw e (rw none_left);
          })
          | inr (some_left, pos_length) ↦
              let (next, longer) = next_state-LoopInv s inv in
              rw e (
                rw some_left (
                  sort_rounds_cases fuel (next_state d (next_layer o s) s) next
                    (omega (arith, bound, longer, pos_length))))
        ]
      ]

  -- The two ways in which `TopologicalSort` ends: there is no third, so it terminates.
  pub topological_sort_cases : Finished (topological_sort o d) ⊎ Stuck (topological_sort o d)
  unfolding topological_sort
  topological_sort_cases =
      sort_rounds_cases (length d.nodes) (sort_start o d) sort_start-LoopInv (omega arith)
