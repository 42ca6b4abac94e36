-- ===== src/Dag/Progress.antt =====
-- `GetReadyNodes` (internal/engine/dag.go): what is ready, and that something always is.
use flow_ctl.Prelude.{
  ◌≡◌, ◌∙◌, inl, inr, ℕ, zero, suc, ◌<◌, String, Bool, true, false, List, [], ◌∷◌, not, ◌&&◌,
  if◌then◌else◌, keys, count, count-select, has, has-count, get_list, arith, Bool-cases, bit,
  eq_refl, ==-cases, subst,
}
use flow_ctl.Dag.Graph.{Dag, MapOrder, IsDag}
use flow_ctl.Dag.Ready.{all_complete, get_ready_nodes}
use flow_ctl.Dag.Sort.Cycles.{IsRanked}

all_complete_lem :
    (completed : String → Bool) (deps : List String) (a : String)
    → all_complete completed deps ≡ true
    → 0 < count a deps
    → completed a ≡ true
unfolding all_complete
all_complete_lem completed [] a h p = absurd (omega arith)
all_complete_lem completed (dep ∷ deps) a h p = elim (==-cases dep a) [
  | inl e ↦ subst (λ x. completed x ≡ true) e.1 (ground arith)
  | inr e ↦ all_complete_lem completed deps a (ground arith) (ground (arith, e.0))
]

incomplete_dep :
    (completed : String → Bool) (deps : List String)
    → all_complete completed deps ≡ false
    → (a : String) × (0 < count a deps) × (completed a ≡ false)
unfolding all_complete
incomplete_dep completed [] h = cc
incomplete_dep completed (dep ∷ deps) h = elim (Bool-cases (completed dep)) [
  | inr e ↦ (dep, ground (arith, eq_refl dep), e)
  | inl e ↦
      let (a, p, q) = incomplete_dep completed deps (ground (arith, e)) in (a, omega (arith, p), q)
]

module _ (o : MapOrder) (n : ℕ) (d : Dag) (g : IsDag d) (completed : String → Bool) where
  count-ready :
      (k : String)
      → count k (get_ready_nodes o n d completed) ≡ (
          if not (completed k) && all_complete completed (get_list k d.in_edges)
          then bit (has k d.nodes)
          else 0)
  unfolding get_ready_nodes
  count-ready k =
      count-select (λ id. not (completed id) && all_complete completed (get_list id d.in_edges)) k
        (o.walk n (keys d.nodes))
      ∙ ground (arith, o.visits n k (keys d.nodes), has-count k d.nodes, g.nodes_map k)

  -- A ready node is a node that is not complete and whose dependencies all are; it is named once.
  pub ready_sound :
      (k : String)
      → 0 < count k (get_ready_nodes o n d completed)
      → (has k d.nodes ≡ true)
        × (completed k ≡ false)
        × ((a : String) → 0 < count a (get_list k d.in_edges) → completed a ≡ true)
        × (count k (get_ready_nodes o n d completed) ≡ 1)
  ready_sound k h = elim (Bool-cases (all_complete completed (get_list k d.in_edges))) [
    | inr e ↦ absurd (ground (arith, count-ready k, e))
    | inl e ↦ (
      ground (arith, count-ready k, e),
      ground (arith, count-ready k, e),
      (λ a p. all_complete_lem completed (get_list k d.in_edges) a e p),
      ground (arith, count-ready k, e),
    )
  ]

  descend :
      (rank : String → ℕ)
      → IsRanked rank d
      → (bound : ℕ) (k : String) → rank k < bound
      → has k d.nodes ≡ true
      → completed k ≡ false
      → (r : String) × (0 < count r (get_ready_nodes o n d completed))
  descend rank ranked zero k small node open_ = absurd (omega arith)
  descend rank ranked (suc bound) k small node open_ =
      elim (Bool-cases (all_complete completed (get_list k d.in_edges))) [
        | inl e ↦ (k, ground (arith, count-ready k, e, node, open_))
        | inr e ↦
            let (a, dep, a_open) = incomplete_dep completed (get_list k d.in_edges) e in
            descend rank ranked bound a (omega (arith, ranked a k dep)) (g.closed a k dep).0 a_open
      ]

  -- On a graph without a cycle, as long as some node is not complete, some node is ready.
  pub ready_progress :
      (rank : String → ℕ) (k : String)
      → IsRanked rank d
      → has k d.nodes ≡ true
      → completed k ≡ false
      → (r : String) × (0 < count r (get_ready_nodes o n d completed))
  ready_progress rank k ranked node open_ =
      descend rank ranked (suc (rank k)) k (omega arith) node open_
