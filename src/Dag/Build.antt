-- ===== src/Dag/Build.antt =====
-- What `BuildDAG` of internal/engine/dag.go builds.
use flow_ctl.Prelude.{
  ◌≡◌, refl, inl, inr, ◌+◌, String, true, false, List, [], ◌∷◌, ◌==◌, if◌then◌else◌, Assoc, insert,
  lookup, has, IsMap, count, arith, get_list, append_at, mem, bit, ◌||◌, subst, get_list-append_at,
  has-insert, insert-IsMap, ==-cases, count-append,
}
use flow_ctl.Model.Workflow.{StepDef, ApprovalDef, WorkflowDefinition}
use flow_ctl.Dag.Graph.{
  Dag, DagNode, step_nodes, approval_nodes, bare_dag, IsDag, step_node, approval_node,
}

pub step_nodes-IsMap : (ss : List StepDef) (m : Assoc DagNode) → IsMap m → IsMap (step_nodes ss m)
unfolding step_nodes
step_nodes-IsMap [] m h = h
step_nodes-IsMap (s ∷ ss) m h = step_nodes-IsMap ss _ (insert-IsMap s.id _ m h)

pub approval_nodes-IsMap :
    (rest : List ApprovalDef) (m : Assoc DagNode) → IsMap m → IsMap (approval_nodes rest m)
unfolding approval_nodes
approval_nodes-IsMap [] m h = h
approval_nodes-IsMap (a ∷ rest) m h = approval_nodes-IsMap rest _ (insert-IsMap a.id _ m h)

abbrev pub step_ids : List StepDef → List String
step_ids [] = []
step_ids (s ∷ ss) = s.id ∷ step_ids ss

abbrev pub approval_ids : List ApprovalDef → List String
approval_ids [] = []
approval_ids (a ∷ rest) = a.id ∷ approval_ids rest

has-step_nodes :
    (k : String) (ss : List StepDef) (m : Assoc DagNode)
    → has k (step_nodes ss m) ≡ (if mem k (step_ids ss) then true else has k m)
unfolding step_nodes
has-step_nodes k [] m = refl
has-step_nodes k (s ∷ ss) m =
    ground
      (arith, has-step_nodes k ss (insert s.id (step_node s) m), has-insert s.id k (step_node s) m)

has-approval_nodes :
    (k : String) (rest : List ApprovalDef) (m : Assoc DagNode)
    → has k (approval_nodes rest m) ≡ (if mem k (approval_ids rest) then true else has k m)
unfolding approval_nodes
has-approval_nodes k [] m = refl
has-approval_nodes k (a ∷ rest) m = ground (
  arith,
  has-approval_nodes k rest (insert a.id (approval_node a) m),
  has-insert a.id k (approval_node a) m,
)

has-nil : (k : String) → has {V = DagNode} k [] ≡ false
unfolding lookup
has-nil k = refl

-- The nodes are the declared identifiers.
pub has-bare_dag :
    (k : String) (def : WorkflowDefinition)
    → has k (bare_dag def).nodes ≡ mem k (step_ids def.steps) || mem k (approval_ids def.approvals)
has-bare_dag k def = ground (
  arith,
  has-approval_nodes k def.approvals (step_nodes def.steps []),
  has-step_nodes k def.steps [],
  has-nil k,
)

-- One turn of the inner loop.
abbrev pub link : String → String → Dag → Dag
link id dep d = record d {
  edges = append_at dep id d.edges;
  in_edges = append_at id dep d.in_edges;
}

count-append_at :
    (k j v a : String) (m : Assoc (List String))
    → count a (get_list j (append_at k v m))
      ≡ count a (get_list j m) + (if k == j then bit (v == a) else 0)
count-append_at k j v a m = elim (==-cases k j) [
  | inl e ↦
      rw (get_list-append_at k j v m, e.0, count-append a (get_list j m) (v ∷ [])) (omega arith)
  | inr e ↦ rw (get_list-append_at k j v m, e.0) (omega arith)
]

pub link-IsDag :
    (id dep : String) (d : Dag)
    → has id d.nodes ≡ true
    → has dep d.nodes ≡ true
    → IsDag d
    → IsDag (link id dep d)
link-IsDag id dep d h k g = record {
  nodes_map = g.nodes_map;
  mirrored = λ a b. ground (
    arith,
    g.mirrored a b,
    count-append_at dep a id b d.edges,
    count-append_at id b dep a d.in_edges,
  );
  closed = λ a b p. elim (==-cases id b) [
    | inl e ↦ elim (==-cases dep a) [
      | inl f ↦ (subst (λ x. has x d.nodes ≡ true) f.1 k, subst (λ x. has x d.nodes ≡ true) e.1 h)
      | inr f ↦ g.closed a b (ground (arith, count-append_at id b dep a d.in_edges))
    ]
    | inr e ↦ g.closed a b (ground (arith, count-append_at id b dep a d.in_edges))
  ];
}
