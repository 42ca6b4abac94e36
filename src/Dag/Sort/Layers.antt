-- ===== src/Dag/Sort/Layers.antt =====
-- The invariant of the loop of `TopologicalSort` (internal/engine/dag.go), and that one layer keeps it.
use flow_ctl.Prelude.{
  ◌≢◌, subst, eq_iff, ◌≡◌, refl, sym, ap, ◌∙◌, inl, inr, ℕ, ◌+◌, ◌≤◌, ◌<◌, String, true, false,
  List, [], ◌∷◌, not, ◌==◌, keys, has, has-count, mem, count, length, bit, get_list, eq_refl,
  ==-cases, Bool-cases, arith,
}
use flow_ctl.Model.Value.{pos}
use flow_ctl.Dag.Graph.{Dag, IsDag}
use flow_ctl.Dag.Degrees.{get_int, keys-lower_all, get_int-lower_all}
use flow_ctl.Dag.Sort.{SortState, visit, visit_all}

-- How many of the given dependencies, counted as often as they stand, are not visited.
abbrev pub waiting_on : List String → List String → ℕ
waiting_on visited [] = 0
waiting_on visited (dep ∷ deps) = bit (not (mem dep visited)) + waiting_on visited deps

pub waiting_on-nil : (deps : List String) → waiting_on [] deps ≡ length deps
waiting_on-nil [] = refl
waiting_on-nil (dep ∷ deps) = omega (arith, waiting_on-nil deps)

waiting_on-cons :
    (a : String) (visited deps : List String)
    → mem a visited ≡ false
    → waiting_on visited deps ≡ waiting_on (a ∷ visited) deps + count a deps
waiting_on-cons a visited [] h = refl
waiting_on-cons a visited (dep ∷ deps) h = elim (==-cases a dep) [
  | inl e ↦ ground (arith, waiting_on-cons a visited deps h, e.0, e.1, eq_refl a)
  | inr e ↦ ground (arith, waiting_on-cons a visited deps h, e.0, other e.1)
]
  where
    other : a ≢ dep → (dep == a) ≡ false
    other n = elim (==-cases dep a) [ inl e ↦ absurd (n (sym e.1)) | inr e ↦ e.0 ]

-- A dependency that is not visited is waited on, and the other way round.
pub waiting_on_zero :
    (visited deps : List String) (a : String)
    → waiting_on visited deps ≡ 0
    → 0 < count a deps
    → mem a visited ≡ true
waiting_on_zero visited [] a h k = absurd (omega arith)
waiting_on_zero visited (dep ∷ deps) a h k = elim (==-cases dep a) [
  | inl e ↦ ground (arith, e.1)
  | inr e ↦ waiting_on_zero visited deps a (omega arith) (ground (arith, e.0))
]

pub waiting_on_pos :
    (visited deps : List String)
    → 0 < waiting_on visited deps
    → (a : String) × (0 < count a deps) × (mem a visited ≡ false)
waiting_on_pos visited [] h = absurd (omega arith)
waiting_on_pos visited (dep ∷ deps) h = elim (Bool-cases (mem dep visited)) [
  | inr e ↦ (dep, ground (arith, eq_refl dep), e)
  | inl e ↦
      let (a, stands, new) = waiting_on_pos visited deps (ground (arith, e)) in
      (a, omega (arith, stands), new)
]

-- What holds between two visits: the visited ids are nodes and stand once, the table has the
-- nodes for keys, and the degree of a node is the number of dependencies that it waits on.
pub record SortInv (d : Dag) (s : SortState) : Type 0 where
  pub once : (k : String) → count k s.visited ≤ 1
  pub known : (k : String) → 0 < count k s.visited → has k d.nodes ≡ true
  pub table : (k : String) → count k (keys s.in_degree) ≡ count k (keys d.nodes)
  pub degree :
      (k : String)
      → has k d.nodes ≡ true
      → get_int k s.in_degree ≡ pos (waiting_on s.visited (get_list k d.in_edges))

module _ (d : Dag) (g : IsDag d) where
  pub visit-SortInv :
      (id : String) (s : SortState)
      → has id d.nodes ≡ true
      → mem id s.visited ≡ false
      → SortInv d s
      → SortInv d (visit d id s)
  unfolding visit
  visit-SortInv id s node new inv = record {
    once = λ k. ground (arith, inv.once k, new, eq_iff id k);
    known = λ k h. elim (==-cases id k) [
      | inl e ↦ subst (λ x. has x d.nodes ≡ true) e.1 node
      | inr e ↦ inv.known k (ground (arith, new, e.0))
    ];
    table = λ k.
        keys-lower_all (get_list id d.edges) s.in_degree
          (λ j p.
            rw (has-count j s.in_degree)
              (ground (arith, inv.table j, has-count j d.nodes, target j p)))
          k
        ∙ inv.table k;
    degree = λ k h. rw new (
        get_int-lower_all (get_list id d.edges) s.in_degree k _
          (inv.degree k h ∙ ap pos (lowered k)));
  }
    where
      target : (j : String) → 0 < count j (get_list id d.edges) → has j d.nodes ≡ true
      target j p = (g.closed id j (omega (arith, g.mirrored id j))).1

      lowered :
          (k : String)
          → waiting_on s.visited (get_list k d.in_edges)
            ≡ waiting_on (id ∷ s.visited) (get_list k d.in_edges) + count k (get_list id d.edges)
      lowered k =
          omega (arith, g.mirrored id k, waiting_on-cons id s.visited (get_list k d.in_edges) new)

  abbrev AllNew : List String → SortState → Type 0
  AllNew ids s =
      (k : String)
      → 0 < count k ids
      → (has k d.nodes ≡ true) × (mem k s.visited ≡ false) × (count k ids ≤ 1)

  -- A layer of new nodes, visited one after the other.
  pub record Visited (ids : List String) (s t : SortState) : Type 0 where
    pub keeps : SortInv d t
    pub counts : (k : String) → count k t.visited ≡ count k ids + count k s.visited
    pub longer : length t.visited ≡ length ids + length s.visited
    pub same_layers : t.layers ≡ s.layers

  pub visit_all_lem :
      (ids : List String) (s : SortState)
      → AllNew ids s
      → SortInv d s
      → Visited ids s (visit_all d ids s)
  unfolding visit_all
  visit_all_lem [] s new inv = record {
    keeps = inv;
    counts = λ k. omega arith;
    longer = omega arith;
    same_layers = refl;
  }
  visit_all_lem (id ∷ ids) s new inv =
      let (node, unseen, single) = new id (ground (arith, eq_refl id)) in
      let next = visit d id s in
      let rest =
        visit_all_lem ids next (later unseen single) (visit-SortInv id s node unseen inv) in
      record {
        keeps = rest.keeps;
        counts = λ k. ground (arith, rest.counts k, unseen);
        longer = ground (arith, rest.longer, unseen);
        same_layers = rest.same_layers;
      }
    where
      later : mem id s.visited ≡ false → count id (id ∷ ids) ≤ 1 → AllNew ids (visit d id s)
      later unseen single k h =
          let (node, new_k, one) = new k (omega arith) in
          (
            node,
            ground (arith, new_k, unseen, single, eq_refl id, eq_iff id k, eq_refl k),
            omega arith,
          )
