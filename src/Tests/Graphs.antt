-- ===== src/Tests/Graphs.antt =====
-- Tests of the dependency graph, and its theorems at small workflows.
use flow_ctl.Prelude.{
  ◌≡◌, refl, ℕ, ◌<◌, String, true, false, List, [], ◌∷◌, ◌==◌, bit, count, flat, has, get_list,
  lookup, insert, append_at, Result, ok, err, arith,
}
use flow_ctl.Dag.{Dag, DagError, cycle, unknown_node, IsDag, bare_dag, build_dag, get_ready_nodes}
use flow_ctl.Dag.Edges.{build_dag-IsDag}
use flow_ctl.Dag.Declared.{IsDeclared, build_dag-IsDeclared, IsUndeclared, build_dag_error}
use flow_ctl.Dag.Degrees.{get_int, minus_one, lower_all}
use flow_ctl.Dag.Sort.{topological_sort}
use flow_ctl.Dag.Sort.Rounds.{IsLayered}
use flow_ctl.Dag.Sort.Correct.{sort_once, sort-IsLayered}
use flow_ctl.Dag.Sort.Cycles.{IsRanked, IsBlocked, topological_sort_error}
use flow_ctl.Dag.Sort.Acyclic.{topological_sort-acyclic, topological_sort-ranks}
use flow_ctl.Dag.Progress.{ready_sound, ready_progress}
use flow_ctl.Tests.Samples.{release, circular, dangling, as_stored}

program : Unit {0}
unfolding build_dag topological_sort get_ready_nodes lookup insert get_list append_at get_int
    minus_one lower_all
program = tt

abbrev or_bare : Result DagError Dag → Dag
or_bare (ok d) = d
or_bare (err e) = bare_dag dangling

abbrev pub release_dag : Dag
unfolding program
release_dag = or_bare (build_dag release)

abbrev circular_dag : Dag
unfolding program
circular_dag = or_bare (build_dag circular)

pub release_builds : build_dag release ≡ ok release_dag
unfolding program
release_builds = refl

circular_builds : build_dag circular ≡ ok circular_dag
unfolding program
circular_builds = refl

release_IsDag : IsDag release_dag
release_IsDag = build_dag-IsDag release release_dag release_builds

build_dag-IsDag_example : IsDag release_dag
build_dag-IsDag_example = build_dag-IsDag release release_dag release_builds

build_dag-IsDeclared_example : IsDeclared release release_dag
build_dag-IsDeclared_example = build_dag-IsDeclared release release_dag release_builds

dangling_fails : build_dag dangling ≡ err (unknown_node "a" "ghost")
unfolding program
dangling_fails = refl

build_dag_error_example : IsUndeclared dangling (unknown_node "a" "ghost")
build_dag_error_example = build_dag_error dangling (unknown_node "a" "ghost") dangling_fails

abbrev layers : List (List String)
layers = ("build" ∷ []) ∷ ("gate" ∷ []) ∷ ("deploy" ∷ []) ∷ []

release_sorts : topological_sort as_stored release_dag ≡ ok layers
unfolding program
release_sorts = refl

circular_fails : topological_sort as_stored circular_dag ≡ err (cycle ("a" ∷ "b" ∷ []))
unfolding program
circular_fails = refl

circular_IsDag : IsDag circular_dag
circular_IsDag = build_dag-IsDag circular circular_dag circular_builds

sort_once_example : count "gate" (flat layers) ≡ bit (has "gate" release_dag.nodes)
sort_once_example = sort_once as_stored release_dag release_IsDag layers release_sorts "gate"

sort-IsLayered_example : IsLayered release_dag [] layers
sort-IsLayered_example = sort-IsLayered as_stored release_dag release_IsDag layers release_sorts

topological_sort_error_example :
    (remaining : List String) × (◌≡◌ {A = DagError} (cycle ("a" ∷ "b" ∷ [])) (cycle remaining))
    × IsBlocked circular_dag remaining
topological_sort_error_example =
    topological_sort_error as_stored circular_dag circular_IsDag (cycle ("a" ∷ "b" ∷ []))
      circular_fails

topological_sort-ranks_example : (rank : String → ℕ) × IsRanked rank release_dag
topological_sort-ranks_example =
    topological_sort-ranks as_stored release_dag release_IsDag layers release_sorts

release_ranks : (rank : String → ℕ) × IsRanked rank release_dag
release_ranks = topological_sort-ranks as_stored release_dag release_IsDag layers release_sorts

topological_sort-acyclic_example :
    (ls : List (List String)) × (topological_sort as_stored release_dag ≡ ok ls)
topological_sort-acyclic_example =
    topological_sort-acyclic as_stored release_dag release_IsDag release_ranks.0 release_ranks.1

ready_sound_example :
    (has "gate" release_dag.nodes ≡ true)
    × ((λ (k : String). k == "build") "gate" ≡ false)
    × ((a : String) → 0 < count a (get_list "gate" release_dag.in_edges) → (a == "build") ≡ true)
    × (count "gate" (get_ready_nodes as_stored 5 release_dag (λ k. k == "build")) ≡ 1)
unfolding program
ready_sound_example =
    ready_sound as_stored 5 release_dag release_IsDag (λ k. k == "build") "gate" (omega arith)

ready_progress_example :
    (r : String) × (0 < count r (get_ready_nodes as_stored 5 release_dag (λ k. k == "build")))
unfolding program
ready_progress_example =
    ready_progress as_stored 5 release_dag release_IsDag (λ k. k == "build") release_ranks.0
      "deploy" release_ranks.1 refl refl
