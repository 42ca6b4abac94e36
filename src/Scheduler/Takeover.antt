-- ===== src/Scheduler/Takeover.antt =====
-- internal/engine/scheduler.go: `performTakeover`, which frees the executions of silent nodes.
use flow_ctl.Prelude.{
  ◌≡◌, ◌≢◌, ◌⊎◌, refl, sym, ap, ◌∙◌, ℕ, Bool, true, false, Option, none, some, List, [], ◌∷◌, All,
  map, select, eqb, ◌&&◌, ◌||◌, not, arith, Bool-cases, inl, inr, if◌then◌else◌,
}
use flow_ctl.Model.Execution.{ExecutionStatus}
use flow_ctl.Store.{ExecutionRow, Executions, row_of}
use flow_ctl.Scheduler.{
  NodeRow, is_node, is_running, is_queued, requeue, deregister_node, dead_nodes, take_over_all,
  perform_takeover,
}
use flow_ctl.Scheduler.Claims.{owner}

-- The specification: one pass over each table.
abbrev pub is_one_of : (dead : List ℕ) → Option ℕ → Bool
is_one_of [] o = false
is_one_of (d ∷ dead) o = is_node d o || is_one_of dead o

abbrev pub is_active : ExecutionStatus → Bool
is_active s = is_running s || is_queued s

abbrev pub freed : (dead : List ℕ) → ExecutionRow → ExecutionRow
freed dead r =
    if is_one_of dead r.scheduler_node && is_active r.status
    then record r { scheduler_node = none; status = ExecutionStatus.queued }
    else r

abbrev pub remains : (dead : List ℕ) → NodeRow → Bool
remains dead n = not (is_one_of dead (some n.id))

is_one_of-none : (dead : List ℕ) → is_one_of dead none ≡ false
is_one_of-none [] = refl
is_one_of-none (d ∷ dead) = is_one_of-none dead

freed-requeue :
    (d : ℕ) (dead : List ℕ) (r : ExecutionRow) → freed dead (requeue d r) ≡ freed (d ∷ dead) r
unfolding requeue
freed-requeue d dead r = elim (Bool-cases (is_node d r.scheduler_node)) [
  | inl e ↦ elim (Bool-cases (is_running r.status || is_queued r.status)) [
    | inl a ↦ rw (e, a, is_one_of-none dead) refl
    | inr a ↦ elim (Bool-cases (is_one_of dead r.scheduler_node)) [
      | inl f ↦ rw (e, a, f, a) refl
      | inr f ↦ rw (e, a, f) refl
    ]
  ]
  | inr e ↦ rw e refl
]

map-map :
    {A : Type 0} (f g h : A → A)
    → ((a : A) → g (f a) ≡ h a)
    → (xs : List A) → map g (map f xs) ≡ map h xs
map-map f g h k [] = refl
map-map f g h k (x ∷ xs) = λ i. k x i ∷ map-map f g h k xs i

map-id : {A : Type 0} (f : A → A) → ((a : A) → f a ≡ a) → (xs : List A) → map f xs ≡ xs
map-id f k [] = refl
map-id f k (x ∷ xs) = λ i. k x i ∷ map-id f k xs i

select-all : {A : Type 0} (xs : List A) → select (λ x. true) xs ≡ xs
select-all [] = refl
select-all (x ∷ xs) = ap (λ l. x ∷ l) (select-all xs)

remains-deregister :
    (d : ℕ) (dead : List ℕ) (nodes : List NodeRow)
    → select (remains dead) (deregister_node d nodes) ≡ select (remains (d ∷ dead)) nodes
unfolding deregister_node
remains-deregister d dead [] = refl
remains-deregister d dead (n ∷ nodes) = ground (arith, remains-deregister d dead nodes)

take_over_all_lem :
    (dead : List ℕ) (rows : Executions) (nodes : List NodeRow)
    → take_over_all (λ d. true) (λ d. true) dead (rows, nodes)
      ≡ (map (freed dead) rows, select (remains dead) nodes)
unfolding take_over_all
take_over_all_lem [] rows nodes =
    λ i. (sym (map-id (freed []) (λ r. refl) rows) i, sym (select-all nodes) i)
take_over_all_lem (d ∷ dead) rows nodes =
    take_over_all_lem dead (map (requeue d) rows) (deregister_node d nodes) ∙ λ i. (
      map-map (requeue d) (freed dead) (freed (d ∷ dead)) (freed-requeue d dead) rows i,
      remains-deregister d dead nodes i,
    )

-- When its statements succeed, performTakeover frees exactly the running and queued executions of
-- the dead nodes, which are queued again without a node, leaves every other execution as it is, and
-- removes exactly the dead nodes.
pub perform_takeover_lem :
    (node now threshold : ℕ) (rows : Executions) (nodes : List NodeRow)
    → perform_takeover (λ d. true) (λ d. true) node now threshold (rows, nodes) ≡ (
      map (freed (dead_nodes node now threshold nodes)) rows,
      select (remains (dead_nodes node now threshold nodes)) nodes,
    )
unfolding perform_takeover
perform_takeover_lem node now threshold rows nodes =
    take_over_all_lem (dead_nodes node now threshold nodes) rows nodes

-- An owner that is not dead stays.
abbrev pub KeepsLiving : (dead : List ℕ) (rows after : Executions) → Type 0
KeepsLiving dead rows after =
    (j n : ℕ) → All (λ d. n ≢ d) dead → owner j rows ≡ some n → owner j after ≡ some n

is_node-eq : (d : ℕ) (o : Option ℕ) → is_node d o ≡ true → o ≡ some d
is_node-eq d none h = cc
is_node-eq d (some n) h = ap some (ground (arith, h))

requeue-cases :
    (d : ℕ) (r : ExecutionRow)
    → (requeue d r ≡ r) ⊎ ((r.scheduler_node ≡ some d) × ((requeue d r).id ≡ r.id))
unfolding requeue
requeue-cases d r = elim (Bool-cases (is_node d r.scheduler_node)) [
  | inl e ↦ elim (Bool-cases (is_running r.status || is_queued r.status)) [
    | inl a ↦ rw (e, a) (inr (is_node-eq d r.scheduler_node e, refl))
    | inr a ↦ rw (e, a) (inl refl)
  ]
  | inr e ↦ rw e (inl refl)
]

-- The owner of the first row, or that among the others.
owner-cons :
    (r : ExecutionRow) (rows : Executions) (j : ℕ)
    → owner j (r ∷ rows) ≡ (if eqb r.id j then r.scheduler_node else owner j rows)
unfolding row_of
owner-cons r rows j = elim (Bool-cases (eqb r.id j)) [ inl e ↦ rw e refl | inr e ↦ rw e refl ]

some-inj : {a b : ℕ} → some a ≡ some b → a ≡ b
some-inj p = cc

requeue-owner :
    (d j n : ℕ) (rows : Executions)
    → n ≢ d
    → owner j rows ≡ some n
    → owner j (map (requeue d) rows) ≡ some n
requeue-owner d j n [] ne h = h
requeue-owner d j n (r ∷ rows) ne h =
    owner-cons (requeue d r) (map (requeue d) rows) j
    ∙ by_case (λ q. requeue-owner d j n rows ne q) (requeue-cases d r)
  where
    shown : (if eqb r.id j then r.scheduler_node else owner j rows) ≡ some n
    shown = sym (owner-cons r rows j) ∙ h

    Others : Type 0
    Others = owner j rows ≡ some n → owner j (map (requeue d) rows) ≡ some n

    split :
        Others
        → (b : Bool) (o o' : Option ℕ) → (b ≡ true → o ≡ some n → o' ≡ some n)
        → (if b then o else owner j rows) ≡ some n
        → (if b then o' else owner j (map (requeue d) rows)) ≡ some n
    split others true o o' k q = k refl q
    split others false o o' k q = others q

    by_case :
        Others
        → (requeue d r ≡ r) ⊎ ((r.scheduler_node ≡ some d) × ((requeue d r).id ≡ r.id))
        → (if eqb (requeue d r).id j
            then (requeue d r).scheduler_node
            else owner j (map (requeue d) rows))
          ≡ some n
    by_case others (inl same) =
        rw same (split others (eqb r.id j) r.scheduler_node r.scheduler_node (λ _ q. q) shown)
    by_case others (inr (dead, id)) = rw id (
        split others (eqb r.id j) r.scheduler_node (requeue d r).scheduler_node
          (λ _ q. absurd (ne (some-inj (sym q ∙ dead)))) shown)

take_over_all-KeepsLiving :
    (reassigns deletes : ℕ → Bool) (dead : List ℕ) (s : Executions × List NodeRow)
    → KeepsLiving dead s.0 (take_over_all reassigns deletes dead s).0
unfolding take_over_all
take_over_all-KeepsLiving reassigns deletes [] s j n l h = h
take_over_all-KeepsLiving reassigns deletes (d ∷ dead) (rows, nodes) j n l h =
    by (λ s q. take_over_all-KeepsLiving reassigns deletes dead s j n l.1 q) (reassigns d)
  where
    by :
        ((s : Executions × List NodeRow)
          → owner j s.0 ≡ some n
          → owner j (take_over_all reassigns deletes dead s).0 ≡ some n)
        → (b : Bool)
        → owner j
            (take_over_all reassigns deletes dead (
              if b
              then (map (requeue d) rows, (if deletes d then deregister_node d nodes else nodes))
              else (rows, nodes))).0
          ≡ some n
    by others true = others _ (requeue-owner d j n rows l.0 h)
    by others false = others (rows, nodes) h

pub perform_takeover-KeepsLiving :
    (reassigns deletes : ℕ → Bool) (node now threshold : ℕ) (s : Executions × List NodeRow)
    → KeepsLiving
        (dead_nodes node now threshold s.1)
        s.0
        (perform_takeover reassigns deletes node now threshold s).0
unfolding perform_takeover
perform_takeover-KeepsLiving reassigns deletes node now threshold s =
    take_over_all-KeepsLiving reassigns deletes (dead_nodes node now threshold s.1) s
