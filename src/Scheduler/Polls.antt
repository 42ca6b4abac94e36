-- ===== src/Scheduler/Polls.antt =====
-- internal/engine/scheduler.go: which executions, and how many, `pollForWork` starts.
use mathlib.Core.List.{Memᴰ}
use flow_ctl.Prelude.{
  ◌≡◌, refl, ℕ, zero, suc, ◌≤◌, Bool, true, false, Option, none, some, List, [], ◌∷◌, All, All-imp,
  select, length, leb, Bool-cases, inl, inr, arith,
}
use flow_ctl.Store.{ExecutionRow, Executions}
use flow_ctl.Scheduler.{
  waits, insert_by_age, by_age, take, waiting_executions, try_acquire_execution, with_run,
  acquire_all, poll_for_work,
}

All-take : {A : Type 0} (P : A → Type 0) (n : ℕ) (xs : List A) → All P xs → All P (take n xs)
All-take P zero xs h = tt
All-take P (suc n) [] h = tt
All-take P (suc n) (x ∷ xs) h = (h.0, All-take P n xs h.1)

length-take-le : {A : Type 0} (n : ℕ) (xs : List A) → length (take n xs) ≤ n
length-take-le zero xs = omega arith
length-take-le (suc n) [] = omega arith
length-take-le (suc n) (x ∷ xs) = omega (arith, length-take-le n xs)

insert_by_age-All :
    (P : ExecutionRow → Type 0) (r : ExecutionRow) (rows : Executions)
    → P r
    → All P rows
    → All P (insert_by_age r rows)
unfolding insert_by_age
insert_by_age-All P r [] h k = (h, tt)
insert_by_age-All P r (s ∷ rows) h k = elim (Bool-cases (leb r.created_at s.created_at)) [
  | inl e ↦ rw e (h, k)
  | inr e ↦ rw e (k.0, insert_by_age-All P r rows h k.1)
]

by_age-All : (P : ExecutionRow → Type 0) (rows : Executions) → All P rows → All P (by_age rows)
unfolding by_age
by_age-All P [] h = tt
by_age-All P (r ∷ rows) h = insert_by_age-All P r (by_age rows) h.0 (by_age-All P rows h.1)

-- What passes a test has what every element with the test has.
select-All :
    {A : Type 0} (P : A → Type 0) (p : A → Bool) (xs : List A)
    → All (λ x. p x ≡ true → P x) xs
    → All P (select p xs)
select-All P p [] h = tt
select-All P p (x ∷ xs) h = elim (Bool-cases (p x)) [
  | inl e ↦ rw e (h.0 e, select-All P p xs h.1)
  | inr e ↦ rw e (select-All P p xs h.1)
]

acquire_all-All :
    (P : ℕ → Type 0) (lock : ℕ → Option Bool) (writes : ℕ → Bool) (node now : ℕ)
    (candidates rows : Executions)
    → All (λ (c : ExecutionRow). P c.id) candidates
    → All P (acquire_all lock writes node now candidates rows).0
unfolding acquire_all
acquire_all-All P lock writes node now [] rows h = tt
acquire_all-All P lock writes node now (c ∷ candidates) rows h =
    by _ (try_acquire_execution (lock c.id) (writes c.id) node now c.id rows).0
      (acquire_all-All P lock writes node now candidates _ h.1)
  where
    by :
        (later : List ℕ × Executions) (o : Option Bool)
        → All P later.0
        → All P (with_run c.id o later).0
    by later (some true) k = (h.0, k)
    by later (some false) k = k
    by later none k = k

acquire_all-le :
    (lock : ℕ → Option Bool) (writes : ℕ → Bool) (node now : ℕ) (candidates rows : Executions)
    → length (acquire_all lock writes node now candidates rows).0 ≤ length candidates
unfolding acquire_all
acquire_all-le lock writes node now [] rows = omega arith
acquire_all-le lock writes node now (c ∷ candidates) rows =
    by _ (try_acquire_execution (lock c.id) (writes c.id) node now c.id rows).0
      (acquire_all-le lock writes node now candidates _)
  where
    by :
        (later : List ℕ × Executions) (o : Option Bool)
        → length later.0 ≤ length candidates
        → length (with_run c.id o later).0 ≤ suc (length candidates)
    by later (some true) k = omega (arith, k)
    by later (some false) k = omega (arith, k)
    by later none k = omega (arith, k)

-- The row of an execution that waits for a node.
abbrev pub IsWaiting : Executions → (id : ℕ) → Type 0
IsWaiting rows id = (r : ExecutionRow) × Memᴰ r rows × (waits r ≡ true) × (r.id ≡ id)

All-Mem : {A : Type 0} (xs : List A) → All (λ x. Memᴰ x xs) xs
All-Mem [] = tt
All-Mem (x ∷ xs) = (
  Memᴰ.head refl,
  All-imp (λ y. Memᴰ y xs) (λ y. Memᴰ y (x ∷ xs)) (λ y m. Memᴰ.tail m) xs (All-Mem xs),
)

-- One call of pollForWork starts ten executions at most, and each of them is queued without a node in
-- the table that the call reads.
pub poll_for_work-le :
    (lock : ℕ → Option Bool) (writes : ℕ → Bool) (node now : ℕ) (rows : Executions)
    → (length (poll_for_work lock writes node now rows).0 ≤ 10)
      × All (IsWaiting rows) (poll_for_work lock writes node now rows).0
unfolding poll_for_work waiting_executions
poll_for_work-le lock writes node now rows =
    let found = by_age (select waits rows) in
    let waiting =
      All-imp (λ r. Memᴰ r rows) (λ r. waits r ≡ true → IsWaiting rows r.id)
        (λ r m w. (r, m, w, refl)) rows (All-Mem rows) in
    (
      omega (
        arith,
        acquire_all-le lock writes node now (take 10 found) rows,
        length-take-le 10 found,
      ),
      acquire_all-All (IsWaiting rows) lock writes node now (take 10 found) rows (
          All-take (λ r. IsWaiting rows r.id) 10 found
            (by_age-All (λ r. IsWaiting rows r.id) (select waits rows)
              (select-All (λ r. IsWaiting rows r.id) waits rows waiting))),
    )
