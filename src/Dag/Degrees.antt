-- ===== src/Dag/Degrees.antt =====
-- The in-degree table of `TopologicalSort` (internal/engine/dag.go): a map from text to int.
use flow_ctl.Prelude.{
  ◌≡◌, refl, ap, ◌∙◌, inl, inr, ℕ, zero, suc, ◌+◌, ◌≤◌, ◌<◌, String, true, false, none, some, List,
  [], ◌∷◌, ◌==◌, if◌then◌else◌, Assoc, insert, lookup, has, has-count, has-insert, lookup-insert,
  count-keys-insert, keys, count, bit, arith, ==-cases, mem, length, eq_refl,
}
use flow_ctl.Model.Value.{ℤ, pos, negsuc}

-- A missing key reads as 0.
unfoldable pub get_int : String → Assoc ℤ → ℤ
get_int k m = elim (lookup k m) [ none ↦ pos 0 | some n ↦ n ]

-- `n - 1`.
unfoldable pub minus_one : ℤ → ℤ
minus_one (pos zero) = negsuc 0
minus_one (pos (suc n)) = pos n
minus_one (negsuc n) = negsuc (suc n)

-- `inDegree[id] = len(InEdges[id])` for the ids in the order of the iteration.
unfoldable pub init_degrees : (String → List String) → List String → Assoc ℤ → Assoc ℤ
init_degrees upstream [] m = m
init_degrees upstream (id ∷ ids) m =
    init_degrees upstream ids (insert id (pos (length (upstream id))) m)

-- `for _, downstream := range d.Edges[id] { inDegree[downstream]-- }`.
unfoldable pub lower_all : List String → Assoc ℤ → Assoc ℤ
lower_all [] m = m
lower_all (x ∷ xs) m = lower_all xs (insert x (minus_one (get_int x m)) m)

get_int-insert :
    (k j : String) (n : ℤ) (m : Assoc ℤ)
    → get_int j (insert k n m) ≡ (if k == j then n else get_int j m)
unfolding get_int
get_int-insert k j n m = ground (arith, lookup-insert k j n m)

pub get_int-init :
    (upstream : String → List String) (k : String) (ids : List String) (m : Assoc ℤ)
    → get_int k (init_degrees upstream ids m)
      ≡ (if mem k ids then pos (length (upstream k)) else get_int k m)
unfolding init_degrees
get_int-init upstream k [] m = refl
get_int-init upstream k (id ∷ ids) m = elim (==-cases id k) [
  | inl e ↦
      rw (get_int-init upstream k ids (insert id (pos (length (upstream id))) m)) (
        rw (get_int-insert id k (pos (length (upstream id))) m)
          (rw (e.0) (rw (e.1) (ground arith))))
  | inr e ↦
      rw (get_int-init upstream k ids (insert id (pos (length (upstream id))) m))
        (rw (get_int-insert id k (pos (length (upstream id))) m) (rw (e.0) (ground arith)))
]

pub has-init :
    (upstream : String → List String) (k : String) (ids : List String) (m : Assoc ℤ)
    → has k (init_degrees upstream ids m) ≡ (if mem k ids then true else has k m)
unfolding init_degrees
has-init upstream k [] m = refl
has-init upstream k (id ∷ ids) m = ground (
  arith,
  has-init upstream k ids (insert id (pos (length (upstream id))) m),
  has-insert id k (pos (length (upstream id))) m,
)

-- Over ids that stand once each and are new, the table gets each of them once.
pub count-keys-init :
    (upstream : String → List String) (k : String) (ids : List String) (m : Assoc ℤ)
    → ((j : String) → count j ids + count j (keys m) ≤ 1)
    → count k (keys (init_degrees upstream ids m)) ≡ count k ids + count k (keys m)
unfolding init_degrees
count-keys-init upstream k [] m h = omega arith
count-keys-init upstream k (id ∷ ids) m h =
    let v : ℤ = pos (length (upstream id)) in
    let fresh : (j : String) → count j (keys (insert id v m)) ≡ bit (id == j) + count j (keys m) =
      λ j. ground (arith, count-keys-insert id j v m, has-count id m, h id, eq_refl id) in
    rw (count-keys-init upstream k ids (insert id v m) (λ j. omega (arith, h j, fresh j)))
      (omega (arith, fresh k))

-- Lowering does not add a key where all keys are there.
pub keys-lower_all :
    (xs : List String) (m : Assoc ℤ)
    → ((j : String) → 0 < count j xs → has j m ≡ true)
    → (k : String) → count k (keys (lower_all xs m)) ≡ count k (keys m)
unfolding lower_all
keys-lower_all [] m h k = refl
keys-lower_all (x ∷ xs) m h k =
    let v = minus_one (get_int x m) in
    let here : has x m ≡ true = h x (ground (arith, eq_refl x)) in
    keys-lower_all xs (insert x v m) (λ j p. ground (arith, has-insert x j v m, h j)) k
    ∙ ground (arith, count-keys-insert x k v m, here)

-- Each occurrence of a key lowers its degree by one.
pub get_int-lower_all :
    (xs : List String) (m : Assoc ℤ) (k : String) (n : ℕ)
    → get_int k m ≡ pos (n + count k xs)
    → get_int k (lower_all xs m) ≡ pos n
unfolding lower_all minus_one
get_int-lower_all [] m k n h = rw h (ap pos (omega arith))
get_int-lower_all (x ∷ xs) m k n h =
    get_int-lower_all xs (insert x (minus_one (get_int x m)) m) k n (elim (==-cases x k) [
      | inl e ↦ rw (get_int-insert x k (minus_one (get_int x m)) m, e.0, e.1) (lowered e.0)
      | inr e ↦ rw (get_int-insert x k (minus_one (get_int x m)) m, e.0) (kept e.0)
    ])
  where
    kept : (x == k) ≡ false → get_int k m ≡ pos (n + count k xs)
    kept e = h ∙ ap pos (ground (arith, e))

    one_more : (a : ℕ) → minus_one (pos (suc a)) ≡ pos a
    one_more a = refl

    lowered : (x == k) ≡ true → minus_one (get_int k m) ≡ pos (n + count k xs)
    lowered e =
        ap minus_one (h ∙ ap pos {y = suc (n + count k xs)} (ground (arith, e)))
        ∙ one_more (n + count k xs)
