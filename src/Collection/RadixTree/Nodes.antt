-- ===== src/Collection/RadixTree/Nodes.antt =====
-- A tree of fixed depth as a map from prepared keys to leaves, with no capacity and no pools.
use cextras.Base.{
  ℕ, zero, suc, ◌/◌, ◌%◌, ◌≤◌, ◌≡◌, refl, ◌≢◌, arith, ◌==◌, Bool-cases, inl, inr, ==→eq, eq→==,
  ne→not-==,
}
use cextras.Collection.RadixTree.{Node, null, leaf, branch, no_children, update}
use cextras.Collection.RadixTree.Keys.{cap_of}

-- All leaves of the tree below a node are `d` levels further down.
abbrev pub Shape : ℕ → Node → Type 0
Shape zero null = Unit
Shape zero (leaf p) = Unit
Shape zero (branch c) = ⊥
Shape (suc d) null = Unit
Shape (suc d) (leaf p) = ⊥
Shape (suc d) (branch c) = (i : ℕ) → Shape d (c i)

abbrev pub children : Node → ℕ → Node
children null = no_children
children (leaf p) = no_children
children (branch c) = c

abbrev pub find : ℕ → Node → ℕ → Node
find zero n q = n
find (suc d) n q = find d (children n (q % 256)) (q / 256)

-- The tree with `v` at `q`, and branches where the path to `q` had none.
abbrev pub store : ℕ → Node → ℕ → Node → Node
store zero n q v = v
store (suc d) n q v =
    branch (update (children n) (q % 256) (store d (children n (q % 256)) (q / 256) v))

pub update_self : (c : ℕ → Node) (i : ℕ) (n : Node) → update c i n i ≡ n
update_self c i n = rw (eq→== i i refl)

update_ne : (c : ℕ → Node) (i j : ℕ) (n : Node) → j ≢ i → update c i n j ≡ c j
update_ne c i j n h = rw (ne→not-== j i h)

pub find-null : (d q : ℕ) → find d null q ≡ null
find-null zero q = refl
find-null (suc d) q = find-null d (q / 256)

pub find-store_self : (d : ℕ) (n : Node) (q : ℕ) (v : Node) → find d (store d n q v) q ≡ v
find-store_self zero n q v = refl
find-store_self (suc d) n q v =
    rw (update_self (children n) (q % 256) (store d (children n (q % 256)) (q / 256) v))
      (find-store_self d (children n (q % 256)) (q / 256) v)

pub find-store_ne :
    (d : ℕ) (n : Node) (q r : ℕ) (v : Node)
    → q ≤ cap_of d
    → r ≤ cap_of d
    → q ≢ r
    → find d (store d n q v) r ≡ find d n r
find-store_ne zero n q r v hq hr ne = absurd (ne (omega arith))
find-store_ne (suc d) n q r v hq hr ne = elim (Bool-cases (r % 256 == q % 256)) [
  | inl e ↦
      rw (e, ==→eq _ _ e)
        (find-store_ne d (children n (q % 256)) (q / 256) (r / 256) v (omega arith) (omega arith)
          (λ h. ne (omega (arith, ==→eq (r % 256) (q % 256) e))))
  | inr e ↦ rw e
]

pub Shape-null : (d : ℕ) → Shape d null
Shape-null zero = tt
Shape-null (suc d) = tt

pub Shape-children : (d : ℕ) (n : Node) → Shape (suc d) n → (i : ℕ) → Shape d (children n i)
Shape-children d null s i = Shape-null d
Shape-children d (leaf p) s i = absurd s
Shape-children d (branch c) s i = s i

pub Shape-update :
    (d : ℕ) (c : ℕ → Node) (i : ℕ) (n : Node)
    → ((j : ℕ) → Shape d (c j))
    → Shape d n
    → (j : ℕ) → Shape d (update c i n j)
Shape-update d c i n s t j = elim (Bool-cases (j == i)) [ inl e ↦ rw e t | inr e ↦ rw e (s j) ]

pub Shape-store :
    (d : ℕ) (n : Node) (q : ℕ) (v : Node) → Shape d n → Shape zero v → Shape d (store d n q v)
Shape-store zero n q v s t = t
Shape-store (suc d) n q v s t =
    Shape-update d (children n) (q % 256) (store d (children n (q % 256)) (q / 256) v)
      (Shape-children d n s)
      (Shape-store d (children n (q % 256)) (q / 256) v (Shape-children d n s (q % 256)) t)
