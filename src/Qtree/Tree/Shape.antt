-- ===== src/Qtree/Tree/Shape.antt =====
-- The family tree under the nodes: who is whose child, and which nodes are disposed.
use mathlib.Core.Path.{fun_ext}
use magellan.Base.{
  ℕ, ◌≡◌, ◌<◌, ◌≤◌, refl, ap, Bool, true, false, not, Option, none, some, List, [], All, lookup,
  nat_key, lookup-modify, opt_map, ite, if_pos, if_neg,
}
use magellan.Qtree.Tree.{QueryTreeNode, Tree, update}
use magellan.Qtree.Tree.Erase.{Distinct}

abbrev pub id_of : Option QueryTreeNode → Option ℕ
id_of none = none
id_of (some n) = some n.id

abbrev pub parent_of : Option QueryTreeNode → Option ℕ
parent_of none = none
parent_of (some n) = n.parent

abbrev pub children_of : Option QueryTreeNode → List ℕ
children_of none = []
children_of (some n) = n.children

abbrev pub alive_of : Option QueryTreeNode → Bool
alive_of none = false
alive_of (some n) = not n.is_disposed

abbrev pub view : {B : Type 0} → (Option QueryTreeNode → B) → Tree → ℕ → B
view v t q = v (lookup q t.nodes)

-- The nodes' ids, parents and children, and which nodes are alive.
pub record Shape : Type 0 where
  pub ids : ℕ → Option ℕ
  pub parents : ℕ → Option ℕ
  pub children : ℕ → List ℕ
  pub alive : ℕ → Bool

abbrev pub shape : Tree → Shape
shape t = record {
  ids = view id_of t;
  parents = view parent_of t;
  children = view children_of t;
  alive = view alive_of t;
}

pub Shape-ext :
    {a b : Shape}
    → a.ids ≡ b.ids
    → a.parents ≡ b.parents
    → a.children ≡ b.children
    → a.alive ≡ b.alive
    → a ≡ b
Shape-ext e f g h = λ i. record { ids = e i; parents = f i; children = g i; alive = h i }

-- A child's address is above its parent's.
abbrev pub IsChild : Shape → ℕ → ℕ → Type 0
IsChild s q c = (q < c) × (s.parents c ≡ some q)

-- `k` bounds from below the nodes whose children are all alive: while `Dispose` runs on a node, its
-- ancestors still list a disposed child.
pub record WellFormed (k : ℕ) (s : Shape) (m : List (ℕ × ℕ)) (next : ℕ) : Type 0 where
  pub fresh : (q id : ℕ) → s.ids q ≡ some id → q < next
  pub indexed : (id q : ℕ) → lookup id m ≡ some q → s.ids q ≡ some id
  pub older : (q r : ℕ) → s.parents q ≡ some r → r < q
  pub housed : (q : ℕ) → s.ids q ≡ none → (s.parents q ≡ none) × (s.children q ≡ [])
  pub family : (q : ℕ) → All (IsChild s q) (s.children q)
  pub distinct : (q : ℕ) → Distinct (s.children q)
  pub living : (q : ℕ) → k ≤ q → All (λ c. s.alive c ≡ true) (s.children q)

module _ {B : Type 0} (v : Option QueryTreeNode → B) (t : Tree) (p : ℕ)
    (f : QueryTreeNode → QueryTreeNode) where
  abbrev pub written : ℕ → B
  written q = ite (nat_key.dec p q) (v (opt_map f (lookup q t.nodes))) (v (lookup q t.nodes))

  pub view-update : view v (update t p f) ≡ written
  view-update = fun_ext λ q. rw (lookup-modify q p f t.nodes) (go q (lookup q t.nodes))
    where
      go :
          (q : ℕ) (o : Option QueryTreeNode)
          → v (ite (nat_key.dec p q) (opt_map f o) o)
            ≡ ite (nat_key.dec p q) (v (opt_map f o)) (v o)
      go q o = elim (nat_key.dec p q) [
        | yes e ↦ rw (if_pos _ e, if_pos _ e)
        | no e ↦ rw (if_neg _ e, if_neg _ e)
      ]

  -- A write that the view does not see.
  pub view-update_same :
      ((o : Option QueryTreeNode) → v (opt_map f o) ≡ v o) → view v (update t p f) ≡ view v t
  view-update_same h = fun_ext λ q. rw (lookup-modify q p f t.nodes) (go q (lookup q t.nodes))
    where
      go : (q : ℕ) (o : Option QueryTreeNode) → v (ite (nat_key.dec p q) (opt_map f o) o) ≡ v o
      go q o = elim (nat_key.dec p q) [ yes e ↦ rw (if_pos _ e) (h o) | no e ↦ rw (if_neg _ e) ]

-- A write that changes none of the four.
pub shape-update_same :
    (t : Tree) (p : ℕ) (f : QueryTreeNode → QueryTreeNode)
    → ((n : QueryTreeNode) → (f n).id ≡ n.id)
    → ((n : QueryTreeNode) → (f n).parent ≡ n.parent)
    → ((n : QueryTreeNode) → (f n).children ≡ n.children)
    → ((n : QueryTreeNode) → (f n).is_disposed ≡ n.is_disposed)
    → shape (update t p f) ≡ shape t
shape-update_same t p f a b c d =
    Shape-ext (view-update_same id_of t p f (elim [ none ↦ refl | some n ↦ ap some (a n) ]))
      (view-update_same parent_of t p f (elim [ none ↦ refl | some n ↦ b n ]))
      (view-update_same children_of t p f (elim [ none ↦ refl | some n ↦ c n ]))
      (view-update_same alive_of t p f (elim [ none ↦ refl | some n ↦ ap not (d n) ]))

abbrev pub put_at : {B : Type 0} → ℕ → B → (ℕ → B) → ℕ → B
put_at p b f q = ite (nat_key.dec p q) b (f q)
