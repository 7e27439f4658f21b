-- ===== src/Qtree/Dispose/Silent.antt =====
-- `Dispose` of qtree/qtree.go sends no error.
use magellan.Base.{
  ℕ, zero, suc, ◌≡◌, refl, sym, ap, ◌∙◌, Option, none, some, Option-cases, Bool-cases, inl, inr,
  length, get_elem?, lookup, nat_key, arith,
}
use magellan.Qtree.Tree.{QueryTreeNode, Tree, next_update, remove_child}
use magellan.Qtree.Tree.Shape.{view, children_of}
use magellan.Qtree.Dispose.{dispose, dispose_children, begin_dispose, end_dispose, leave_parent}

leave_parent-err_ch : (t : Tree) (p : ℕ) (o : Option ℕ) → (leave_parent t p o).err_ch ≡ t.err_ch
unfolding leave_parent remove_child next_update
leave_parent-err_ch t p none = refl
leave_parent-err_ch t p (some q) = ground arith

end_dispose-err_ch : (t : Tree) (p : ℕ) (n : QueryTreeNode) → (end_dispose t p n).err_ch ≡ t.err_ch
unfolding end_dispose
end_dispose-err_ch t p n = leave_parent-err_ch _ p n.parent

-- Calls that send no error.
unfoldable pub Silent : (Tree → ℕ → Option Tree) → Type 0
Silent call = (t : Tree) (p : ℕ) (u : Tree) → call t p ≡ some u → u.err_ch ≡ t.err_ch

dispose_children-Silent :
    (call : Tree → ℕ → Option Tree)
    → Silent call
    → (t : Tree) (p i k : ℕ) (u : Tree) → dispose_children call t p i k ≡ some u
    → u.err_ch ≡ t.err_ch
unfolding dispose_children Silent
dispose_children-Silent call h t p i zero u e =
    ap (λ x. elim x [ none ↦ t.err_ch | some y ↦ y.err_ch ]) (sym e)
dispose_children-Silent call h t p i (suc k) u e =
    elim (Option-cases (get_elem? (view children_of t p) i)) [
      | inl n ↦ dispose_children-Silent call h t p (suc i) k u (ground (arith, e, n))
      | inr (c, n) ↦ elim (Option-cases (call t c)) [
        | inl m ↦ absurd (ground (arith, e, n, m))
        | inr (v, m) ↦
            dispose_children-Silent call h v p (suc i) k u (ground (arith, e, n, m)) ∙ h t c v m
      ]
    ]

pub dispose-Silent : (fuel : ℕ) → Silent (dispose fuel)
unfolding dispose Silent begin_dispose next_update
dispose-Silent zero t p u e = absurd (cc e)
dispose-Silent (suc fuel) t p u e = elim (Option-cases (lookup p t.nodes)) [
  | inl k ↦ ground (arith, e, k)
  | inr (n, k) ↦ elim (Bool-cases n.is_disposed) [
    | inl d ↦ ground (arith, e, k, d)
    | inr d ↦
        elim (Option-cases
          (dispose_children (dispose fuel) (begin_dispose t p) p 0 (length n.children))) [
            | inl m ↦ absurd (ground (arith, e, k, d, m))
            | inr (v, m) ↦
                let ended : end_dispose v p n ≡ u = ground (arith, e, k, d, m) in
                ap (λ x. x.err_ch) (sym ended)
                ∙ end_dispose-err_ch v p n
                ∙ dispose_children-Silent (dispose fuel) (dispose-Silent fuel) (begin_dispose t p) p
                    0 (length n.children) v m
          ]
  ]
]
