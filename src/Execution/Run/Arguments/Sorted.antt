-- ===== src/Execution/Run/Arguments/Sorted.antt =====
-- The order that `sort.Sort` leaves the arguments in (execution/resolve_func.go).
use magellan.Base.{ℕ, ◌<◌, ◌≡◌, refl, ap, ◌∙◌, List, [], ◌∷◌, ◌++◌, arith}
use magellan.Execution.Run.Methods.{insert_arg, sort_args}

-- Each index is less than `k`.
unfoldable pub Below : ℕ → List (ℕ × ℕ) → Type 0
Below k [] = Unit
Below k (a ∷ as') = (a.0 < k) × Below k as'

pub Below-append : (k : ℕ) (as' bs : List (ℕ × ℕ)) → Below k as' → Below k bs → Below k (as' ++ bs)
unfolding Below
Below-append k [] bs p q = q
Below-append k (a ∷ as') bs (p, ps) q = (p, Below-append k as' bs ps q)

insert_arg-Below :
    (k : ℕ) (a : ℕ × ℕ) (bs : List (ℕ × ℕ)) → a.0 < k → Below k bs → Below k (insert_arg a bs)
unfolding Below insert_arg
insert_arg-Below k a [] p q = (p, tt)
insert_arg-Below k a (b ∷ bs) p (q, qs) =
    let rest = insert_arg-Below k a bs p qs in ground (arith, rest)

sort_args-Below : (k : ℕ) (as' : List (ℕ × ℕ)) → Below k as' → Below k (sort_args as')
unfolding Below sort_args
sort_args-Below k [] p = p
sort_args-Below k (a ∷ as') (p, ps) =
    insert_arg-Below k a (sort_args as') p (sort_args-Below k as' ps)

insert_arg-last :
    (b : ℕ × ℕ) (as' : List (ℕ × ℕ)) → Below b.0 as' → insert_arg b as' ≡ as' ++ b ∷ []
unfolding Below insert_arg
insert_arg-last b [] p = refl
insert_arg-last b (a ∷ as') (p, ps) = let rest = insert_arg-last b as' ps in ground (arith, rest)

insert_arg-append :
    (a b : ℕ × ℕ) (as' : List (ℕ × ℕ))
    → a.0 < b.0
    → insert_arg a (as' ++ b ∷ []) ≡ insert_arg a as' ++ b ∷ []
unfolding insert_arg
insert_arg-append a b [] p = ground arith
insert_arg-append a b (x ∷ as') p = let rest = insert_arg-append a b as' p in ground (arith, rest)

-- An argument whose index is greater than all others comes last, wherever it stood.
pub sort_args-last :
    (b : ℕ × ℕ) (as' bs : List (ℕ × ℕ))
    → Below b.0 as'
    → Below b.0 bs
    → sort_args (as' ++ b ∷ bs) ≡ sort_args (as' ++ bs) ++ b ∷ []
unfolding Below sort_args
sort_args-last b [] bs p q = insert_arg-last b (sort_args bs) (sort_args-Below b.0 bs q)
sort_args-last b (a ∷ as') bs (p, ps) q =
    ap (insert_arg a) (sort_args-last b as' bs ps q)
    ∙ insert_arg-append a b (sort_args (as' ++ bs)) p
