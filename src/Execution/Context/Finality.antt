-- ===== src/Execution/Context/Finality.antt =====
-- How contexts become final (`MarkFinal`, `markChildFinal` of execution/resolver_ctx.go).
use magellan.Base.{
  ℕ, zero, suc, ◌<◌, ◌≡◌, refl, ◌||◌, Option, some, lookup, arith, insert, lookup-modify,
  lookup-insert, nat_key, Option-cases, inl, inr, ◌==◌, Bool-cases,
}
use magellan.Execution.Context.{
  PathComponent, ResolverContext, Execution, on, opened, closed, finalized, base_child,
  mark_child_final, mark_final, new_child,
}

-- Addresses are below `next`, and a context's path parent is older than the context.
pub record WellFormed (s : Execution) : Type 0 where
  pub fresh : (r : ℕ) (c : ResolverContext) → lookup r s.contexts ≡ some c → r < s.next
  pub up :
      (r q : ℕ) (c : ResolverContext)
      → lookup r s.contexts ≡ some c
      → c.path_parent ≡ some q
      → q < r

pub on-WellFormed :
    (s : Execution) (r : ℕ) (f : ResolverContext → ResolverContext)
    → ((c : ResolverContext) → (f c).path_parent ≡ c.path_parent)
    → WellFormed s
    → WellFormed (on s r f)
on-WellFormed s r f keeps h = record {
  fresh = λ j c e. elim (Option-cases (lookup j s.contexts)) [
    | inl n ↦ grind (arith, lookup-modify)
    | inr (d, n) ↦ h.fresh j d n
  ];
  up = λ j q c e p. elim (Option-cases (lookup j s.contexts)) [
    | inl n ↦ grind (arith, lookup-modify)
    | inr (d, n) ↦ h.up j q d n (grind (arith, lookup-modify, keeps))
  ];
}

abbrev added : Execution → ResolverContext → Execution
added s c = record s { contexts = insert s.next c s.contexts; next = suc s.next }

added-WellFormed :
    (s : Execution) (c : ResolverContext)
    → WellFormed s
    → ((q : ℕ) → c.path_parent ≡ some q → q < s.next)
    → WellFormed (added s c)
added-WellFormed s c h older = record {
  fresh = λ j d e. elim (Option-cases (lookup j s.contexts)) [
    | inl n ↦ grind (arith, lookup-insert)
    | inr (x, n) ↦ grind (arith, h.fresh j x n)
  ];
  up = λ j q d e p. grind (arith, lookup-insert, older q, h.up j q d);
}

path_parent_older :
    (s : Execution) (r : ℕ) (c : ResolverContext)
    → WellFormed s
    → lookup r s.contexts ≡ some c
    → (path : Option PathComponent) (q : ℕ) → (new_child r c path).path_parent ≡ some q
    → q < s.next
unfolding new_child
path_parent_older s r c h n path q e = grind (arith, h.fresh r c n, h.up r q c n)

pub base_child-WellFormed :
    (s : Execution) (r : ℕ) (path : Option PathComponent)
    → WellFormed s
    → WellFormed (base_child s r path)
unfolding base_child new_child
base_child-WellFormed s r path h = elim (Option-cases (lookup r s.contexts)) [
  | inl n ↦ rw (n, base_child) h
  | inr (c, n) ↦
      rw (n, base_child)
        (on-WellFormed (added s (new_child r c path)) r opened (λ c. refl)
          (added-WellFormed s (new_child r c path) h (path_parent_older s r c h n path)))
]

-- A result that is there and is well formed, where the contexts after `r` are as in `s`.
pub record Ok (s : Execution) (r : ℕ) (result : Option Execution) : Type 0 where
  pub state : Execution
  pub returns : result ≡ some state
  pub valid : WellFormed state
  pub later : (j : ℕ) → r < j → lookup j state.contexts ≡ lookup j s.contexts

by_lt : {r : ℕ} → r < 0 → ⊥
by_lt lt = omega arith

unchanged : (s : Execution) (r : ℕ) → WellFormed s → Ok s r (some s)
unchanged s r h = record { state = s; returns = refl; valid = h; later = λ j lt. refl }

-- One write at `r`, then nothing or a rise to an older context.
settled :
    (s : Execution) (r : ℕ) (f : ResolverContext → ResolverContext)
    → ((c : ResolverContext) → (f c).path_parent ≡ c.path_parent)
    → WellFormed s
    → Ok s r (some (on s r f))
settled s r f keeps h = record {
  state = on s r f;
  returns = refl;
  valid = on-WellFormed s r f keeps h;
  later = λ j lt. grind (arith, lookup-modify);
}

risen :
    (s : Execution) (r q : ℕ) (f : ResolverContext → ResolverContext)
    → q < r
    → (result : Option Execution) → Ok (on s r f) q result
    → Ok s r result
risen s r q f older result o = record {
  state = o.state;
  returns = o.returns;
  valid = o.valid;
  later = λ j lt. grind (arith, lookup-modify, o.later j);
}

pub mark_child_final_Ok :
    (fuel r : ℕ) (s : Execution) → WellFormed s → r < fuel → Ok s r (mark_child_final fuel s r)
unfolding mark_child_final
mark_child_final_Ok zero r s h lt = elim (by_lt lt) [ ]
mark_child_final_Ok (suc fuel) r s h lt = elim (Option-cases (lookup r s.contexts)) [
  | inl n ↦ rw (n, mark_child_final) (unchanged s r h)
  | inr (c, n) ↦ elim (Bool-cases (c.is_final || c.active_children == 0)) [
    | inl e ↦ rw (n, e, mark_child_final) (unchanged s r h)
    | inr e ↦ elim (Bool-cases (c.active_children == 1)) [
      | inl f ↦ elim (Option-cases c.path_parent) [
        | inl g ↦
            rw (n, e, f, g, mark_child_final)
              (settled s r (λ c. finalized (closed c)) (λ c. refl) h)
        | inr (q, g) ↦
            rw (n, e, f, g, mark_child_final)
              (risen s r q (λ c. finalized (closed c)) (h.up r q c n g) _
                (mark_child_final_Ok fuel q (on s r (λ c. finalized (closed c)))
                  (on-WellFormed s r (λ c. finalized (closed c)) (λ c. refl) h)
                  (omega (arith, h.up r q c n g, lt))))
      ]
      | inr f ↦ rw (n, e, f, mark_child_final) (settled s r closed (λ c. refl) h)
    ]
  ]
]

pub mark_final_Ok : (s : Execution) (r : ℕ) → WellFormed s → Ok s r (mark_final s r)
unfolding mark_final
mark_final_Ok s r h = elim (Option-cases (lookup r s.contexts)) [
  | inl n ↦ rw (n, mark_final) (unchanged s r h)
  | inr (c, n) ↦ elim (Bool-cases c.is_final) [
    | inl e ↦ rw (n, e, mark_final) (unchanged s r h)
    | inr e ↦ elim (Option-cases c.path_parent) [
      | inl g ↦ rw (n, e, g, mark_final) (settled s r finalized (λ c. refl) h)
      | inr (q, g) ↦
          rw (n, e, g, mark_final)
            (risen s r q finalized (h.up r q c n g) _ (
              mark_child_final_Ok (suc s.next) q (on s r finalized)
                (on-WellFormed s r finalized (λ c. refl) h)
                (omega (arith, h.up r q c n g, h.fresh r c n))))
    ]
  ]
]
