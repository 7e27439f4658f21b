-- ===== src/Result/Multiplexer/Steady.antt =====
-- Any round of result/result_multiplexer.go while no tree is added and no channel is closed.
use magellan.Base.{
  ℕ, zero, suc, ◌≤◌, ◌≡◌, ◌≢◌, refl, ap, sym, subst, ◌∙◌, Bool, true, false, Option, none, some,
  List, [], ◌∷◌, ◌++◌, length, get_elem?, lookup, nat_key, ltb, ◌==◌, if◌then◌else◌, arith,
  Bool-cases, Option-cases, inl, inr, ◌⊎◌,
}
use magellan.Result.Multiplexer.{
  Bytes, SelectCase, context_done, add_tree, receive, default, Channel, Multiplexer, Round, stopped,
  panicked, blocked, looped, drop_last,
}
use magellan.Result.Multiplexer.Rounds.{
  on_default, on_receive, on_chosen, any_ready, add_default, remove_default, count_defaults,
  dispatch, adds, round,
}
use magellan.Result.Multiplexer.Streams.{stream}
use magellan.Result.Multiplexer.Delivery.{HasIds, on_value_keeps_streams, on_default_keeps_streams}

pub record Steady (s : Multiplexer) : Type 0 where
  pub live : s.is_cancelled ≡ false
  pub ids : HasIds s
  pub idle : s.adding ≡ []
  pub flowing : (p : ℕ) (c : Channel) → lookup p s.channels ≡ some c → c.is_closed ≡ false
  pub no_default : count_defaults s.cases ≡ 0
  pub named :
      (i p : ℕ)
      → get_elem? s.cases i ≡ some (receive p)
      → (id : ℕ) × (lookup p s.tree_ids ≡ some id)
  pub pending :
      s.pending_id ≢ 0
      → (p : ℕ) × (c : Channel) × (lookup p s.channels ≡ some c)
        × (lookup p s.tree_ids ≡ some s.pending_id)

default_counts :
    (xs : List SelectCase) (i : ℕ) → get_elem? xs i ≡ some default → 1 ≤ count_defaults xs
unfolding count_defaults
default_counts [] i e = absurd (cc e)
default_counts (default ∷ xs) i e = omega arith
default_counts (context_done ∷ xs) zero e = absurd (cc e)
default_counts (add_tree ∷ xs) zero e = absurd (cc e)
default_counts (receive p ∷ xs) zero e = absurd (cc e)
default_counts (context_done ∷ xs) (suc i) e = default_counts xs i e
default_counts (add_tree ∷ xs) (suc i) e = default_counts xs i e
default_counts (receive p ∷ xs) (suc i) e = default_counts xs i e

drop_last-append : (xs : List SelectCase) (x : SelectCase) → drop_last (xs ++ x ∷ []) ≡ xs
unfolding drop_last
drop_last-append [] x = refl
drop_last-append (y ∷ []) x = refl
drop_last-append (y ∷ z ∷ xs) x = ap (λ ys. y ∷ ys) (drop_last-append (z ∷ xs) x)

-- An index into the cases with the default at their end.
behind :
    (xs : List SelectCase) (i : ℕ) (x : SelectCase)
    → get_elem? (xs ++ default ∷ []) i ≡ some x
    → (get_elem? xs i ≡ some x) ⊎ ((ltb i (length xs) ≡ false) × (x ≡ default))
behind [] zero x e = inr (refl, cc e)
behind [] (suc i) x e = absurd (cc e)
behind (y ∷ xs) zero x e = inl e
behind (y ∷ xs) (suc i) x e = elim (behind xs i x e) [
  | inl f ↦ inl f
  | inr (f, g) ↦ inr (grind (arith, f), g)
]

looped_same : {s t : Multiplexer} → looped s ≡ looped t → s ≡ t
looped_same e = cc e

module _ (s : Multiplexer) (h : Steady s) (chosen : ℕ) (u : Multiplexer) (q k : ℕ)
    (f : lookup q s.tree_ids ≡ some k) where
  blocked_loops : blocked ≡ looped u → ⊥
  blocked_loops e = cc e

  abbrev on_channel : Multiplexer → ℕ → Option Channel → Round
  on_channel t p none = blocked
  on_channel t p (some c) = on_receive (remove_default t) chosen p c.queued c.is_closed

  abbrev if_ready : Multiplexer → Bool → Round
  if_ready t b = if b then blocked else looped (on_default (remove_default t) chosen)

  -- A receive from the chosen channel.
  received :
      (p : ℕ)
      → get_elem? s.cases chosen ≡ some (receive p)
      → (c : Channel) → lookup p s.channels ≡ some c
      → (vs : List Bytes) (b : Bool) → c.queued ≡ vs
      → c.is_closed ≡ b
      → on_receive s chosen p vs b ≡ looped u
      → stream u q k ≡ stream s q k
  unfolding on_receive
  received p case c at_p [] false g l r = absurd (cc r)
  received p case c at_p [] true g l r = absurd (cc (h.flowing p c at_p, l))
  received p case c at_p (v ∷ vs) b g l r =
      let (id, n) = h.named chosen p case in
      subst (λ (x : Multiplexer). stream x q k ≡ stream s q k) (looped_same r)
        (on_value_keeps_streams s h.ids chosen p id v vs c case at_p g n h.live q k f)

  receives :
      (t : Multiplexer) (p : ℕ)
      → remove_default t ≡ s
      → t.channels ≡ s.channels
      → get_elem? s.cases chosen ≡ some (receive p)
      → on_chosen t chosen (some (receive p)) ≡ looped u
      → stream u q k ≡ stream s q k
  unfolding on_chosen
  receives t p e g case r = elim (Option-cases (lookup p s.channels)) [
    | inl n ↦ absurd (blocked_loops (sym (ap (on_channel t p) (at_t n)) ∙ r))
    | inr (c, n) ↦ received p case c n c.queued c.is_closed refl refl (
        subst (λ (x : Multiplexer). on_receive x chosen p c.queued c.is_closed ≡ looped u) e
          (sym (ap (on_channel t p) (at_t n)) ∙ r))
  ]
    where
      at_t : {m : Option Channel} → lookup p s.channels ≡ m → lookup p t.channels ≡ m
      at_t n = ap (λ x. lookup p x) g ∙ n

  takes_pending :
      (t : Multiplexer)
      → remove_default t ≡ s
      → s.pending_id ≢ 0
      → ltb chosen (length s.cases) ≡ false
      → on_chosen t chosen (some default) ≡ looped u
      → stream u q k ≡ stream s q k
  unfolding on_chosen
  takes_pending t e nz last r = elim (Bool-cases (any_ready t t.cases)) [
    | inl g ↦ absurd (blocked_loops (sym (ap (if_ready t) g) ∙ r))
    | inr g ↦
        let (p, c, at_p, n) = h.pending nz in
        subst (λ (x : Multiplexer). stream x q k ≡ stream s q k)
          (looped_same
            (ap (λ x. looped (on_default x chosen)) (sym e) ∙ sym (ap (if_ready t) g) ∙ r))
          (on_default_keeps_streams s h.ids h.live chosen p c last at_p n q k f)
  ]

  -- A choice among the cases of `t`, which are those of `s` with or without the default.
  chooses :
      (t : Multiplexer) (x : Option SelectCase)
      → remove_default t ≡ s
      → t.channels ≡ s.channels
      → ((y : SelectCase)
          → x ≡ some y
          → (get_elem? s.cases chosen ≡ some y)
            ⊎ ((s.pending_id ≢ 0) × (ltb chosen (length s.cases) ≡ false) × (y ≡ default)))
      → on_chosen t chosen x ≡ looped u
      → stream u q k ≡ stream s q k
  unfolding on_chosen
  chooses t none e g place r = absurd (cc r)
  chooses t (some context_done) e g place r = absurd (cc r)
  chooses t (some add_tree) e g place r = absurd (cc r)
  chooses t (some (receive p)) e g place r = elim (place (receive p) refl) [
    | inl case ↦ receives t p e g case r
    | inr (nz, last, y) ↦ absurd (cc y)
  ]
  chooses t (some default) e g place r = elim (place default refl) [
    | inl case ↦ absurd (none_default (default_counts s.cases chosen case))
    | inr (nz, last, y) ↦ takes_pending t e nz last r
  ]
    where
      none_default : 1 ≤ count_defaults s.cases → ⊥
      none_default le = omega (arith, h.no_default)

dispatched :
    (t : Multiplexer) (chosen : ℕ) (u : Multiplexer)
    → t.adding ≡ []
    → dispatch t chosen ≡ looped u
    → on_chosen t chosen (get_elem? t.cases chosen) ≡ looped u
unfolding dispatch adds
dispatched t zero u e r = elim (Bool-cases t.is_cancelled) [
  | inl c ↦ absurd (cc (ap (λ b. if b then stopped else blocked) c, r))
  | inr c ↦ absurd (cc (ap (λ b. if b then stopped else blocked) c, r))
]
dispatched t (suc zero) u e r = absurd (cc (ap (adds t) e, r))
dispatched t (suc (suc i)) u e r = r

not_panicked :
    (b : Bool) (r : Round) (u : Multiplexer) → (if b then panicked else r) ≡ looped u → r ≡ looped u
not_panicked true r u e = absurd (cc e)
not_panicked false r u e = e

module _ (s : Multiplexer) (h : Steady s) where
  plain : s.pending_id == 0 ≡ true → (add_default s ≡ s) × (remove_default s ≡ s)
  unfolding add_default remove_default
  plain z = (rw (add_default, z) refl, rw (remove_default, z) refl)

  abbrev marked : Multiplexer
  marked = record s { cases = s.cases ++ default ∷ [] }

  extended : s.pending_id == 0 ≡ false → (add_default s ≡ marked) × (remove_default marked ≡ s)
  unfolding add_default remove_default
  extended z = (
    rw (add_default, z) refl,
    rw (remove_default, z) (ap (λ xs. record s { cases = xs }) (drop_last-append s.cases default)),
  )

  -- Where the chosen case stands without the default.
  placed :
      (chosen : ℕ)
      → s.pending_id == 0 ≡ false
      → (y : SelectCase) → get_elem? marked.cases chosen ≡ some y
      → (get_elem? s.cases chosen ≡ some y)
        ⊎ ((s.pending_id ≢ 0) × (ltb chosen (length s.cases) ≡ false) × (y ≡ default))
  placed chosen z y e = elim (behind s.cases chosen y e) [
    | inl f ↦ inl f
    | inr (f, g) ↦ inr (λ w. pending_set z w, f, g)
  ]
    where
      pending_set : s.pending_id == 0 ≡ false → s.pending_id ≡ 0 → ⊥
      pending_set z w = ground (arith, z, w)

  -- If the context is not done, the open trees have ids of their own, no execution waits to be added, no
  -- channel is closed, and the cases and the pending value are those of open trees: any round that
  -- loops leaves the stream of every tree as it is. The stream has the values that are not empty; an
  -- empty one may be dropped.
  pub round_keeps_streams :
      (chosen : ℕ) (u : Multiplexer)
      → round s chosen ≡ looped u
      → (q k : ℕ) → lookup q s.tree_ids ≡ some k
      → stream u q k ≡ stream s q k
  unfolding round
  round_keeps_streams chosen u r q k f =
      let d = not_panicked _ _ u r in
      elim (Bool-cases (s.pending_id == 0)) [
        | inl z ↦
            chooses s h chosen u q k f s (get_elem? s.cases chosen) (plain z).1 refl (λ y e. inl e)
              (dispatched s chosen u h.idle
                (subst (λ (x : Multiplexer). dispatch x chosen ≡ looped u) (plain z).0 d))
        | inr z ↦
            chooses s h chosen u q k f marked (get_elem? marked.cases chosen) (extended z).1 refl
              (placed chosen z)
              (dispatched marked chosen u h.idle
                (subst (λ (x : Multiplexer). dispatch x chosen ≡ looped u) (extended z).0 d))
      ]
