-- ===== src/Result/Multiplexer/Delivery.antt =====
-- A round of result/result_multiplexer.go passes on every tree's stream.
use magellan.Base.{
  ℕ, ◌≡◌, ◌≢◌, refl, ap, sym, subst, ◌∙◌, true, false, ◌&&◌, some, List, [], ◌∷◌, ◌++◌, length,
  get_elem?, lookup, modify, lookup-modify, nat_key, ltb, ◌==◌, arith, append-nil, append_assoc,
  Bool-cases, inl, inr, ◌⊎◌,
}
use magellan.Result.Multiplexer.{
  Bytes, value_batch, Channel, receive, Multiplexer, send, total, queued_at, left_at, drain_into,
  drained_channel, finish, no_pending, take_pending, tree_id_of,
}
use magellan.Result.Multiplexer.Rounds.{on_value, on_default}
use magellan.Result.Multiplexer.Streams.{
  solid, solid-append, solid-empty, delivered, delivered-send, pending_of, stream, given,
  given-same, given-other, Related, drained_own, drained_foreign, left_there, left_alone, combine,
}

abbrev told : Multiplexer → ℕ → ℕ → ℕ → List Bytes → List Bytes
told s id q k values =
    solid (delivered k s.sent ++ given id k values ++ pending_of s k ++ queued_at q s.channels)

no_pending_of : (s : Multiplexer) (k : ℕ) → k ≢ 0 → s.pending_id ≡ 0 → pending_of s k ≡ []
no_pending_of s k nz z = grind (arith, nz, z)

given-solid : (id k : ℕ) (vs : List Bytes) → total vs ≡ 0 → solid (given id k vs) ≡ []
given-solid id k vs z = elim (Bool-cases (id == k)) [
  | inl e ↦ rw e (solid-empty vs z)
  | inr e ↦ rw e refl
]

solid-skip : (d v p q : List Bytes) → solid v ≡ [] → solid (d ++ p ++ q) ≡ solid (d ++ v ++ p ++ q)
solid-skip d v p q e =
    solid-append (d ++ p) q
    ∙ ap (λ zs. zs ++ solid q)
        (solid-append d p
          ∙ ap (λ zs. zs ++ solid p)
              (sym (solid-append d v ∙ ap (λ zs. solid d ++ zs) e ∙ append-nil (solid d)))
          ∙ sym (solid-append (d ++ v) p))
    ∙ sym (solid-append (d ++ v ++ p) q)

module _ (s : Multiplexer) (chosen id p k q : ℕ) (values : List Bytes) (c : Channel)
    (found : drained_channel s chosen ≡ some p ⊎ (ltb chosen (length s.cases) ≡ false))
    (at_p : lookup p s.channels ≡ some c) (nonzero : k ≢ 0) (related : Related id p k q)
    (live : s.is_cancelled ≡ false) where
  told_without :
      (g : List Bytes)
      → given id k values ≡ g
      → s.pending_id ≡ 0
      → told s id q k values ≡ solid (delivered k s.sent ++ g ++ queued_at q s.channels)
  told_without g e z =
      ap (λ xs. solid (xs ++ queued_at q s.channels))
        (ap (λ xs. xs ++ pending_of s k) (ap (λ xs. delivered k s.sent ++ xs) e)
          ∙ ap (λ xs. delivered k s.sent ++ g ++ xs) (no_pending_of s k nonzero z)
          ∙ append-nil (delivered k s.sent ++ g))

  drained_told :
      s.pending_id ≡ 0
      → stream (send (drain_into s p id values).0 (value_batch id (drain_into s p id values).1)) q k
        ≡ told s id q k values
  drained_told z = elim related [
    | inl (a, b) ↦
        subst
          (λ (x : ℕ).
            stream (send (drain_into s p id values).0 (value_batch id (drain_into s p id values).1))
              x k
            ≡ solid (delivered k s.sent ++ values ++ queued_at x s.channels))
          (sym b) (drained_own s id p k values nonzero live c at_p z a)
        ∙ sym (
            told_without values
              (subst (λ (j : ℕ). given id j values ≡ values) (sym a) (given-same id values)) z)
    | inr (a, b) ↦
        drained_foreign s id p k values nonzero live q z a b
        ∙ ap (λ xs. solid (xs ++ queued_at q s.channels)) (sym (append-nil (delivered k s.sent)))
        ∙ sym (told_without [] (given-other id k values a) z)
  ]

  pub finish-told : stream (finish s chosen id values) q k ≡ told s id q k values
  unfolding finish
  finish-told = elim (Bool-cases (total values == 0)) [
    | inl e ↦
        rw (finish, e)
          (solid-skip (delivered k s.sent) (given id k values) (pending_of s k)
            (queued_at q s.channels) (given-solid id k values (grind arith)))
    | inr e ↦ elim (Bool-cases (ltb chosen (length s.cases) && s.pending_id == 0)) [
      | inl f ↦ elim found [
        | inl g ↦ rw (finish, e, f, g) (drained_told (grind arith))
        | inr g ↦ elim (by_false g f) [ ]
      ]
      | inr f ↦ rw (finish, e, f, live, delivered-send k id s.sent values) refl
    ]
  ]
    where
      by_false :
          ltb chosen (length s.cases) ≡ false
          → (ltb chosen (length s.cases) && s.pending_id == 0) ≡ true
          → ⊥
      by_false g f = ground arith

parts :
    {a a' b b' c c' d d' : List Bytes}
    → a ≡ a'
    → b ≡ b'
    → c ≡ c'
    → d ≡ d'
    → a ++ b ++ c ++ d ≡ a' ++ b' ++ c' ++ d'
parts p q r s = cc (p, q, r, s)

regroup :
    (d p : List Bytes) (v : Bytes) (rest : List Bytes)
    → d ++ (p ++ v ∷ []) ++ [] ++ rest ≡ d ++ p ++ (v ∷ rest)
regroup d p v rest =
    ap (λ xs. xs ++ rest) (append-nil (d ++ (p ++ v ∷ [])) ∙ sym (append_assoc d p (v ∷ [])))
    ∙ append_assoc (d ++ p) (v ∷ []) rest

given_own : {id k : ℕ} → k ≡ id → (vs : List Bytes) → given id k vs ≡ vs
given_own {id} e vs = subst (λ (j : ℕ). given id j vs ≡ vs) (sym e) (given-same id vs)

-- Every open tree has an id of its own, which is not 0.
pub record HasIds (s : Multiplexer) : Type 0 where
  pub nonzero : (p id : ℕ) → lookup p s.tree_ids ≡ some id → id ≢ 0
  pub injective :
      (p q id : ℕ) → lookup p s.tree_ids ≡ some id → lookup q s.tree_ids ≡ some id → p ≡ q

some_same : {a b : ℕ} → some a ≡ some b → a ≡ b
some_same e = cc e

Related-by :
    (s : Multiplexer)
    → HasIds s
    → (p id q k : ℕ) → lookup p s.tree_ids ≡ some id
    → lookup q s.tree_ids ≡ some k
    → Related id p k q
Related-by s h p id q k e f = elim (nat_key.dec k id) [
  | yes a ↦ inl (a, h.injective q p id (subst (λ (x : ℕ). lookup q s.tree_ids ≡ some x) a f) e)
  | no a ↦ inr (a, λ b. a (some_same (sym f ∙ ap (λ x. lookup x s.tree_ids) b ∙ e)))
]

module _ (s : Multiplexer) (h : HasIds s) (chosen p id : ℕ) (v : Bytes) (rest : List Bytes)
    (c : Channel) (case : get_elem? s.cases chosen ≡ some (receive p))
    (at_p : lookup p s.channels ≡ some c) (ready : c.queued ≡ v ∷ rest)
    (named : lookup p s.tree_ids ≡ some id) (live : s.is_cancelled ≡ false) where
  abbrev received : Multiplexer
  received = record s { channels = modify p (left_at rest) s.channels }

  -- The round after `id` is known.
  abbrev handled : ℕ → Multiplexer × List Bytes → Multiplexer
  handled j t = finish t.0 chosen j (t.1 ++ v ∷ [])

  named_id : tree_id_of s p ≡ id
  named_id = rw (tree_id_of, named) refl

  handles : on_value s chosen p v rest ≡ handled id (take_pending received id)
  unfolding on_value
  handles = ap (λ j. handled j (take_pending received j)) named_id

  received_at : lookup p received.channels ≡ some (left_at rest c)
  received_at = rw (lookup-modify p p (left_at rest) s.channels, at_p) (grind arith)

  found : drained_channel s chosen ≡ some p
  unfolding drained_channel
  found = rw (drained_channel, case) refl

  queue_at : queued_at p s.channels ≡ v ∷ rest
  unfolding queued_at
  queue_at = rw (queued_at, at_p) ready

  module _ (q k : ℕ) (f : lookup q s.tree_ids ≡ some k) where
    -- What the tree `k` has after a round that puts `before` ahead of `v`, in a state `t`.
    round_told :
        (t : Multiplexer) (before : List Bytes)
        → drained_channel t chosen ≡ some p
        → t.channels ≡ received.channels
        → t.sent ≡ s.sent
        → t.is_cancelled ≡ s.is_cancelled
        → (k ≡ id → pending_of t k ≡ [])
        → (k ≡ id → before ≡ pending_of s k)
        → (k ≢ id → pending_of t k ≡ pending_of s k)
        → stream (finish t chosen id (before ++ v ∷ [])) q k ≡ stream s q k
    round_told t before g ch se ca own pend foreign =
        finish-told t chosen id p k q (before ++ v ∷ []) (left_at rest c) (inl g)
          (ap (λ m. lookup p m) ch ∙ received_at) (h.nonzero q k f)
          (Related-by s h p id q k named f) (ca ∙ live)
        ∙ elim (Related-by s h p id q k named f) [
          | inl (a, b) ↦ ap solid (
              parts (ap (delivered k) se) (given_own a (before ++ v ∷ [])) (own a) (
                ap (queued_at q) ch
                ∙ ap (λ x. queued_at x received.channels) b
                ∙ left_there p c rest s.channels at_p)
              ∙ regroup (delivered k s.sent) before v rest
              ∙ combine refl (pend a) (sym (ap (λ x. queued_at x s.channels) b ∙ queue_at)))
          | inr (a, b) ↦ ap solid (
              parts (ap (delivered k) se) (given-other id k (before ++ v ∷ []) a) (foreign a)
                (ap (queued_at q) ch ∙ left_alone p q rest s.channels b)
              ∙ ap (λ xs. xs ++ pending_of s k ++ queued_at q s.channels)
                  (append-nil (delivered k s.sent)))
        ]

    -- If the chosen case receives from the channel `p` of the tree `id`, and the channel has the value `v`
    -- and then `rest`: the stream of every tree is the same after the round as before it.
    pub on_value_keeps_streams : stream (on_value s chosen p v rest) q k ≡ stream s q k
    unfolding take_pending drained_channel
    on_value_keeps_streams = elim (Bool-cases (id == s.pending_id)) [
      | inl e ↦
          rw (handles, take_pending, e)
            (round_told (no_pending received) (s.pending_val ∷ []) found refl refl refl
              (λ a. ground (arith, e, a, h.nonzero q k f))
              (λ a. ground (arith, e, a, h.nonzero q k f))
              (λ a. ground (arith, e, a, h.nonzero q k f)))
      | inr e ↦
          rw (handles, take_pending, e)
            (round_told received [] found refl refl refl
              (λ a. ground (arith, e, a, h.nonzero q k f))
              (λ a. ground (arith, e, a, h.nonzero q k f))
              (λ a. ground (arith, e, a, h.nonzero q k f)))
    ]

-- If the pending value's tree is open and the chosen case lies behind the others (the default case):
-- the stream of every tree is the same after the round as before it.
pub on_default_keeps_streams :
    (s : Multiplexer)
    → HasIds s
    → s.is_cancelled ≡ false
    → (chosen p : ℕ) (c : Channel) → ltb chosen (length s.cases) ≡ false
    → lookup p s.channels ≡ some c
    → lookup p s.tree_ids ≡ some s.pending_id
    → (q k : ℕ) → lookup q s.tree_ids ≡ some k
    → stream (on_default s chosen) q k ≡ stream s q k
unfolding on_default
on_default_keeps_streams s h live chosen p c last at_p named q k f =
    let related = Related-by s h p s.pending_id q k named f in
    finish-told (no_pending s) chosen s.pending_id p k q (s.pending_val ∷ []) c (inr last) at_p
      (h.nonzero q k f) related live
    ∙ ap (λ xs. solid (xs ++ queued_at q s.channels))
        (ap (λ xs. delivered k s.sent ++ given s.pending_id k (s.pending_val ∷ []) ++ xs)
            (no_pending_of (no_pending s) k (h.nonzero q k f) refl)
          ∙ append-nil (delivered k s.sent ++ pending_of s k))
