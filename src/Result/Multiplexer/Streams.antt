-- ===== src/Result/Multiplexer/Streams.antt =====
-- What a tree's client gets of its values: the loop of result/result_multiplexer.go against the
-- stream that the tree's execution wrote.
use magellan.Base.{
  ℕ, suc, ◌+◌, ◌≤◌, ◌≡◌, ◌≢◌, refl, ap, sym, subst, ◌∙◌, false, Option, none, some, List, [], ◌∷◌,
  ◌++◌, length, lookup, modify, lookup-modify, nat_key, ltb, ◌==◌, if◌then◌else◌, arith, append-nil,
  append_assoc, Bool-cases, Option-cases, inl, inr, ◌⊎◌,
}
use magellan.Result.Multiplexer.{
  Bytes, max_batch_size, ServerMessage, value_init, value_batch, value_finalize, Channel,
  Multiplexer, sent_with, send, total, Drained, drain, deferring, queued_at, left_at, defer,
  drain_into,
}

-- The values that are not empty.
abbrev pub solid : List Bytes → List Bytes
solid [] = []
solid ([] ∷ vs) = solid vs
solid ((x ∷ xs) ∷ vs) = (x ∷ xs) ∷ solid vs

pub solid-append : (xs ys : List Bytes) → solid (xs ++ ys) ≡ solid xs ++ solid ys
solid-append [] ys = refl
solid-append ([] ∷ xs) ys = solid-append xs ys
solid-append ((x ∷ v) ∷ xs) ys = ap (λ zs. (x ∷ v) ∷ zs) (solid-append xs ys)

-- The values that went to the client for the tree `id`.
abbrev pub delivered : ℕ → List ServerMessage → List Bytes
delivered id [] = []
delivered id (value_batch i vs ∷ ms) = if i == id then vs ++ delivered id ms else delivered id ms
delivered id (_ ∷ ms) = delivered id ms

delivered-append :
    (id : ℕ) (xs ys : List ServerMessage)
    → delivered id (xs ++ ys) ≡ delivered id xs ++ delivered id ys
delivered-append id [] ys = refl
delivered-append id (value_init a b c d ∷ ms) ys = delivered-append id ms ys
delivered-append id (value_finalize a ∷ ms) ys = delivered-append id ms ys
delivered-append id (value_batch i vs ∷ ms) ys = elim (Bool-cases (i == id)) [
  | inl e ↦
      rw (e, delivered-append id ms ys) (sym (append_assoc vs (delivered id ms) (delivered id ys)))
  | inr e ↦ rw (e, delivered-append id ms ys) refl
]

-- The value that was read for the tree `id` and not sent yet.
abbrev pub pending_of : Multiplexer → ℕ → List Bytes
pending_of s id = if s.pending_id == id then s.pending_val ∷ [] else []

-- The stream of the tree `id` on the channel `p`: what its client has, what is pending, and what
-- is still on the channel.
abbrev pub stream : Multiplexer → ℕ → ℕ → List Bytes
stream s p id = solid (delivered id s.sent ++ pending_of s id ++ queued_at p s.channels)

abbrev opt_list : Option Bytes → List Bytes
opt_list none = []
opt_list (some v) = v ∷ []

-- The inner loop neither loses nor reorders values: what joins the batch, what is deferred and what
-- is left are the queue.
pub drain-splits :
    (size : ℕ) (vs : List Bytes)
    → (drain size vs).taken ++ opt_list (drain size vs).deferred ++ (drain size vs).left ≡ vs
unfolding drain deferring
drain-splits size [] = refl
drain-splits size (v ∷ vs) = elim (Bool-cases (ltb size max_batch_size)) [
  | inl e ↦ elim (Bool-cases (ltb max_batch_size (size + length v))) [
    | inl f ↦ rw (e, f, drain) refl
    | inr f ↦ rw (e, f, drain) (ap (λ zs. v ∷ zs) (drain-splits (size + length v) vs))
  ]
  | inr e ↦ rw (e, drain) refl
]

-- A batch that is within `MaxBatchSize` before the inner loop is within it after the loop.
pub drain-bounded :
    (size : ℕ) (vs : List Bytes)
    → size ≤ max_batch_size
    → size + total (drain size vs).taken ≤ max_batch_size
unfolding drain deferring
drain-bounded size [] h = omega arith
drain-bounded size (v ∷ vs) h = elim (Bool-cases (ltb size max_batch_size)) [
  | inl e ↦ elim (Bool-cases (ltb max_batch_size (size + length v))) [
    | inl f ↦ rw (e, f, drain) (omega arith)
    | inr f ↦ rw (e, f, drain) (grind (arith, drain-bounded (size + length v) vs))
  ]
  | inr e ↦ rw (e, drain) (omega arith)
]

pub solid-empty : (vs : List Bytes) → total vs ≡ 0 → solid vs ≡ []
solid-empty [] h = refl
solid-empty ([] ∷ vs) h = solid-empty vs (omega (arith, h))
solid-empty ((x ∷ xs) ∷ vs) h = elim (not_zero h) [ ]
  where
    not_zero : suc (length xs) + total vs ≡ 0 → ⊥
    not_zero e = omega arith

-- The values of a batch for `id`, as the tree `k` sees them.
abbrev pub given : ℕ → ℕ → List Bytes → List Bytes
given id k values = if id == k then values else []

pub delivered-send :
    (k id : ℕ) (ms : List ServerMessage) (vs : List Bytes)
    → delivered k (ms ++ value_batch id vs ∷ []) ≡ delivered k ms ++ given id k vs
delivered-send k id ms vs = elim (Bool-cases (id == k)) [
  | inl e ↦
      rw (e, delivered-append k ms (value_batch id vs ∷ []))
        (ap (λ zs. delivered k ms ++ zs) (rw (e, append-nil vs) refl))
  | inr e ↦ rw (e, delivered-append k ms (value_batch id vs ∷ [])) (rw e refl)
]

-- Whether the channel `q` and the id `k` are those of one tree with `p` and `id`.
abbrev pub Related : ℕ → ℕ → ℕ → ℕ → Type 0
Related id p k q = ((k ≡ id) × (q ≡ p)) ⊎ ((k ≢ id) × (q ≢ p))

pub given-same : (id : ℕ) (vs : List Bytes) → given id id vs ≡ vs
given-same id vs = grind arith

pub given-other : (id k : ℕ) (vs : List Bytes) → k ≢ id → given id k vs ≡ []
given-other id k vs ne = grind arith

module _ (s : Multiplexer) (id p : ℕ) (values : List Bytes) where
  abbrev queue : List Bytes
  queue = queued_at p s.channels

  abbrev pub inner : Drained
  inner = drain (total values) queue

  drained_sent : (drain_into s p id values).0.sent ≡ s.sent
  unfolding drain_into defer
  drained_sent = elim (Option-cases inner.deferred) [
    | inl e ↦ rw (e, defer) refl
    | inr (v, e) ↦ rw (e, defer) refl
  ]

  drained_live : (drain_into s p id values).0.is_cancelled ≡ s.is_cancelled
  unfolding drain_into defer
  drained_live = elim (Option-cases inner.deferred) [
    | inl e ↦ rw (e, defer) refl
    | inr (v, e) ↦ rw (e, defer) refl
  ]

  drained_pending :
      (k : ℕ)
      → k ≢ 0
      → s.pending_id ≡ 0
      → pending_of (drain_into s p id values).0 k ≡ given id k (opt_list inner.deferred)
  unfolding drain_into defer
  drained_pending k nz z = elim (Option-cases inner.deferred) [
    | inl e ↦ rw (e, z, defer) (grind (arith, nz))
    | inr (v, e) ↦ rw (e, defer) refl
  ]

  drained_channels :
      (drain_into s p id values).0.channels ≡ modify p (left_at inner.left) s.channels
  unfolding drain_into defer
  drained_channels = elim (Option-cases inner.deferred) [
    | inl e ↦ rw (e, defer) refl
    | inr (v, e) ↦ rw (e, defer) refl
  ]

-- Until the context is done each message is sent.
pub sent_with-live :
    (s : Multiplexer) (m : ServerMessage)
    → s.is_cancelled ≡ false
    → sent_with s m ≡ s.sent ++ m ∷ []
sent_with-live s m live = rw live refl

pub left_alone :
    (p q : ℕ) (vs : List Bytes) (m : List (ℕ × Channel))
    → q ≢ p
    → queued_at q (modify p (left_at vs) m) ≡ queued_at q m
unfolding queued_at
left_alone p q vs m ne = rw (queued_at, lookup-modify q p (left_at vs) m) (grind (arith, ne))

pub left_there :
    (p : ℕ) (c : Channel) (vs : List Bytes) (m : List (ℕ × Channel))
    → lookup p m ≡ some c
    → queued_at p (modify p (left_at vs) m) ≡ vs
unfolding queued_at
left_there p c vs m e = rw (queued_at, lookup-modify p p (left_at vs) m, e) (grind arith)

pub combine : {a b c d e f : List Bytes} → a ≡ b → c ≡ d → e ≡ f → a ++ c ++ e ≡ b ++ d ++ f
combine p q r = cc (p, q, r)

regroup : (d v t f l q : List Bytes) → t ++ f ++ l ≡ q → (d ++ (v ++ t)) ++ f ++ l ≡ d ++ v ++ q
regroup d v t f l q e =
    ap (λ zs. zs ++ f ++ l) (sym (append_assoc d v t))
    ∙ ap (λ zs. zs ++ l) (append_assoc (d ++ v) t f)
    ∙ append_assoc (d ++ v) (t ++ f) l
    ∙ ap (λ zs. (d ++ v) ++ zs) e

module _ (s : Multiplexer) (id p k : ℕ) (values : List Bytes) (nonzero : k ≢ 0)
    (live : s.is_cancelled ≡ false) where
  abbrev pub after : Multiplexer
  after = send (drain_into s p id values).0 (value_batch id (drain_into s p id values).1)

  after_sent :
      delivered k after.sent
      ≡ delivered k s.sent ++ given id k (values ++ (inner s id p values).taken)
  unfolding drain_into
  after_sent =
      ap (delivered k) (
        sent_with-live (drain_into s p id values).0 (value_batch id (drain_into s p id values).1)
          (drained_live s id p values ∙ live))
      ∙ rw (delivered-send k id (drain_into s p id values).0.sent (drain_into s p id values).1)
          (rw (drained_sent s id p values) refl)

  pub drained_own :
      (c : Channel)
      → lookup p s.channels ≡ some c
      → s.pending_id ≡ 0
      → k ≡ id
      → stream after p k ≡ solid (delivered k s.sent ++ values ++ queued_at p s.channels)
  drained_own c e z own = ap solid (
      combine
        (after_sent
          ∙ ap (λ zs. delivered k s.sent ++ zs)
              (subst
                (λ (j : ℕ).
                  given id j (values ++ (inner s id p values).taken)
                  ≡ values ++ (inner s id p values).taken)
                (sym own) (given-same id _)))
        (drained_pending s id p values k nonzero z
          ∙ subst
              (λ (j : ℕ).
                given id j (opt_list (inner s id p values).deferred)
                ≡ opt_list (inner s id p values).deferred)
              (sym own) (given-same id _))
        (ap (λ m. queued_at p m) (drained_channels s id p values)
          ∙ left_there p c (inner s id p values).left s.channels e)
      ∙ regroup (delivered k s.sent) values _ _ _ _
          (drain-splits (total values) (queued_at p s.channels)))

  pub drained_foreign :
      (q : ℕ)
      → s.pending_id ≡ 0
      → k ≢ id
      → q ≢ p
      → stream after q k ≡ solid (delivered k s.sent ++ queued_at q s.channels)
  drained_foreign q z ne nq = ap solid (
      combine
        (after_sent
          ∙ ap (λ zs. delivered k s.sent ++ zs) (given-other id k _ ne)
          ∙ append-nil (delivered k s.sent))
        (drained_pending s id p values k nonzero z ∙ given-other id k _ ne)
        (ap (λ m. queued_at q m) (drained_channels s id p values)
          ∙ left_alone p q (inner s id p values).left s.channels nq)
      ∙ ap (λ zs. zs ++ queued_at q s.channels) (append-nil (delivered k s.sent)))
