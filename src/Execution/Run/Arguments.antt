-- ===== src/Execution/Run/Arguments.antt =====
-- The arguments that a method is called with (execution/resolve_func.go), against its inputs.
pub mod Sorted
use magellan.Base.{
  ℕ, suc, ◌<◌, ◌≡◌, ◌≢◌, refl, sym, ap, ◌∙◌, String, Bool, true, false, Bool-cases, ◌&&◌, Option,
  none, some, List, [], ◌∷◌, ◌++◌, map, ◌⊎◌, inl, inr, ltb, ◌==◌, if◌then◌else◌, append-nil,
  append_assoc, subst, get_elem?, lookup, insert, nat_key, string_key, arith,
}
use magellan.Ast.Nodes.{FieldNode, Syntax}
use magellan.Execution.Reflect.{Reflect, Method, kind_of, elem_of, same_kind, ptr, chan, struct}
use magellan.Execution.Model.{FuncArgField, FuncResolver, Builder, built}
use magellan.Execution.Model.Grows.{bind-built}
use magellan.Execution.Model.Func.{Scan, start_scan, scan_arg, scan_args, without_receiver}
use magellan.Execution.Model.Func.Inputs.{Matched, Taken, scan_arg-Taken}
use magellan.Execution.Run.{
  Values, Task, execute_func, Run, Runtime, ran, go, ◌>>=◌, ◌>>◌, return, panic,
}
use magellan.Execution.Run.Methods.{
  qnode_of, field_values, context_args, struct_args, output_args, sort_args, execute_method,
}
use magellan.Execution.Run.Arguments.Sorted.{Below, Below-append, sort_args-last}

bind-ran :
    {A B : Type 0} (m : Run A) (k : A → Run B) (s : Runtime) (a : A)
    → m s ≡ ran a s
    → (m >>= k) s ≡ k a s
bind-ran m k s a h = cc h

-- The resolver of a method, when its result and the resolver of that are known.
abbrev pub finished : Scan → Bool → ℕ → ℕ → FuncResolver
finished x returns_error t result = record x.resolver {
  returns_error = returns_error;
  result_type = t;
  result_resolver = result;
}

module _ (rf : Reflect) (syn : Syntax) (field : FieldNode) (r : Values) (n c e : ℕ) where
  -- The value `w` is one for an input of type `t`: the context, a new struct with the arguments of
  -- the node `n`, or the output channel, of elements `e`.
  pub Fits : ℕ → ℕ → Type 0
  Fits t w =
      (((rf.type_at t).implements_context ≡ true) × (w ≡ r.context_value c))
      ⊎ (((same_kind (kind_of rf (elem_of rf t)) struct ≡ true)
            × (fields : List (String × FuncArgField)) × Matched rf syn field (elem_of rf t) fields
            × (w ≡ r.new_struct (elem_of rf t) (field_values rf r (elem_of rf t) n fields)))
          ⊎ ((same_kind (kind_of rf t) chan ≡ true) × (w ≡ r.chan_send c e)))

  -- One value for each input, in order.
  pub AllFit : List ℕ → List ℕ → Type 0
  AllFit [] [] = Unit
  AllFit [] (w ∷ ws) = ⊥
  AllFit (t ∷ ts) [] = ⊥
  AllFit (t ∷ ts) (w ∷ ws) = Fits t w × AllFit ts ws

  struct_slot : FuncResolver → List (ℕ × ℕ)
  struct_slot f =
      if ltb 0 f.args_arg
      then elim f.args_type [
        | none ↦ []
        | some t ↦ (f.args_arg, r.new_struct t (field_values rf r t n f.args_fields)) ∷ []
      ]
      else []

  output_slot : FuncResolver → List (ℕ × ℕ)
  output_slot f = if ltb 0 f.output_chan_arg then (f.output_chan_arg, r.chan_send c e) ∷ [] else []

  slots : FuncResolver → List (ℕ × ℕ)
  slots f = context_args r f c ++ struct_slot f ++ output_slot f

  -- The inputs before `i` are the ones whose places are known.
  Before : ℕ → FuncResolver → Type 0
  Before i f =
      (f.context_arg < i)
      × (f.args_arg < i)
      × (f.output_chan_arg < i)
      × (f.args_arg ≢ 0 → (t : ℕ) × (f.args_type ≡ some t))

  context_args-Below : (i : ℕ) (f : FuncResolver) → f.context_arg < i → Below i (context_args r f c)
  unfolding context_args Below
  context_args-Below i f h = ground arith

  struct_slot-Below : (i : ℕ) (f : FuncResolver) → f.args_arg < i → Below i (struct_slot f)
  unfolding struct_slot Below
  struct_slot-Below i f h = ground arith

  output_slot-Below : (i : ℕ) (f : FuncResolver) → f.output_chan_arg < i → Below i (output_slot f)
  unfolding output_slot Below
  output_slot-Below i f h = ground arith

  context_args-new :
      (i : ℕ) (f : FuncResolver)
      → i ≢ 0
      → f.context_arg ≡ 0
      → (context_args r f c ≡ [])
        × (context_args r (record f { context_arg = i }) c ≡ (i, r.context_value c) ∷ [])
  unfolding context_args
  context_args-new i f h e = (ground arith, ground arith)

  struct_slot-new :
      (i t : ℕ) (fields : List (String × FuncArgField)) (f : FuncResolver)
      → i ≢ 0
      → f.args_arg ≡ 0
      → (struct_slot f ≡ [])
        × (struct_slot (record f { args_arg = i; args_type = some t; args_fields = fields })
            ≡ (i, r.new_struct t (field_values rf r t n fields)) ∷ [])
  unfolding struct_slot
  struct_slot-new i t fields f h e = (ground arith, ground arith)

  output_slot-new :
      (i : ℕ) (f : FuncResolver)
      → i ≢ 0
      → f.output_chan_arg ≡ 0
      → (output_slot f ≡ [])
        × (output_slot (record f { output_chan_arg = i }) ≡ (i, r.chan_send c e) ∷ [])
  unfolding output_slot
  output_slot-new i f h e = (ground arith, ground arith)

  Next : ℕ → ℕ → FuncResolver → FuncResolver → Type 0
  Next i t f g =
      (w : ℕ) × Fits t w
      × (sort_args (slots g) ≡ sort_args (slots f) ++ (i, w) ∷ [])
      × Before (suc i) g

  context-Next :
      (i t : ℕ) (f : FuncResolver)
      → i ≢ 0
      → Before i f
      → f.context_arg ≡ 0
      → (rf.type_at t).implements_context ≡ true
      → Next i t f (record f { context_arg = i })
  unfolding Next Fits slots Before struct_slot output_slot Below
  context-Next i t f h (b1, b2, b3, b4) z p =
      let rest = struct_slot f ++ output_slot f in
      let w = r.context_value c in
      let new = context_args-new i f h z in
      let below : Below i rest =
        Below-append i (struct_slot f) (output_slot f) (struct_slot-Below i f b2)
          (output_slot-Below i f b3) in
      (
        w,
        inl (p, refl),
        ap (λ l. sort_args (l ++ struct_slot f ++ output_slot f)) (new.1)
            ∙ sort_args-last (i, w) [] rest tt below
            ∙ ap (λ l. sort_args (l ++ struct_slot f ++ output_slot f) ++ (i, w) ∷ [])
                (sym (new.0)),
        (ground arith, ground arith, ground arith, b4),
      )

  struct-Next :
      (i t : ℕ) (fields : List (String × FuncArgField)) (f : FuncResolver)
      → i ≢ 0
      → Before i f
      → f.args_arg ≡ 0
      → same_kind (kind_of rf (elem_of rf t)) struct ≡ true
      → Matched rf syn field (elem_of rf t) fields
      → Next i t f
          (record f { args_arg = i; args_type = some (elem_of rf t); args_fields = fields })
  unfolding Next Fits slots Before output_slot context_args
  struct-Next i t fields f h (b1, b2, b3, b4) z p matched =
      let u = elem_of rf t in
      let w = r.new_struct u (field_values rf r u n fields) in
      let new = struct_slot-new i u fields f h z in
      let first = context_args r f c in
      (
        w,
        inr (inl (p, fields, matched, refl)),
        ap (λ l. sort_args (first ++ l ++ output_slot f)) (new.1)
            ∙ ap sort_args (append_assoc first ((i, w) ∷ []) (output_slot f))
            ∙ sort_args-last (i, w) first (output_slot f) (context_args-Below i f b1)
                (output_slot-Below i f b3)
            ∙ ap (λ l. sort_args (l ++ output_slot f) ++ (i, w) ∷ []) (sym (append-nil first))
            ∙ ap (λ l. sort_args (first ++ l ++ output_slot f) ++ (i, w) ∷ []) (sym (new.0)),
        (ground arith, ground arith, ground arith, λ _. (u, refl)),
      )

  output-Next :
      (i t : ℕ) (f : FuncResolver)
      → i ≢ 0
      → Before i f
      → f.output_chan_arg ≡ 0
      → same_kind (kind_of rf t) chan ≡ true
      → Next i t f (record f { output_chan_arg = i })
  unfolding Next Fits slots Before struct_slot context_args Below
  output-Next i t f h (b1, b2, b3, b4) z p =
      let first = context_args r f c ++ struct_slot f in
      let w = r.chan_send c e in
      let new = output_slot-new i f h z in
      let below : Below i first =
        Below-append i (context_args r f c) (struct_slot f) (context_args-Below i f b1)
          (struct_slot-Below i f b2) in
      (
        w,
        inr (inr (p, refl)),
        ap (λ l. sort_args (context_args r f c ++ struct_slot f ++ l)) (new.1)
            ∙ sort_args-last (i, w) first [] below tt
            ∙ ap (λ l. sort_args (context_args r f c ++ struct_slot f ++ l) ++ (i, w) ∷ [])
                (sym (new.0)),
        (ground arith, ground arith, ground arith, b4),
      )

  Taken-Next :
      (i t : ℕ) (f g : FuncResolver)
      → i ≢ 0
      → Before i f
      → Taken rf syn field i t f g
      → Next i t f g
  unfolding Taken
  Taken-Next i t f g h b (inl (z, p, q)) = subst (Next i t f) (sym q) (context-Next i t f h b z p)
  Taken-Next i t f g h b (inr (inl (z, p, fields, matched, q))) =
      subst (Next i t f) (sym q) (struct-Next i t fields f h b z p matched)
  Taken-Next i t f g h b (inr (inr (z, p, q))) =
      subst (Next i t f) (sym q) (output-Next i t f h b z p)

  -- The inputs that are scanned add their values behind those that were there.
  Added : List ℕ → FuncResolver → FuncResolver → Type 0
  Added ts f g =
      (added : List (ℕ × ℕ)) × AllFit ts (map (λ a. a.1) added)
      × (sort_args (slots g) ≡ sort_args (slots f) ++ added)
      × (i : ℕ) × Before i g

  scan_args-Added :
      (i : ℕ) (ts : List ℕ) (x y : Scan) (s u : Builder)
      → scan_args rf syn field i ts x s ≡ built y u
      → i ≢ 0
      → Before i x.resolver
      → Added ts x.resolver y.resolver
  unfolding scan_args Added AllFit Next
  scan_args-Added i [] x y s u h z b =
      let e : x ≡ y = cc h in
      subst (λ y. Added [] x.resolver y.resolver) e
        ([], tt, sym (append-nil (sort_args (slots x.resolver))), i, b)
  scan_args-Added i (t ∷ ts) x y s u h z b =
      let (x', s', k, l) = bind-built (scan_arg rf syn field i t x) _ s y u h in
      let (w, fit, order, before) =
        Taken-Next i t x.resolver x'.resolver z b (scan_arg-Taken rf syn field i t x x' s s' k) in
      let (added, fits, last, j, after) =
        scan_args-Added (suc i) ts x' y s' u l (ground arith) before in
      (
        (i, w) ∷ added,
        (fit, fits),
        last
            ∙ ap (λ l. l ++ added) order
            ∙ append_assoc (sort_args (slots x.resolver)) ((i, w) ∷ []) added,
        j,
        after,
      )

  struct_args-slot :
      (i : ℕ) (f : FuncResolver) (s : Runtime)
      → Before i f
      → struct_args rf r f (some n) s ≡ ran (struct_slot f) s
  unfolding Before struct_args struct_slot
  struct_args-slot i f s (_, _, _, typed) = elim (Bool-cases (ltb 0 f.args_arg)) [
    | inl p ↦ let (t, e) = typed (ground arith) in ground (arith, e)
    | inr p ↦ ground arith
  ]

  output_args-slot :
      (f : FuncResolver) (k : List (ℕ × ℕ) → Run (Unit {0})) (s : Runtime)
      → elem_of rf f.result_type ≡ e
      → (output_args rf r f c >>= k) s ≡ (output_args rf r f c >> k (output_slot f)) s
  unfolding output_args output_slot go
  output_args-slot f k s h = elim (Bool-cases (ltb 0 f.output_chan_arg)) [
    | inl p ↦ ground (arith, h)
    | inr p ↦ ground arith
  ]

  execute_method-slots :
      (run : Task → Run (Unit {0})) (a i : ℕ) (f : FuncResolver) (v : ℕ) (s : Runtime)
      → Before i f
      → elem_of rf f.result_type ≡ e
      → qnode_of c s ≡ ran (some n) s
      → execute_method rf r run a f c v s
        ≡ (output_args rf r f c >> run (execute_func a c v (map (λ x. x.1) (sort_args (slots f)))))
            s
  unfolding execute_method slots
  execute_method-slots run a i f v s b h q =
      let called : List (ℕ × ℕ) → List (ℕ × ℕ) → Run (Unit {0}) = λ p o.
        run (execute_func a c v (map (λ x. x.1) (sort_args (context_args r f c ++ p ++ o)))) in
      bind-ran (qnode_of c) (λ q. struct_args rf r f q >>= λ p. output_args rf r f c >>= called p) s
        (some n) q
      ∙ bind-ran (struct_args rf r f (some n)) (λ p. output_args rf r f c >>= called p) s
          (struct_slot f) (struct_args-slot i f s b)
      ∙ output_args-slot f (called (struct_slot f)) s h

  start-Before : (m : Method) (name : String) → Before 1 (start_scan m name).resolver
  unfolding Before start_scan
  start-Before m name = (ground arith, ground arith, ground arith, λ h. elim (h refl) [ ])

  start-slots : (m : Method) (name : String) → sort_args (slots (start_scan m name).resolver) ≡ []
  unfolding slots context_args struct_slot output_slot start_scan sort_args
  start-slots m name = refl

-- A method whose inputs pass is called with one value for each input after the receiver, in order and
-- fit for it, once its output channel is made; its node exists.
pub execute_method-AllFit :
    (rf : Reflect) (r : Values) (syn : Syntax) (field : FieldNode) (m : Method) (name : String)
    (x : Scan) (b b' : Builder)
    → scan_args rf syn field 1 (without_receiver m.inputs) (start_scan m name) b ≡ built x b'
    → (returns_error : Bool) (t result : ℕ) (run : Task → Run (Unit {0})) (a c v n : ℕ)
      (s : Runtime)
    → qnode_of c s ≡ ran (some n) s
    → (args : List ℕ) × AllFit rf syn field r n c (elem_of rf t) (without_receiver m.inputs) args
      × (execute_method rf r run a (finished x returns_error t result) c v s
          ≡ (output_args rf r (finished x returns_error t result) c
                >> run (execute_func a c v args))
              s)
unfolding Added slots Before struct_slot output_slot context_args
execute_method-AllFit rf r syn field m name x b b' h returns_error t result run a c v n s q =
    let e = elem_of rf t in
    let (added, fits, order, i, before) =
      scan_args-Added rf syn field r n c e 1 (without_receiver m.inputs) (start_scan m name) x b b'
        h (ground arith) (start-Before rf syn field r n c e m name) in
    let same : sort_args (slots rf syn field r n c e x.resolver) ≡ added =
      order ∙ ap (λ l. l ++ added) (start-slots rf syn field r n c e m name) in
    (
      map (λ x. x.1) (sort_args (slots rf syn field r n c e x.resolver)),
      subst (λ l. AllFit rf syn field r n c e (without_receiver m.inputs) (map (λ x. x.1) l))
          (sym same) fits,
      execute_method-slots rf syn field r n c e run a i (finished x returns_error t result) v s
          before refl q,
    )
