-- ===== src/Encoding/PathCache.antt =====
-- encoding/path_cache.go. The cache of golang-lru is a parameter: `add` puts a value under a key and
-- gives back the entry that it evicted, if it did. A context is its address in the execution.
use magellan.Base.{
  ℕ, ◌+◌, ◌%◌, ◌^◌, Bool, true, false, Option, none, some, lookup, nat_key, ◌==◌, if◌then◌else◌,
}
use magellan.Execution.Context.{PathComponent, ResolverContext, Execution, on}

pub record Lru : Type 1 where
  pub Cache : Type 0
  pub add : Cache → ℕ → ℕ → Cache × Option (ℕ × ℕ)

-- `idLock` and the context's lock guard single steps. `execution` has the labels, in the contexts'
-- path components.
pub record PathCache (lru : Lru) : Type 0 where
  pub id : ℕ
  pub cache : lru.Cache
  pub execution : Execution

unfoldable pub new_path_cache : (lru : Lru) → lru.Cache → Execution → PathCache lru
new_path_cache lru empty execution = record { id = 1; cache = empty; execution = execution }

abbrev pub labelled : ℕ → PathComponent → PathComponent
labelled id path = record path { pos_identifier = id }

abbrev pub label_of : Option ResolverContext → Option ℕ
label_of none = none
label_of (some c) = elim c.path_component [ none ↦ none | some path ↦ some path.pos_identifier ]

set_label : ℕ → ResolverContext → ResolverContext
set_label id c = elim c.path_component [
  | none ↦ c
  | some path ↦ record c { path_component = some (labelled id path) }
]

unfoldable pub label : Execution → ℕ → ℕ → Execution
unfolding set_label
label s r id = on s r (set_label id)

-- `onEvicted`
unfoldable pub on_evicted : Execution → ℕ → ℕ → Execution
unfolding label
on_evicted s key r = elim (label_of (lookup r s.contexts)) [
  | none ↦ s
  | some id ↦ if id == key then label s r 0 else s
]

unfoldable pub evict : Execution → Option (ℕ × ℕ) → Execution
unfolding on_evicted
evict s none = s
evict s (some (key, r)) = on_evicted s key r

-- `p.cache.Add(id, ctx)`
unfoldable pub add_entry : {lru : Lru} → PathCache lru → ℕ → ℕ → PathCache lru
unfolding evict
add_entry {lru} p id r =
    let (cache, evicted) = lru.add p.cache id r in
    record p { cache = cache; execution = evict p.execution evicted }

-- `Put` on a context with a path; without one it panics. It returns `added` and `id`: a new label is
-- bound to another `id` in the inner block, so the cache and the caller get 0.
unfoldable pub put : {lru : Lru} → PathCache lru → ℕ → Option (PathCache lru × Bool × ℕ)
unfolding add_entry label
put {lru} p r = elim (label_of (lookup r p.execution.contexts)) [
  | none ↦ none
  | some id ↦
      if id == 0
      then some (
        add_entry (record p { id = (p.id + 1) % 2 ^ 32; execution = label p.execution r p.id }) 0 r,
        true,
        0,
      )
      else some (add_entry p id r, false, id)
]
