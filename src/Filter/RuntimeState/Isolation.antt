-- ===== src/Filter/RuntimeState/Isolation.antt =====
-- The calls of src/filters/runtime_state.rs, and the keys of other connections and filters.
use inspect.Common.{
  ℕ, zero, suc, ◌-◌, ◌≡◌, ◌⊎◌, refl, ap, sym, subst, ◌∙◌, arith, Bool, true, false, ◌&&◌, not, ◌+◌,
  Option, none, some, List, [], ◌∷◌, Str, Bytes, str_eq, lookup, get_elem?, update_at,
  lookup-insert, insert, length, ltb, to_utf8, if◌then◌else◌, of_if, inl, inr, Bool-cases,
}
use inspect.StateStore.{
  FilterStateLimits, StateOpStats, StateIndex, StateKey, StateEntry, key-Eq, key_eq, drop_entry,
  drop_all, expired_keys, sweep_expired_locked, get, get_found, put, put_entry, delete, no_stats,
  old_len,
}
use inspect.StateStore.Accounting.{put-cases, put_swept-cases}
use inspect.StateStore.Lookup.{lookup-drop_entry}
use inspect.Filter.RuntimeState.{
  RuntimeStateContext, ThreadState, StateCall, get_call, put_call, delete_call, accumulate,
  accumulate_at, current_context, context_at, get_at, put_at, delete_at, key_in, count_in, get_in,
  put_in, delete_in, state_get_text, state_put_text, state_delete, run_call, run_calls,
}

-- What the store holds for a key is what it was, or gone.
abbrev pub Kept : StateKey → StateIndex → StateIndex → Type 0
Kept j before after =
    (lookup j after.entries ≡ lookup j before.entries) ⊎ (lookup j after.entries ≡ none)

Kept-trans : (j : StateKey) (a b c : StateIndex) → Kept j a b → Kept j b c → Kept j a c
Kept-trans j a b c ab (inr gone) = inr gone
Kept-trans j a b c (inl same) (inl e) = inl (e ∙ same)
Kept-trans j a b c (inr gone) (inl e) = inr (e ∙ gone)

Kept-drop_entry : (j key : StateKey) (inner : StateIndex) → Kept j inner (drop_entry inner key).1
Kept-drop_entry j key inner = elim (Bool-cases (key_eq key j)) [
  | inl e ↦ inr (lookup-drop_entry inner key j ∙ rw e refl)
  | inr e ↦ inl (lookup-drop_entry inner key j ∙ rw e refl)
]

Kept-drop_all :
    (j : StateKey) (keys : List StateKey) (inner : StateIndex) (stats : StateOpStats)
    → Kept j inner (drop_all keys inner stats).0
unfolding drop_all
Kept-drop_all j [] inner stats = inl refl
Kept-drop_all j (key ∷ keys) inner stats =
    let next = (drop_entry inner key).1 in
    let counted =
      if (drop_entry inner key).0
      then record stats { evicted_items = stats.evicted_items + 1 }
      else stats in
    Kept-trans j inner next (drop_all keys next counted).0 (Kept-drop_entry j key inner)
      (Kept-drop_all j keys next counted)

Kept-sweep :
    (j : StateKey) (inner : StateIndex) (ttl now : ℕ) (stats : StateOpStats)
    → Kept j inner (sweep_expired_locked inner ttl now stats).0
unfolding sweep_expired_locked
Kept-sweep j inner ttl now stats = Kept-drop_all j (expired_keys ttl now inner.entries) inner stats

module _ (limits : FilterStateLimits) (j key : StateKey) (other : key_eq key j ≡ false) where
  Kept-insert :
      (inner : StateIndex) (entry : StateEntry)
      → lookup j (insert key entry inner.entries) ≡ lookup j inner.entries
  Kept-insert inner entry = lookup-insert key j entry inner.entries ∙ rw other refl

  Kept-found :
      (inner : StateIndex) (now : ℕ) (found : Option StateEntry)
      → Kept j inner (get_found limits inner key now found).2
  unfolding get_found
  Kept-found inner now none = inl refl
  Kept-found inner now (some entry) =
      elim (Bool-cases (ltb limits.ttl (now - entry.last_access_at))) [
        | inl old ↦ rw old (Kept-drop_entry j key inner)
        | inr fresh ↦ rw fresh (inl (Kept-insert inner (record entry { last_access_at = now })))
      ]

  Kept-get : (inner : StateIndex) (now : ℕ) → Kept j inner (get limits inner key now).2
  unfolding get
  Kept-get inner now = Kept-found inner now (lookup key inner.entries)

  Kept-put :
      (inner : StateIndex) (value : Bytes) (now : ℕ)
      → Kept j inner (put limits inner key value now).2
  unfolding put_entry
  Kept-put inner value now =
      let swept = sweep_expired_locked inner limits.ttl now no_stats in
      let delta = length value - old_len (lookup key swept.0.entries) in
      let clean = Kept-sweep j inner limits.ttl now no_stats in
      elim (put-cases limits inner key value now) [
        | inl e ↦ rw e (inl refl)
        | inr e ↦ elim (put_swept-cases limits swept.0 key value now delta swept.1) [
          | inl e' ↦ rw (e, e') clean
          | inr (e', _, _, _) ↦
              rw (e, e')
                (Kept-trans j inner swept.0 (put_entry swept.0 key value now delta) clean (
                  inl (
                    Kept-insert swept.0
                      (record { value = value; created_at = now; last_access_at = now }))))
        ]
      ]

pub accumulate-index : (op : StateOpStats) (t : ThreadState) → (accumulate op t).index ≡ t.index
unfolding accumulate
accumulate-index op t = ground arith

-- A key of another connection or of another filter than that of a context.
abbrev pub foreign : Str → Str → StateKey → Bool
foreign connection_id filter_name j =
    not (str_eq connection_id j.connection_id && str_eq filter_name j.filter_name)

foreign-key_eq :
    (c f key : Str) (j : StateKey)
    → foreign c f j ≡ true
    → key_eq (record { connection_id = c; filter_name = f; user_key = key }) j ≡ false
unfolding key_eq
foreign-key_eq c f key j h = ground arith

-- The filter that runs on a thread: the connection and the name of the current context.
abbrev pub Bound : Str → Str → ThreadState → Type 0
Bound c f t =
    (context : RuntimeStateContext) × (current_context t ≡ some context)
    × (context.connection_id ≡ c)
    × (context.filter_name ≡ f)

get_elem?-update_at :
    (i : ℕ) (g : RuntimeStateContext → RuntimeStateContext) (xs : List RuntimeStateContext)
    (x : RuntimeStateContext)
    → get_elem? xs i ≡ some x
    → get_elem? (update_at i g xs) i ≡ some (g x)
get_elem?-update_at i g [] x h = cc
get_elem?-update_at zero g (y ∷ xs) x h = cc h
get_elem?-update_at (suc i) g (y ∷ xs) x h = get_elem?-update_at i g xs x h

pub accumulate_context :
    (at : Option ℕ) (op : StateOpStats) (t : ThreadState) (context : RuntimeStateContext)
    → t.current ≡ at
    → context_at at t.heap ≡ some context
    → context_at (accumulate_at at op t).current (accumulate_at at op t).heap
      ≡ some (count_in op context)
accumulate_context none op t context e h = cc h
accumulate_context (some id) op t context e h =
    ap (λ c. context_at c (update_at id (count_in op) t.heap)) e
    ∙ get_elem?-update_at id (count_in op) t.heap context h

accumulate-Bound :
    (op : StateOpStats) (c f : Str) (t : ThreadState) → Bound c f t → Bound c f (accumulate op t)
unfolding accumulate current_context
accumulate-Bound op c f t (context, at, same_c, same_f) =
    (count_in op context, accumulate_context t.current op t context refl at, same_c, same_f)

module _ (limits : FilterStateLimits) (from_utf8_lossy : Bytes → Str) (c f : Str) (j : StateKey)
    (strange : foreign c f j ≡ true) where
  -- A call by the filter keeps the thread bound, and the foreign key.
  Held : ThreadState → ThreadState → Type 0
  Held before after = Bound c f after × Kept j before.index after.index

  counted :
      (op : StateOpStats) (t : ThreadState) (index : StateIndex)
      → Bound c f t
      → Kept j t.index index
      → Held t (accumulate op (record t { index = index }))
  unfolding Held current_context
  counted op t index bound kept = (
    accumulate-Bound op c f (record t { index = index }) bound,
    rw (accumulate-index op (record t { index = index })) kept,
  )

  other_key :
      (context : RuntimeStateContext) (key : Str)
      → context.connection_id ≡ c
      → context.filter_name ≡ f
      → key_eq (key_in context key) j ≡ false
  other_key context key same_c same_f =
      foreign-key_eq context.connection_id context.filter_name key j (simp (same_c, same_f) strange)

  run_call-Held :
      (call : StateCall) (t : ThreadState)
      → Bound c f t
      → Held t (run_call limits from_utf8_lossy call t)
  unfolding run_call state_get_text state_put_text state_delete get_at put_at delete_at get_in
      put_in delete_in Held delete
  run_call-Held (get_call key now) t (context, at, same_c, same_f) =
      let bound : Bound c f t = (context, at, same_c, same_f) in
      let k = key_in context key in
      let kept = Kept-get limits j k (other_key context key same_c same_f) t.index now in
      let done = get limits t.index k now in
      subst (λ o. Held t (get_at limits from_utf8_lossy o key now t).1) (sym at)
        (of_if (λ r. Held t r.1) context.store (get_in limits from_utf8_lossy context key now t)
          (none, t) (counted done.1 t done.2 bound kept) (bound, inl refl))
  run_call-Held (put_call key value now) t (context, at, same_c, same_f) =
      let bound : Bound c f t = (context, at, same_c, same_f) in
      let k = key_in context key in
      let kept =
        Kept-put limits j k (other_key context key same_c same_f) t.index (to_utf8 value) now in
      let done = put limits t.index k (to_utf8 value) now in
      subst (λ o. Held t (put_at limits from_utf8_lossy o key value now t).1) (sym at)
        (of_if (λ r. Held t r.1) context.store
          (put_in limits from_utf8_lossy context key value now t) (false, t)
          (counted done.1 t done.2 bound kept) (bound, inl refl))
  run_call-Held (delete_call key) t (context, at, same_c, same_f) =
      let bound : Bound c f t = (context, at, same_c, same_f) in
      let k = key_in context key in
      let done = delete t.index k in
      subst (λ o. Held t (delete_at limits from_utf8_lossy o key t).1) (sym at)
        (of_if (λ r. Held t r.1) context.store (delete_in limits from_utf8_lossy context key t)
          (false, t) (counted done.0 t done.1 bound (Kept-drop_entry j k t.index))
          (bound, inl refl))

  -- On a thread where a filter runs for a connection, whatever gets, puts and deletes its script does, the
  -- store holds for each key of another connection or another filter what it held before, or nothing.
  pub run_calls-Kept :
      (calls : List StateCall) (t : ThreadState)
      → Bound c f t
      → Kept j t.index (run_calls limits from_utf8_lossy calls t).index
  unfolding run_calls Held
  run_calls-Kept [] t bound = inl refl
  run_calls-Kept (call ∷ calls) t bound =
      let (still, kept) = run_call-Held call t bound in
      let next = run_call limits from_utf8_lossy call t in
      Kept-trans j t.index next.index (run_calls limits from_utf8_lossy calls next).index kept
        (run_calls-Kept calls next still)
