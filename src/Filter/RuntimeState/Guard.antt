-- ===== src/Filter/RuntimeState/Guard.antt =====
-- RuntimeStateGuard of src/filters/runtime_state.rs: a context entered and finished, with calls
-- of a script between.
use inspect.Common.{
  ℕ, ◌≡◌, refl, ap, sym, ◌∙◌, Bool, false, Option, none, some, List, [], ◌∷◌, ◌++◌, Str, Bytes,
  to_utf8, get_elem?, get_elem?-append, update_at, update_at-append, length, of_if,
}
use inspect.StateStore.{FilterStateLimits, StateOpStats, StateIndex, get, put, delete}
use inspect.Filter.Chain.{default_stats}
use inspect.Filter.RuntimeState.{
  RuntimeStateContext, ThreadState, StateCall, get_call, put_call, delete_call, accumulate,
  accumulate_at, current_context, key_in, count_in, get_in, put_in, delete_in, get_at, put_at,
  delete_at, state_get_text, state_put_text, state_delete, run_call, run_calls, enter, finish,
  stats_of,
}

-- A thread on which one context was entered after those of `heap`.
abbrev pub Entered : List RuntimeStateContext → ThreadState → Type 0
Entered heap s =
    (context : RuntimeStateContext) × (s.heap ≡ heap ++ (context ∷ []))
    × (s.current ≡ some (length heap))

accumulate_at-Entered :
    (heap : List RuntimeStateContext) (at : Option ℕ) (op : StateOpStats) (s : ThreadState)
    → s.current ≡ at
    → Entered heap s
    → Entered heap (accumulate_at at op s)
accumulate_at-Entered heap none op s e entered = entered
accumulate_at-Entered heap (some id) op s e (context, h, at) =
    let same : id ≡ length heap = option_same (sym e ∙ at) in
    (
      count_in op context,
      ap (λ i. update_at i (count_in op) s.heap) same
          ∙ ap (update_at (length heap) (count_in op)) h
          ∙ update_at-append (count_in op) heap context,
      at,
    )
  where
    option_same : {a b : ℕ} → some a ≡ some b → a ≡ b
    option_same g = cc g

module _ (limits : FilterStateLimits) (from_utf8_lossy : Bytes → Str)
    (heap : List RuntimeStateContext) where
  counted_in :
      (op : StateOpStats) (s : ThreadState) (index : StateIndex)
      → Entered heap s
      → Entered heap (accumulate op (record s { index = index }))
  unfolding accumulate
  counted_in op s index (context, h, at) =
      accumulate_at-Entered heap s.current op (record s { index = index }) refl (context, h, at)

  get_at-Entered :
      (o : Option RuntimeStateContext) (key : Str) (now : ℕ) (s : ThreadState)
      → Entered heap s
      → Entered heap (get_at limits from_utf8_lossy o key now s).1
  unfolding get_at get_in
  get_at-Entered none key now s entered = entered
  get_at-Entered (some context) key now s entered =
      let done = get limits s.index (key_in context key) now in
      of_if (λ r. Entered heap r.1) context.store (get_in limits from_utf8_lossy context key now s)
        (none, s) (counted_in done.1 s done.2 entered) entered

  put_at-Entered :
      (o : Option RuntimeStateContext) (key value : Str) (now : ℕ) (s : ThreadState)
      → Entered heap s
      → Entered heap (put_at limits from_utf8_lossy o key value now s).1
  unfolding put_at put_in
  put_at-Entered none key value now s entered = entered
  put_at-Entered (some context) key value now s entered =
      let done = put limits s.index (key_in context key) (to_utf8 value) now in
      of_if (λ r. Entered heap r.1) context.store
        (put_in limits from_utf8_lossy context key value now s) (false, s)
        (counted_in done.1 s done.2 entered) entered

  delete_at-Entered :
      (o : Option RuntimeStateContext) (key : Str) (s : ThreadState)
      → Entered heap s
      → Entered heap (delete_at limits from_utf8_lossy o key s).1
  unfolding delete_at delete_in
  delete_at-Entered none key s entered = entered
  delete_at-Entered (some context) key s entered =
      let done = delete s.index (key_in context key) in
      of_if (λ r. Entered heap r.1) context.store (delete_in limits from_utf8_lossy context key s)
        (false, s) (counted_in done.0 s done.1 entered) entered

  run_calls-Entered :
      (calls : List StateCall) (s : ThreadState)
      → Entered heap s
      → Entered heap (run_calls limits from_utf8_lossy calls s)
  unfolding run_calls run_call state_get_text state_put_text state_delete
  run_calls-Entered [] s entered = entered
  run_calls-Entered (get_call key now ∷ calls) s entered =
      run_calls-Entered calls _ (get_at-Entered (current_context s) key now s entered)
  run_calls-Entered (put_call key value now ∷ calls) s entered =
      run_calls-Entered calls _ (put_at-Entered (current_context s) key value now s entered)
  run_calls-Entered (delete_call key ∷ calls) s entered =
      run_calls-Entered calls _ (delete_at-Entered (current_context s) key s entered)

-- A context that is entered, and finished after any calls of a script, leaves the slot of the thread as it
-- was and every older context with the statistics it had; what finish gives are the statistics
-- of the new context.
finish-run_calls :
    (limits : FilterStateLimits) (from_utf8_lossy : Bytes → Str) (connection_id filter_name : Str)
    (store : Bool) (t : ThreadState) (calls : List StateCall)
    → let entered = enter connection_id filter_name store t in
      let end = finish entered.0 (run_calls limits from_utf8_lossy calls entered.1) in
      (end.1.current ≡ t.current)
      × ((context : RuntimeStateContext) × (end.1.heap ≡ t.heap ++ (context ∷ []))
          × (end.0 ≡ context.stats))
unfolding enter finish
finish-run_calls limits from_utf8_lossy connection_id filter_name store t calls =
    let new : RuntimeStateContext = record {
      connection_id = connection_id;
      filter_name = filter_name;
      store = store;
      stats = default_stats;
    } in
    let inside : ThreadState = record t {
      heap = t.heap ++ (new ∷ []);
      current = some (length t.heap);
    } in
    let (context, h, at) =
      run_calls-Entered limits from_utf8_lossy t.heap calls inside (new, refl, refl) in
    (
      refl,
      (
        context,
        h,
        ap (λ xs. stats_of (get_elem? xs (length t.heap))) h
            ∙ ap stats_of (get_elem?-append t.heap context),
      ),
    )
