-- ===== src/Filter/RuntimeState.antt =====
-- src/filters/runtime_state.rs: the context that binds the filter that runs on a thread to the state store.
-- The contexts of a thread, shared by its guards and its slot, stand in a heap and are named by their
-- place there. The program has one store: a context has a handle of it or none. What
-- `from_utf8_lossy` makes of bytes is a parameter.
mod Isolation
mod Guard
mod Texts
mod Tests
use inspect.Common.{
  ℕ, ◌+◌, Bool, true, false, ◌||◌, Option, none, some, List, [], ◌∷◌, ◌++◌, Str, Bytes, to_utf8,
  get_elem?, update_at, length, ltb, if◌then◌else◌,
}
use inspect.StateStore.{
  FilterStateLimits, StateOpStats, StateIndex, StateKey, StatePutOutcome, stored, replaced, get,
  put, delete,
}
use inspect.Filter.Chain.{FilterResourceStats, default_stats}

pub record RuntimeStateContext : Type 0 where
  pub connection_id : Str
  pub filter_name : Str
  pub store : Bool
  pub stats : FilterResourceStats

-- The thread: its contexts, the slot CURRENT_RUNTIME_STATE, and the shared store.
pub record ThreadState : Type 0 where
  pub heap : List RuntimeStateContext
  pub current : Option ℕ
  pub index : StateIndex

pub record RuntimeStateGuard : Type 0 where
  pub previous : Option ℕ
  pub current : ℕ

unfoldable pub enter : Str → Str → Bool → ThreadState → RuntimeStateGuard × ThreadState
enter connection_id filter_name store t = (
  record { previous = t.current; current = length t.heap },
  record t {
    heap =
        t.heap
        ++ (record {
          connection_id = connection_id;
          filter_name = filter_name;
          store = store;
          stats = default_stats;
        }
            ∷ []);
    current = some (length t.heap);
  },
)

abbrev pub stats_of : Option RuntimeStateContext → FilterResourceStats
stats_of none = default_stats
stats_of (some context) = context.stats

unfoldable pub finish : RuntimeStateGuard → ThreadState → FilterResourceStats × ThreadState
finish guard t = (stats_of (get_elem? t.heap guard.current), record t { current = guard.previous })

unfoldable pub add_stats : StateOpStats → FilterResourceStats → FilterResourceStats
add_stats op acc = record {
  state_read_bytes = acc.state_read_bytes + op.read_bytes;
  state_write_bytes = acc.state_write_bytes + op.write_bytes;
  evicted_items = acc.evicted_items + op.evicted_items;
  state_items = op.state_items;
  limit_hit = acc.limit_hit || op.limit_hit;
}

abbrev pub count_in : StateOpStats → RuntimeStateContext → RuntimeStateContext
count_in op context = record context { stats = add_stats op context.stats }

abbrev pub accumulate_at : Option ℕ → StateOpStats → ThreadState → ThreadState
accumulate_at none op t = t
accumulate_at (some id) op t = record t { heap = update_at id (count_in op) t.heap }

unfoldable pub accumulate : StateOpStats → ThreadState → ThreadState
accumulate op t = accumulate_at t.current op t

-- The context of `with_context`.
abbrev pub context_at : Option ℕ → List RuntimeStateContext → Option RuntimeStateContext
context_at none heap = none
context_at (some id) heap = get_elem? heap id

unfoldable pub current_context : ThreadState → Option RuntimeStateContext
current_context t = context_at t.current t.heap

abbrev pub key_in : RuntimeStateContext → Str → StateKey
key_in context key = record {
  connection_id = context.connection_id;
  filter_name = context.filter_name;
  user_key = key;
}

abbrev pub was_put : StatePutOutcome → Bool
was_put stored = true
was_put replaced = true
was_put _ = false

abbrev pub map_text : (Bytes → Str) → Option Bytes → Option Str
map_text lossy none = none
map_text lossy (some bytes) = some (lossy bytes)

-- What a script does with the state, one call after the other.
pub data StateCall : Type 0 where
  get_call : (key : Str) (now : ℕ) → StateCall
  put_call : (key value : Str) (now : ℕ) → StateCall
  delete_call : (key : Str) → StateCall

module _ (limits : FilterStateLimits) (from_utf8_lossy : Bytes → Str) where
  -- An operation in a context, on the store: the answer and the thread after it.
  unfoldable pub get_in : RuntimeStateContext → Str → ℕ → ThreadState → Option Str × ThreadState
  get_in context key now t =
      let (value, stats, index) = get limits t.index (key_in context key) now in
      (map_text from_utf8_lossy value, accumulate stats (record t { index = index }))

  unfoldable pub put_in : RuntimeStateContext → Str → Str → ℕ → ThreadState → Bool × ThreadState
  put_in context key value now t =
      let (outcome, stats, index) = put limits t.index (key_in context key) (to_utf8 value) now in
      (was_put outcome, accumulate stats (record t { index = index }))

  unfoldable pub delete_in : RuntimeStateContext → Str → ThreadState → Bool × ThreadState
  delete_in context key t =
      let (stats, index) = delete t.index (key_in context key) in
      (ltb 0 stats.evicted_items, accumulate stats (record t { index = index }))

  -- The three operations behind `with_context`.
  unfoldable pub get_at :
      Option RuntimeStateContext → Str → ℕ → ThreadState → Option Str × ThreadState
  get_at none key now t = (none, t)
  get_at (some context) key now t = if context.store then get_in context key now t else (none, t)

  unfoldable pub put_at :
      Option RuntimeStateContext → Str → Str → ℕ → ThreadState → Bool × ThreadState
  put_at none key value now t = (false, t)
  put_at (some context) key value now t =
      if context.store then put_in context key value now t else (false, t)

  unfoldable pub delete_at : Option RuntimeStateContext → Str → ThreadState → Bool × ThreadState
  delete_at none key t = (false, t)
  delete_at (some context) key t = if context.store then delete_in context key t else (false, t)

  unfoldable pub state_get_text : Str → ℕ → ThreadState → Option Str × ThreadState
  state_get_text key now t = get_at (current_context t) key now t

  unfoldable pub state_put_text : Str → Str → ℕ → ThreadState → Bool × ThreadState
  state_put_text key value now t = put_at (current_context t) key value now t

  unfoldable pub state_delete : Str → ThreadState → Bool × ThreadState
  state_delete key t = delete_at (current_context t) key t

  unfoldable pub run_call : StateCall → ThreadState → ThreadState
  run_call (get_call key now) t = (state_get_text key now t).1
  run_call (put_call key value now) t = (state_put_text key value now t).1
  run_call (delete_call key) t = (state_delete key t).1

  unfoldable pub run_calls : List StateCall → ThreadState → ThreadState
  run_calls [] t = t
  run_calls (call ∷ calls) t = run_calls calls (run_call call t)
