-- ===== src/Filter/RuntimeState/Tests.antt =====
-- Scripts that keep a state, for the modules of Filter.RuntimeState.
use inspect.Common.{
  ◌≡◌, refl, true, false, some, List, [], ◌∷◌, Str, Bytes, codes, str_eq, to_utf8, utf8_char,
  lookup, insert, remove,
}
use inspect.StateStore.{
  StateKey, empty_index, default_limits, put, put_swept, put_entry, get, get_found, delete,
  drop_entry, release, key_eq, sweep_expired_locked, expired_keys, drop_all, is_expired,
}
use inspect.Filter.Chain.{default_stats}
use inspect.Filter.RuntimeState.{
  RuntimeStateContext, ThreadState, StateCall, get_call, put_call, delete_call, run_calls, run_call,
  state_get_text, state_put_text, state_delete, get_at, put_at, delete_at, get_in, put_in,
  delete_in, current_context, accumulate,
}
use inspect.Filter.RuntimeState.Isolation.{Kept, run_calls-Kept}

-- Reading ASCII text back.
abbrev read_back : Bytes → Str
read_back bytes = bytes

abbrev context : RuntimeStateContext
context = record {
  connection_id = codes "c1";
  filter_name = codes "auth";
  store = true;
  stats = default_stats;
}

abbrev running : ThreadState
running = record { heap = context ∷ []; current = some 0; index = empty_index }

abbrev calls : List StateCall
calls = put_call (codes "k") (codes "v") 1 ∷ get_call (codes "k") 2 ∷ delete_call (codes "k") ∷ []

runs :
    ((state_get_text default_limits read_back
        (codes "k")
        2
        (state_put_text default_limits read_back (codes "k") (codes "v") 1 running).1).0
      ≡ some (codes "v"))
    × ((run_calls default_limits read_back calls running).index.total_bytes ≡ 0)
    × ((state_delete default_limits read_back (codes "k") running).0 ≡ false)
unfolding run_calls run_call state_get_text state_put_text state_delete get_at put_at delete_at
    get_in put_in delete_in current_context accumulate put put_swept put_entry get get_found delete
    drop_entry release key_eq str_eq sweep_expired_locked expired_keys drop_all is_expired lookup
    insert remove to_utf8 utf8_char
runs = (refl, refl, refl)

abbrev foreign_key : StateKey
foreign_key = record {
  connection_id = codes "c2";
  filter_name = codes "auth";
  user_key = codes "k";
}

run_calls-Kept_example :
    Kept foreign_key running.index (run_calls default_limits read_back calls running).index
unfolding str_eq current_context
run_calls-Kept_example =
    run_calls-Kept default_limits read_back (codes "c1") (codes "auth") foreign_key refl calls
      running (context, refl, refl, refl)
