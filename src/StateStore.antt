-- ===== src/StateStore.antt =====
-- src/mitm/flow/state_store.rs: the state that filters keep per connection, with byte limits and a time
-- to live. Instants and durations are numbers of one unit; `Instant::now` is the argument `now`, and
-- `duration_since` is the truncated difference, as in the standard library. The mutex makes each
-- operation one step, so an operation takes the index and returns the new one. Byte counts are far
-- below 2^63, so the casts to i64 of the statistics are the identity.
pub mod Accounting
mod Limits
pub mod Lookup
mod Tests
use inspect.Common.{
  ℕ, zero, suc, ◌+◌, ◌-◌, ◌*◌, ◌≡◌, ◌↔◌, refl, Bool, true, false, ◌&&◌, ◌||◌, Option, none, some,
  List, [], ◌∷◌, Str, Bytes, str_eq, str_eq_iff, arith, length, ltb, ◌==◌, if◌then◌else◌, Eq,
  str-Eq, lookup, insert, remove,
}

pub record FilterStateLimits : Type 0 where
  pub ttl : ℕ
  pub max_entry_bytes : ℕ
  pub max_connection_bytes : ℕ
  pub max_filter_bytes : ℕ
  pub max_total_bytes : ℕ

-- `Default`, with the time to live in seconds.
abbrev pub default_limits : FilterStateLimits
default_limits = record {
  ttl = 60;
  max_entry_bytes = 256 * 1024;
  max_connection_bytes = 2 * 1024 * 1024;
  max_filter_bytes = 16 * 1024 * 1024;
  max_total_bytes = 128 * 1024 * 1024;
}

pub record StateOpStats : Type 0 where
  pub read_bytes : ℕ
  pub write_bytes : ℕ
  pub state_items : ℕ
  pub evicted_items : ℕ
  pub limit_hit : Bool

abbrev pub no_stats : StateOpStats
no_stats = record {
  read_bytes = 0;
  write_bytes = 0;
  state_items = 0;
  evicted_items = 0;
  limit_hit = false;
}

pub data StatePutOutcome : Type 0 where
  stored replaced rejected_entry_too_large rejected_connection_limit : StatePutOutcome
  rejected_filter_limit rejected_total_limit : StatePutOutcome

pub record StateKey : Type 0 where
  pub connection_id : Str
  pub filter_name : Str
  pub user_key : Str

unfoldable pub key_eq : StateKey → StateKey → Bool
key_eq a b =
    str_eq a.connection_id b.connection_id
    && str_eq a.filter_name b.filter_name
    && str_eq a.user_key b.user_key

pub key_eq_iff : (a b : StateKey) → (key_eq a b ≡ true) ↔ (a ≡ b)
unfolding key_eq
key_eq_iff a b = ground (
  arith,
  str_eq_iff a.connection_id b.connection_id,
  str_eq_iff a.filter_name b.filter_name,
  str_eq_iff a.user_key b.user_key,
)

instance abbrev pub key-Eq : Eq StateKey
key-Eq = record { beq = key_eq; beq_iff = key_eq_iff }

pub record StateEntry : Type 0 where
  pub value : Bytes
  pub created_at : ℕ
  pub last_access_at : ℕ

pub record StateIndex : Type 0 where
  pub entries : List (StateKey × StateEntry)
  pub connection_bytes : List (Str × ℕ)
  pub filter_bytes : List (Str × ℕ)
  pub total_bytes : ℕ

abbrev pub empty_index : StateIndex
empty_index = record { entries = []; connection_bytes = []; filter_bytes = []; total_bytes = 0 }

-- `*map.get(k).unwrap_or(&0)`.
abbrev pub value_or_zero : Option ℕ → ℕ
value_or_zero none = 0
value_or_zero (some n) = n

abbrev pub used_by : Str → List (Str × ℕ) → ℕ
used_by k m = value_or_zero (lookup k m)

-- The `if let Some(used) = map.get_mut(k)` block of `drop_entry`: a counter that reaches 0 is removed.
unfoldable pub release : Str → ℕ → List (Str × ℕ) → List (Str × ℕ)
release k len m = elim (lookup k m) [
  | none ↦ m
  | some used ↦ if used - len == 0 then remove k m else insert k (used - len) m
]

unfoldable pub drop_entry : StateIndex → StateKey → Bool × StateIndex
drop_entry inner key = elim (lookup key inner.entries) [
  | none ↦ (false, inner)
  | some entry ↦ (
    true,
    record {
      entries = remove key inner.entries;
      connection_bytes = release key.connection_id (length entry.value) inner.connection_bytes;
      filter_bytes = release key.filter_name (length entry.value) inner.filter_bytes;
      total_bytes = inner.total_bytes - length entry.value;
    },
  )
]

unfoldable pub is_expired : ℕ → ℕ → StateEntry → Bool
is_expired ttl now entry = ltb ttl (now - entry.last_access_at) || ltb ttl (now - entry.created_at)

-- The keys that `sweep_expired_locked` collects, and its loop over them.
unfoldable pub expired_keys : ℕ → ℕ → List (StateKey × StateEntry) → List StateKey
expired_keys ttl now [] = []
expired_keys ttl now ((key, entry) ∷ entries) =
    let rest = expired_keys ttl now entries in if is_expired ttl now entry then key ∷ rest else rest

unfoldable pub drop_all : List StateKey → StateIndex → StateOpStats → StateIndex × StateOpStats
drop_all [] inner stats = (inner, stats)
drop_all (key ∷ keys) inner stats = drop_all keys (drop_entry inner key).1 (
    if (drop_entry inner key).0
    then record stats { evicted_items = stats.evicted_items + 1 }
    else stats)

unfoldable pub sweep_expired_locked : StateIndex → ℕ → ℕ → StateOpStats → StateIndex × StateOpStats
sweep_expired_locked inner ttl now stats = drop_all (expired_keys ttl now inner.entries) inner stats

abbrev pub items : StateIndex → ℕ
items inner = length inner.entries

abbrev pub old_len : Option StateEntry → ℕ
old_len none = 0
old_len (some entry) = length entry.value

abbrev pub put_outcome : Option StateEntry → StatePutOutcome
put_outcome none = stored
put_outcome (some entry) = replaced

abbrev pub reject :
    StatePutOutcome → StateIndex → StateOpStats → StatePutOutcome × StateOpStats × StateIndex
reject outcome inner stats =
    (outcome, record stats { limit_hit = true; state_items = items inner }, inner)

-- The index that a successful `put` leaves.
unfoldable pub put_entry : StateIndex → StateKey → Bytes → ℕ → ℕ → StateIndex
put_entry inner key value now delta = record {
  entries =
      insert key (record { value = value; created_at = now; last_access_at = now }) inner.entries;
  connection_bytes =
      insert key.connection_id (used_by key.connection_id inner.connection_bytes + delta)
        inner.connection_bytes;
  filter_bytes =
      insert key.filter_name (used_by key.filter_name inner.filter_bytes + delta)
        inner.filter_bytes;
  total_bytes = inner.total_bytes + delta;
}

module _ (limits : FilterStateLimits) where
  -- `get`, with the entry found.
  unfoldable pub get_found :
      StateIndex → StateKey → ℕ → Option StateEntry → Option Bytes × StateOpStats × StateIndex
  get_found inner key now none = (none, record no_stats { state_items = items inner }, inner)
  get_found inner key now (some entry) =
      if ltb limits.ttl (now - entry.last_access_at)
      then (
        none,
        record no_stats { evicted_items = 1; state_items = items (drop_entry inner key).1 },
        (drop_entry inner key).1,
      )
      else (
        some entry.value,
        record no_stats { read_bytes = length entry.value; state_items = items inner },
        record inner { entries = insert key (record entry { last_access_at = now }) inner.entries },
      )

  unfoldable pub get : StateIndex → StateKey → ℕ → Option Bytes × StateOpStats × StateIndex
  unfolding get_found
  get inner key now = get_found inner key now (lookup key inner.entries)

  -- `put` behind the sweep; `delta` is `value.len().saturating_sub(old_len)`.
  unfoldable pub put_swept :
      StateIndex
      → StateKey
      → Bytes
      → ℕ
      → ℕ
      → StateOpStats
      → StatePutOutcome × StateOpStats × StateIndex
  unfolding put_entry
  put_swept inner key value now delta stats =
      if ltb limits.max_connection_bytes (used_by key.connection_id inner.connection_bytes + delta)
      then reject rejected_connection_limit inner stats
      else if ltb limits.max_filter_bytes (used_by key.filter_name inner.filter_bytes + delta)
      then reject rejected_filter_limit inner stats
      else if ltb limits.max_total_bytes (inner.total_bytes + delta)
      then reject rejected_total_limit inner stats
      else (
        put_outcome (lookup key inner.entries),
        record stats {
          write_bytes = delta;
          state_items = items (put_entry inner key value now delta);
        },
        put_entry inner key value now delta,
      )

  unfoldable pub put :
      StateIndex → StateKey → Bytes → ℕ → StatePutOutcome × StateOpStats × StateIndex
  unfolding put_swept sweep_expired_locked
  put inner key value now =
      let (swept, stats) = sweep_expired_locked inner limits.ttl now no_stats in
      if ltb limits.max_entry_bytes (length value)
      then (rejected_entry_too_large, record no_stats { limit_hit = true }, inner)
      else put_swept swept key value now (length value - old_len (lookup key swept.entries)) stats

  unfoldable pub sweep_expired : StateIndex → ℕ → StateOpStats × StateIndex
  unfolding sweep_expired_locked
  sweep_expired inner now =
      let (swept, stats) = sweep_expired_locked inner limits.ttl now no_stats in
      (record stats { state_items = items swept }, swept)

unfoldable pub delete : StateIndex → StateKey → StateOpStats × StateIndex
delete inner key =
    let (dropped, left) = drop_entry inner key in
    (record no_stats { evicted_items = if dropped then 1 else 0; state_items = items left }, left)
