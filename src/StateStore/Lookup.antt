-- ===== src/StateStore/Lookup.antt =====
-- The operations of src/mitm/flow/state_store.rs: what is stored, found and removed.
use inspect.Common.{
  ℕ, ◌+◌, ◌-◌, ◌≤◌, ◌≡◌, ◌⊎◌, refl, none, some, [], Bytes, true, arith, length, ltb, if◌then◌else◌,
  lookup, insert, lookup-insert, lookup-remove, str-Eq, Option-cases, Bool-cases, inl, inr, ◌∙◌, ap,
  total, total-insert, total-remove,
}
use inspect.StateStore.Accounting.{bytes_of}
use inspect.StateStore.{
  FilterStateLimits, StateKey, StateEntry, StateIndex, stored, replaced, StateOpStats, key-Eq,
  key_eq, key_eq_iff, drop_entry, drop_all, expired_keys, sweep_expired_locked, get_found, get,
  old_len, put_entry, put_swept, put, delete, no_stats,
}

pub lookup-drop_entry :
    (inner : StateIndex) (key j : StateKey)
    → lookup j (drop_entry inner key).1.entries
      ≡ (if key_eq key j then none else lookup j inner.entries)
unfolding drop_entry
lookup-drop_entry inner key j = elim (Option-cases (lookup key inner.entries)) [
  | inl e ↦ rw (e, drop_entry) (ground (arith, key_eq_iff key j))
  | inr (entry, e) ↦ rw (e, drop_entry) (lookup-remove key j inner.entries)
]

-- A deleted key is not found, at any later instant, and every other entry is as it was.
pub lookup-delete :
    (inner : StateIndex) (key j : StateKey)
    → lookup j (delete inner key).1.entries
      ≡ (if key_eq key j then none else lookup j inner.entries)
unfolding delete
lookup-delete inner key j = lookup-drop_entry inner key j

module _ (limits : FilterStateLimits) (inner : StateIndex) (key : StateKey) where
  -- A `get` finds the value of an entry that was used within the time to live, and only that.
  pub get-eq :
      (now : ℕ)
      → (get limits inner key now).0 ≡ elim (lookup key inner.entries) [
        | none ↦ none
        | some entry ↦
            if ltb limits.ttl (now - entry.last_access_at) then none else some entry.value
      ]
  unfolding get get_found
  get-eq now = ground arith

put_swept-accepts :
    (limits : FilterStateLimits) (inner : StateIndex) (key : StateKey) (value : Bytes)
    (now delta : ℕ) (stats : StateOpStats)
    → ((put_swept limits inner key value now delta stats).0 ≡ stored)
      ⊎ ((put_swept limits inner key value now delta stats).0 ≡ replaced)
    → (put_swept limits inner key value now delta stats).2 ≡ put_entry inner key value now delta
unfolding put_swept
put_swept-accepts limits inner key value now delta stats h = ground arith

delete-put_entry :
    (inner : StateIndex) (key : StateKey) (value : Bytes) (now : ℕ) (old : StateEntry)
    → lookup key inner.entries ≡ some old
    → ((delete (put_entry inner key value now 0) key).1.total_bytes
        ≡ inner.total_bytes - length value)
      × (total bytes_of (delete (put_entry inner key value now 0) key).1.entries + length old.value
          ≤ total bytes_of inner.entries)
unfolding delete drop_entry put_entry
delete-put_entry inner key value now old found =
    let entry : StateEntry = record { value = value; created_at = now; last_access_at = now } in
    let itself : key_eq key key ≡ true = (key_eq_iff key key).1 refl in
    let held : lookup key (insert key entry inner.entries) ≡ some entry =
      lookup-insert key key entry inner.entries ∙ rw itself refl in
    rw (held, drop_entry)
      (
        omega arith,
        ground (
          arith,
          total-insert bytes_of key entry inner.entries,
          total-remove bytes_of key (insert key entry inner.entries),
        ),
      )

module _ (limits : FilterStateLimits) (inner : StateIndex) (key : StateKey) (value : Bytes)
    (now : ℕ)
    (accepted : ((put limits inner key value now).0 ≡ stored)
      ⊎ ((put limits inner key value now).0 ≡ replaced)) where
  abbrev swept : StateIndex
  swept = (sweep_expired_locked inner limits.ttl now no_stats).0

  put-accepts :
      (put limits inner key value now).2
      ≡ put_entry swept key value now (length value - old_len (lookup key swept.entries))
  unfolding put
  put-accepts = elim (Bool-cases (ltb limits.max_entry_bytes (length value))) [
    | inl large ↦ ground arith
    | inr fits ↦ rw fits (
        put_swept-accepts limits swept key value now
          (length value - old_len (lookup key swept.entries))
          (sweep_expired_locked inner limits.ttl now no_stats).1 (rw fits at accepted))
  ]

  -- An accepted `put` stores the value under its key, and leaves what the sweep left of all others.
  lookup-put :
      (j : StateKey)
      → lookup j (put limits inner key value now).2.entries ≡ (
          if key_eq key j
          then some (record { value = value; created_at = now; last_access_at = now })
          else lookup j swept.entries)
  unfolding put_entry
  lookup-put j =
      ap (λ (u : StateIndex). lookup j u.entries) put-accepts
      ∙ lookup-insert key j (record { value = value; created_at = now; last_access_at = now })
          swept.entries

  -- It is found again by every `get` within the time to live.
  pub get-put :
      (later : ℕ)
      → later - now ≤ limits.ttl
      → (get limits (put limits inner key value now).2 key later).0 ≡ some value
  get-put later h = ground (
    arith,
    get-eq limits (put limits inner key value now).2 key later,
    lookup-put key,
    key_eq_iff key key,
  )

  -- A value that replaces a longer one, and is deleted: the longer one's bytes are gone, but only the
  -- shorter one's are taken off the counter of all bytes.
  pub delete-put_overcount :
      (old : StateEntry)
      → expired_keys limits.ttl now inner.entries ≡ []
      → lookup key inner.entries ≡ some old
      → length value ≤ length old.value
      → ((delete (put limits inner key value now).2 key).1.total_bytes
          ≡ inner.total_bytes - length value)
        × (total bytes_of (delete (put limits inner key value now).2 key).1.entries
              + length old.value
            ≤ total bytes_of inner.entries)
  unfolding sweep_expired_locked drop_all
  delete-put_overcount old none_expired found shorter =
      let unswept : swept ≡ inner = ap (λ keys. (drop_all keys inner no_stats).0) none_expired in
      let no_growth : length value - old_len (lookup key swept.entries) ≡ 0 =
        rw (unswept, found) (omega arith) in
      let put_is : (put limits inner key value now).2 ≡ put_entry inner key value now 0 =
        put-accepts
        ∙ ap (put_entry swept key value now) no_growth
        ∙ ap (λ u. put_entry u key value now 0) unswept in
      rw put_is (delete-put_entry inner key value now old found)
