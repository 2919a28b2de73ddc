-- ===== src/StateStore/Tests.antt =====
-- The store on small inputs, and the theorems about it at such inputs.
use inspect.Common.{
  ◌+◌, ◌-◌, ◌≤◌, ◌≡◌, refl, none, some, inl, inr, codes, arith, length, str_eq, lookup, insert,
  remove, total,
}
use inspect.StateStore.{
  FilterStateLimits, StateKey, StateIndex, key-Eq, key_eq, stored, replaced,
  rejected_connection_limit, get, put, delete, sweep_expired, drop_entry, release, is_expired,
  expired_keys, drop_all, empty_index,
}
use inspect.StateStore.Accounting.{bytes_if, bytes_of}
use inspect.StateStore.Limits.{created, after_put, after_delete, bytes-le-limits}
use inspect.StateStore.Lookup.{get-put, delete-put_overcount}

abbrev limits : FilterStateLimits
limits = record {
  ttl = 60;
  max_entry_bytes = 8;
  max_connection_bytes = 10;
  max_filter_bytes = 20;
  max_total_bytes = 30;
}

abbrev token : StateKey
token = record { connection_id = codes "c1"; filter_name = codes "auth"; user_key = codes "token" }

abbrev other : StateKey
other = record token { user_key = codes "nonce" }

abbrev one : StateIndex
one = (put limits empty_index token (codes "secret") 5).2

runs :
    ((put limits empty_index token (codes "secret") 5).0 ≡ stored)
    × ((put limits one token (codes "new") 6).0 ≡ replaced)
    × ((put limits one other (codes "12345") 6).0 ≡ rejected_connection_limit)
    × ((get limits one token 65).0 ≡ some (codes "secret"))
    × ((get limits one token 66).0 ≡ none)
    × ((sweep_expired limits one 66).1.total_bytes ≡ 0)
unfolding put get sweep_expired drop_entry release is_expired expired_keys drop_all key_eq str_eq
    lookup insert remove
runs = (refl, refl, refl, refl, refl, refl)

bytes-le-limits_example :
    (total (bytes_if (λ key. key.connection_id) (codes "c1")) (delete one token).1.entries ≤ 10)
    × (total (bytes_if (λ key. key.filter_name) (codes "c1")) (delete one token).1.entries ≤ 20)
    × (total bytes_of (delete one token).1.entries ≤ 30)
bytes-le-limits_example =
    bytes-le-limits limits (delete one token).1 (codes "c1")
      (after_delete token (after_put token (codes "secret") 5 created))

get-put_example : (get limits one token 65).0 ≡ some (codes "secret")
unfolding put lookup insert expired_keys drop_all
get-put_example = get-put limits empty_index token (codes "secret") 5 (inl refl) 65 (omega arith)

delete-put_overcount_example :
    ((delete (put limits one token (codes "new") 6).2 token).1.total_bytes
      ≡ one.total_bytes - length (codes "new"))
    × (total bytes_of (delete (put limits one token (codes "new") 6).2 token).1.entries + 6
        ≤ total bytes_of one.entries)
unfolding put lookup insert expired_keys is_expired drop_all key_eq str_eq
delete-put_overcount_example =
    delete-put_overcount limits one token (codes "new") 6 (inr refl)
      (record { value = codes "secret"; created_at = 5; last_access_at = 5 }) refl refl
      (omega arith)
