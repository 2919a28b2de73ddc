-- ===== src/Filter/ConnectScript.antt =====
-- src/filters/runtime.rs, `inspect_roto_runtime`: the functions of the type `ConnectAction` that scripts
-- call to build an answer.
use inspect.Common.{ℕ, true, false, none, some, [], ◌∷◌, ◌++◌, Str}
use inspect.Filter.Action.{RotoConnectActionData}

abbrev pub default : RotoConnectActionData
default = record { stop = false; drop = false; reject_status = none; marks = [] }

abbrev pub drop : RotoConnectActionData
drop = record default { stop = true; drop = true }

unfoldable pub deny : ℕ → RotoConnectActionData
deny status = record default { stop = true; drop = true; reject_status = some status }

unfoldable pub stop : RotoConnectActionData → RotoConnectActionData
stop action = record action { stop = true }

unfoldable pub mark : Str → RotoConnectActionData → RotoConnectActionData
mark label action = record action { marks = action.marks ++ (label ∷ []) }
