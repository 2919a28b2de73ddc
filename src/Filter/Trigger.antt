-- ===== src/Filter/Trigger.antt =====
-- src/filters/types.rs, `FilterDefinition`, `FilterTrigger` and the views it is matched against.
mod Laws
mod Tests
use inspect.Common.{
  ℕ, Bool, true, false, ◌&&◌, ◌||◌, Option, none, List, [], ◌∷◌, Str, codes, str_eq,
  to_ascii_lowercase, is_empty, any,
}
use inspect.Glob.{wildcard, matches_any_glob}

pub data FilterSourceKind : Type 0 where
  persistent generated : FilterSourceKind

unfoldable pub as_str : FilterSourceKind → Str
as_str persistent = codes "persistent"
as_str generated = codes "generated"

pub data FilterPhase : Type 0 where
  connect request response completed : FilterPhase

unfoldable pub phase_eq : FilterPhase → FilterPhase → Bool
phase_eq connect connect = true
phase_eq request request = true
phase_eq response response = true
phase_eq completed completed = true
phase_eq _ _ = false

pub record FilterTrigger : Type 0 where
  pub host : List Str
  pub path : List Str
  pub method : List Str
  pub phase : List FilterPhase

abbrev pub default_trigger : FilterTrigger
default_trigger = record {
  host = (wildcard ∷ []) ∷ [];
  path = (wildcard ∷ []) ∷ [];
  method = [];
  phase = [];
}

-- The priority is an `i32`, of which the program only uses the order: it is a natural number here, the
-- signed number less the least one.
pub record FilterMetadata : Type 0 where
  pub id : Option Str
  pub name : Option Str
  pub enabled : Bool
  pub priority : Option ℕ
  pub trigger : FilterTrigger

abbrev pub default_metadata : FilterMetadata
default_metadata = record {
  id = none;
  name = none;
  enabled = true;
  priority = none;
  trigger = default_trigger;
}

-- A path is its components.
abbrev pub PathBuf : Type 0
PathBuf = List Str

pub record FilterDefinition : Type 0 where
  pub id : Str
  pub source_kind : FilterSourceKind
  pub file_name : Str
  pub script_hash : Str
  pub path : PathBuf
  pub source : Str
  pub metadata : FilterMetadata
  pub script : Str

pub record FilterRequestView : Type 0 where
  pub host : Str
  pub path : Str
  pub method : Str

pub record FilterConnectView : Type 0 where
  pub host : Str
  pub port : ℕ

pub record FilterResponseView : Type 0 where
  pub request : FilterRequestView
  pub status : ℕ
  pub content_type : Option Str

-- `str::eq_ignore_ascii_case`.
unfoldable pub eq_ignore_ascii_case : Str → Str → Bool
eq_ignore_ascii_case a b = str_eq (to_ascii_lowercase a) (to_ascii_lowercase b)

unfoldable pub matches_phase : FilterTrigger → FilterPhase → Bool
matches_phase trigger phase = is_empty trigger.phase || any (phase_eq phase) trigger.phase

unfoldable pub matches_host : FilterTrigger → Str → Bool
matches_host trigger host = matches_any_glob trigger.host (to_ascii_lowercase host)

unfoldable pub matches_path : FilterTrigger → Str → Bool
matches_path trigger path = matches_any_glob trigger.path path

unfoldable pub matches_method : FilterTrigger → Str → Bool
matches_method trigger method =
    is_empty trigger.method
    || any (λ candidate. eq_ignore_ascii_case candidate method) trigger.method

unfoldable pub matches_connect : FilterTrigger → FilterConnectView → Bool
matches_connect trigger conn = matches_phase trigger connect && matches_host trigger conn.host

unfoldable pub matches_request : FilterTrigger → FilterRequestView → Bool
matches_request trigger req =
    matches_phase trigger request
    && matches_host trigger req.host
    && matches_path trigger req.path
    && matches_method trigger req.method

unfoldable pub matches_response : FilterTrigger → FilterResponseView → Bool
matches_response trigger res =
    matches_phase trigger response
    && matches_host trigger res.request.host
    && matches_path trigger res.request.path
    && matches_method trigger res.request.method

unfoldable pub matches_completed : FilterTrigger → FilterRequestView → Bool
matches_completed trigger req =
    matches_phase trigger completed
    && matches_host trigger req.host
    && matches_path trigger req.path
    && matches_method trigger req.method
