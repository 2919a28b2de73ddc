-- ===== src/Filter/Script/Tests.antt =====
-- Answers built by concrete scripts, for the modules of Filter.Script.
use inspect.Common.{◌≡◌, refl, true, false, Option, none, [], Str, codes}
use inspect.Filter.Action.{into_connect_action}
use inspect.Filter.ConnectScript
use inspect.Filter.RequestScript
use inspect.Filter.ResponseScript

abbrev no_regex : Str → Option (Str → Str → Str)
no_regex pattern = none

abbrev no_patch : Str → Str → Option Str
no_patch body patch_json = none

abbrev undecodable : Str → Option Str
undecodable text = none

runs :
    ((into_connect_action (ConnectScript.deny 403)).drop_tunnel ≡ true)
    × ((into_connect_action (ConnectScript.deny 403)).continue_filters ≡ false)
    × ((RequestScript.set_body_text (codes "b") [] RequestScript.default).body_content_type ≡ none)
    × (RequestScript.replace_body_text_once_b64 undecodable
          (codes "a")
          (codes "b")
          RequestScript.default
        ≡ RequestScript.default)
    × ((ResponseScript.drop ResponseScript.default).stop ≡ true)
unfolding into_connect_action ConnectScript.deny RequestScript.set_body_text ResponseScript.drop
    RequestScript.replace_body_text_once_b64 RequestScript.push_decoded
runs = (refl, refl, refl, refl, refl)
