-- ===== src/Generator/Script.antt =====
-- src/filters/generator.rs, the script of a generated filter: `GeneratedFilter::to_roto_source`. Priorities
-- are natural numbers here; the program generates no negative one.
use inspect.Common.{
  Bool, true, false, Option, none, some, List, [], ◌∷◌, ◌++◌, Str, codes, decimal, is_empty,
  if◌then◌else◌,
}
use inspect.Json.Patch.{JsonLib}
use inspect.Generator.{GeneratedFilter, request, response}
use inspect.Generator.Quoting.{quoted_string, toml_string, toml_string_array, as_roto_phase}
use inspect.Generator.Source.{write_request_action, write_response_action}

abbrev pub id_line : Option Str → Str
id_line none = []
id_line (some id) = codes "//! id = " ++ (toml_string id ++ codes "\n")

abbrev pub enabled_text : Bool → Str
enabled_text true = codes "true"
enabled_text false = codes "false"

unfoldable pub write_front_matter : GeneratedFilter → Str
unfolding quoted_string toml_string_array as_roto_phase
write_front_matter filter =
    codes "//! +++\n"
    ++ (id_line filter.id
        ++ (codes "//! name = "
            ++ (toml_string filter.name
                ++ (codes "\n//! enabled = "
                    ++ (enabled_text filter.enabled
                        ++ (codes "\n//! priority = "
                            ++ (decimal filter.priority
                                ++ (codes "\n//!\n//! [trigger]\n//! host = "
                                    ++ (toml_string_array filter.trigger.host
                                        ++ (codes "\n//! path = "
                                            ++ (toml_string_array filter.trigger.path
                                                ++ (codes "\n//! method = "
                                                    ++ (toml_string_array filter.trigger.method
                                                        ++ (codes "\n//! phase = ["
                                                            ++ (toml_string
                                                            (as_roto_phase filter.phase)
                                                            ++ codes "]\n//! +++\n")))))))))))))))

unfoldable pub note_lines : List Str → Str
note_lines [] = []
note_lines (note ∷ notes) = codes "// " ++ (note ++ (codes "\n" ++ note_lines notes))

module _ (lib : JsonLib) where
  unfoldable pub write_action : GeneratedFilter → Str
  unfolding write_request_action write_response_action
  write_action filter = elim filter.phase [
    | request ↦ write_request_action lib filter
    | response ↦ write_response_action lib filter
  ]

  unfoldable pub to_roto_source : GeneratedFilter → Str
  unfolding write_front_matter note_lines write_action
  to_roto_source filter =
      write_front_matter filter
      ++ (codes
            "\n// Generated by inspect pattern extractor.\n// Move this file to ./filters/ if you want to promote it to a normal filter.\n"
          ++ (note_lines filter.notes
              ++ ((if is_empty filter.notes
                    then []
                    else codes
                        "// TODO: convert this draft into concrete rewrite actions when the required Roto APIs are available.\n")
                  ++ (codes "\nfn ping() -> bool {\n    true\n}\n\n" ++ write_action filter))))
