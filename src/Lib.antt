-- ===== src/Lib.antt =====
-- inspect is an HTTP and HTTPS proxy that captures traffic, runs filter scripts on it and shows it
-- in a terminal. This library models the core of what the proxy does with a flow: the scripts that
-- match it, what they answer, how the answers are combined and applied, the state that they keep,
-- and the capture of event streams.
--
-- A flow goes through the program in this order. The proxy receives a connect or a request; the
-- triggers of the compiled filters select those that match; the chain runs them in the order of
-- the filter set, sweeps the state store before each, records each run and puts slow generated
-- filters in quarantine; the answers are merged into one action; its patch is applied to the
-- request or the response. From a captured message that the user edits as text, the editor makes a
-- new filter: it reads the text, compares the messages and turns the differences into the
-- conditions and actions of a script. The requests that a filter sends itself get the captured
-- message that they ask for as their body and wait in the channel of the pool. The length and the
-- type of a response decide whether its body is collected or streamed. A response that is an event
-- stream is handed frame by frame to the SSE capture, which cuts it into events and sends these to
-- a task that writes them to files.
--
-- Files, and the code they model (paths from the root of the repository):
-- - Common: texts, lists, options, decimal numerals, association lists, and the libraries' names.
--   A text is the list of its code points; to_utf8 gives its bytes.
-- - Sse: src/mitm/flow/sse_capture.rs. SseCapture is the record of the same name; the channel to
--   the writer task is the list of messages sent; push, finish and the writer are functions of the
--   state.
-- - StateStore: src/mitm/flow/state_store.rs. StateIndex is the state behind the mutex; get, put,
--   delete and sweep_expired take it and return the next one; an instant is an argument.
-- - Glob: src/filters/types.rs, glob_match and matches_any_glob.
-- - Filter.Types: src/filters/types.rs, the data that filters read and the actions and patches
--   that they answer with.
-- - Filter.Trigger: src/filters/types.rs, FilterDefinition, FilterTrigger and the views it is
--   matched against.
-- - Filter.Rewrite: src/filters/runtime.rs, apply_body_rewrite_ops.
-- - Filter.Action: src/filters/runtime.rs, into_request_action, into_response_action and the
--   conversion of connect actions.
-- - Filter.RequestBuilder and Filter.ResponseBuilder: src/filters/roto_api.rs.
-- - Filter.Program: src/filters/runtime.rs, CompiledFilter, on_request, on_response, on_completed
--   and run_connect_action.
-- - Filter.ConnectScript, Filter.RequestScript, Filter.ResponseScript: src/filters/runtime.rs, the
--   functions of inspect_roto_runtime by which a script builds its answer; Filter.Script has what
--   holds of them. The three replace_..._in_body functions are replace_js_property,
--   replace_css_declaration and replace_html_attribute of the program.
-- - Filter.FilterSet: src/filters/runtime.rs, CompiledFilterSet.
-- - Filter.Merge: src/mitm/flow/filter_bridge.rs, the merges of actions and the marks of a flow.
-- - Filter.Patch: src/mitm/flow/filter_bridge.rs, apply_request_patch, apply_response_patch and
--   the functions under them.
-- - Filter.Encoding: src/mitm/flow/body_encoding.rs, and build_filter_request,
--   build_filter_response and normalized_content_type of src/mitm/flow/filter_bridge.rs.
-- - Filter.RuntimeState: src/filters/runtime_state.rs, the context of the filter that runs on a
--   thread.
-- - Filter.Chain: src/mitm/flow/filter_runtime.rs, the four run_..._filters functions,
--   quarantine_slow_filter and sweep_state_stats.
-- - Diff: src/filters/engine/diff.rs, the events of a comparison and how they are shown.
-- - Json: JSON values; Json.Compare and Json.Operations: src/filters/engine/json/capture.rs, the
--   comparison of bodies, the pointers and the patch operations; Json.Patch:
--   src/filters/engine/json/patch.rs. Json.Plain has the values that serde_json reads back as they
--   were. Json.Codec is a code of values with which the examples stand in for serde_json.
-- - Generator: src/filters/generator.rs. The builder's methods are in Generator.Builder and its
--   children, the texts in Generator.Quoting, Generator.Source and Generator.Script, the drafts in
--   Generator.Rewrite and Generator.IntoFilter. Where a name of the program is that of an action,
--   the method has add_ in front.
-- - Semantic: src/filters/engine/semantic/body_tree_sitter.rs, the single replacement that turns
--   one body into another.
-- - Dispatch: src/mitm/flow/dispatcher.rs, how the body of a response is handled.
-- - Outbound: src/filters/http_client.rs, the requests that filters send; Outbound.Captured:
--   src/mitm/flow/dispatcher.rs and src/filters/engine/json/capture.rs, the captured messages in
--   their bodies, with the head of a response from src/mitm/flow/capture_service.rs.
-- - Editor: src/filters/editor.rs. Editor.Print writes a message as text, Editor.Parse reads it,
--   Editor.Changes and Editor.Semantic compare two messages, Editor.Generate makes the filter,
--   Editor.Session is the session of the editor.
-- In each folder, Tests has runs on concrete inputs, and the other files have the proofs, named
-- for what they are about.
--
-- Fuel and loops: the loop of SseCapture::push runs on fuel, of which push gives one more than the
-- length of the buffer; each round removes at least one byte or ends. Every other loop is
-- structural.
--
-- What is a parameter: the regular expression engine (none for a pattern that does not compile);
-- the base64 library with the reading of its bytes as UTF-8; the parsers of the HTTP library and
-- its Uri::from_parts; the decoders of the compression libraries; whether a file can be written or
-- moved; the clock; in Filter.Chain the run of one filter, with its answer, its time, its
-- statistics and the state store that it leaves, so that what holds of a chain holds for every
-- script. serde_json and the json_patch library (JsonLib; where a theorem needs that it reads back
-- what it writes, this is assumed of the values of Json.Plain: integers of 64 bits, ascending
-- keys, no deeper than its parser allows); the anchors found in the syntax trees of tree-sitter;
-- the debug form of a text, which reads the tables of Unicode, and char::to_lowercase; the
-- identifier that a new filter draws; the request builder and the texts of statuses of the HTTP
-- library. The application of a JSON patch is a parameter of Filter.Rewrite. A function of a
-- compiled script is a function of the data it gets.
--
-- What is not modelled: network input and output, TLS and WebSocket relays, the database, the
-- terminal interface, the files of generated filters, the search in syntax trees, the compilation
-- of scripts, and logging. Counts of bytes and items are natural numbers: none comes near 2^63.
-- Priorities are i32 in the program, which only compares them: they are natural numbers here,
-- counted from the least i32.
pub mod Common
pub mod Sse
pub mod StateStore
pub mod Glob
pub mod Filter
pub mod Diff
pub mod Json
pub mod Generator
pub mod Semantic
pub mod Editor
pub mod Dispatch
pub mod Outbound
