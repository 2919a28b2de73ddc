-- ===== src/Filter.antt =====
-- The filters: src/filters/types.rs, src/filters/runtime.rs, src/filters/roto_api.rs,
-- src/filters/runtime_state.rs, src/mitm/flow/filter_bridge.rs and src/mitm/flow/filter_runtime.rs.
pub mod Types
mod Trigger
pub mod Rewrite
mod Action
mod Merge
mod RequestBuilder
mod ResponseBuilder
mod Program
mod FilterSet
mod Chain
pub mod Patch
mod RuntimeState
mod ConnectScript
mod RequestScript
mod ResponseScript
mod Script
pub mod Encoding
