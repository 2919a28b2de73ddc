-- ===== src/Filter/Script.antt =====
-- The script functions of src/filters/runtime.rs, and what becomes of the answers that scripts
-- build with them.
mod Order
mod Tests
