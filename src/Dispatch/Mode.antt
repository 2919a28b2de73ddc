-- ===== src/Dispatch/Mode.antt =====
-- src/mitm/flow/dispatcher.rs: which responses are streamed.
