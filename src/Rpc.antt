-- ===== src/Rpc.antt =====
-- The RPC layer between browser and server: shared/rpc.ts, server/rpc.ts, src/lib/ws-client.ts.
pub mod Frame
pub mod Client
