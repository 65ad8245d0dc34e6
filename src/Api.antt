-- ===== src/Api.antt =====
-- src/api/server.ts: the handler of `POST /route` (Route) and the app around it (App). The listening socket is
-- not modelled.
pub mod Route
pub mod App
