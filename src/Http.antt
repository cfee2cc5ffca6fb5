-- ===== src/Http.antt =====
-- The HTTP side: the hub of waiting claims (http/hub.py) and the client (http/client.py).
pub mod Hub
pub mod Json
pub mod Client
