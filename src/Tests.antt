-- ===== src/Tests.antt =====
-- Runs of the models, and the theorems at concrete inputs.
mod Queues
mod Tokens
mod Clients
mod Playlists
mod Connections
mod Requests
