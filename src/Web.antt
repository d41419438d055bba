-- ===== src/Web.antt =====
-- backend/web: the server's users, and the requests that it passes on to the cluster.
pub mod Identity
pub mod Sessions
pub mod Requests
pub mod Random
pub mod Server
