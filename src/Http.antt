-- ===== src/Http.antt =====
-- server/internal/httpapi: the HTTP interface of the server.
pub mod Header
pub mod Csv
pub mod Server
pub mod Upload
pub mod Inputs
pub mod Create
pub mod Tail
pub mod Query
pub mod Reply
pub mod Read
pub mod Write
pub mod Serve
