-- ===== src/Docs.antt =====
-- The scripts of the pages that show the HTTP interface (api/doc).
pub mod Dom
pub mod Swagger
pub mod Stoplight
