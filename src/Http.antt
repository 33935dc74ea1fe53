-- ===== src/Http.antt =====
-- src/http_parse: the line parser, and the header parser that feeds on it.
pub mod Line
pub mod Header
