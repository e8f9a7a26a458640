-- ===== src/Http.antt =====
-- plugins/output_http/httpd.c: the web server of the HTTP output plugin.
pub mod Unescape
pub mod Base64
pub mod Buffer
pub mod Stream
pub mod Snapshot
pub mod Request
pub mod Client
pub mod Clients
pub mod Command
pub mod File
pub mod Json
pub mod Cgi
pub mod Server
pub mod Tests
