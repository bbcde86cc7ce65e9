-- ===== src/Http.antt =====
-- src/http: the messages of HTTP.
pub mod Method
pub mod Status
pub mod Fields
pub mod Printing
pub mod Request
pub mod Response
pub mod Connection
pub mod Server
pub mod Session
