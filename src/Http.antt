-- ===== src/Http.antt =====
-- streamserver-cvn-cli/http: what an HTTP request and its header go through, and the response.
pub mod Text
pub mod Finding
pub mod WhiteSpace
pub mod Header
pub mod Request
pub mod Response
pub mod Server
pub mod Connection
