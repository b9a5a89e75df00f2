-- ===== src/Http.antt =====
-- The HTTP client and server of mp1/src.
pub mod CString
pub mod Request
pub mod Response
pub mod Parse
pub mod Connection
pub mod Fetch
mod Tests
