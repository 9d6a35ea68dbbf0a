-- ===== src/Http.antt =====
-- packages/core/src/plugins/logStore/http: the query requests of the HTTP endpoints; Proxy: the
-- endpoint of packages/core/src/plugins/storageProxy.
pub mod Numbers
pub mod Requests
pub mod Validation
pub mod Responses
pub mod Proxy
pub mod Alike
pub mod Endpoint
pub mod Replies
pub mod Accepted
