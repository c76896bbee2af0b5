-- ===== src/Keepalive.antt =====
-- src/ngx_http_php_keepalive.c: the cache of idle upstream connections.
-- Queue is the interface to nginx's queues, State has the records, Ops the functions, Peers their
-- callers in src/ngx_http_php_socket.c. Live has the invariant of a pool; Links, Store, Preserve,
-- Close and Order are about the operations on it, Hits about what a client gets; Samples has a pool
-- over plain lists, for Tests.
pub mod Queue
pub mod State
pub mod Ops
pub mod Links
pub mod Live
pub mod Preserve
pub mod Close
pub mod Store
pub mod Order
pub mod Peers
pub mod Hits
pub mod Samples
mod Tests
