-- ===== src/RequestInfo.antt =====
-- src/php/impl/php_ngx_request.c: what PHP code reads of its request. Paths has the functions on the
-- address, Fields those on one field, Headers the array of headers; Fits is about the memory that the
-- paths take, Found about the array; Tests examples.
pub mod Paths
pub mod Fields
pub mod Headers
pub mod Fits
pub mod Found
mod Tests
