-- ===== src/Socket.antt =====
-- src/ngx_http_php_socket.c and src/ngx_http_php_sleep.c: the sockets of PHP code.
-- State has the records; Connect, Resolve, Send, Recv, Finish, Events and Sleep the functions, Functions
-- and Methods those of src/php/impl/php_ngx_sockets.c and php_ngx_socket.c. Delivery is about the loop of
-- a send, Sent and Written about a send and the events behind it, Received about a read, Joined and
-- Connected about a connect, Session about a connect and a send, Dispose and Cleared about the end of a
-- socket, Reused about a connection that the next request gets; Samples has a socket over plain
-- queues, Tests its runs.
pub mod State
pub mod Send
pub mod Recv
pub mod Sleep
pub mod Finish
pub mod Connect
pub mod Events
pub mod Delivery
pub mod Sent
pub mod Written
pub mod Received
pub mod Dispose
pub mod Cleared
pub mod Joined
pub mod Connected
pub mod Resolve
pub mod Functions
pub mod Session
pub mod Reused
pub mod Methods
mod Samples
mod Tests
