-- ===== src/Handler.antt =====
-- src/ngx_http_php_handler.c: the handlers of nginx's request phases, and the parts of
-- src/ngx_http_php_zend_uthread.c, src/ngx_http_php_output.c and src/ngx_http_php_core.h that they
-- work with. State has the request and what nginx and PHP do, Uthread the generator that runs a
-- block, Naming the text and name of the block's function, Respond the answer, Phases the handlers,
-- Body the request body. Output and Writes are about the output chain, Steps and Answer about the
-- parts of a handler, Waiting about a request that waits for its body, Cycle and Resume about
-- blocks from their first call to the answer, Tracker about the handlers for opcodes and stacks;
-- Samples and Tests have concrete requests.
pub mod State
pub mod Uthread
pub mod Naming
pub mod Respond
pub mod Phases
pub mod Body
pub mod Steps
pub mod Output
pub mod Writes
pub mod Answer
pub mod Waiting
pub mod Cycle
pub mod Resume
pub mod Tracker
pub mod Samples
mod Tests
