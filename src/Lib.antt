-- ===== src/Lib.antt =====
-- ngx-php: PHP inside nginx, as a module of nginx that runs blocks and files of PHP code in the
-- phases of a request.
--
-- How the parts work together. At start, src/ngx_php_conf_file.c reads the text of a
-- `*_by_php_block { ... }` directive and hands it to the directive's handler; that and the setters of
-- the other directives (src/ngx_http_php_directive.c) store the code and the handler in the
-- location's configuration, which src/ngx_http_php_module.c merges into its locations, and it gives
-- nginx the module's handlers. At run time nginx calls the phase handlers of
-- src/ngx_http_php_handler.c; each finds or makes the module's context of the request, waits for the body if it needs one, and runs the PHP code as a generator
-- (src/ngx_http_php_zend_uthread.c). A generator that waits for an event leaves the phase status
-- NGX_AGAIN; the event resumes it and runs the phases again. PHP's output goes on a chain of buffers
-- (src/ngx_http_php_output.c), which the handler gives to nginx's filters when the code has ended.
-- PHP code talks to other servers through the sockets of src/ngx_http_php_socket.c, whose events
-- resume the generator. Upstream connections that PHP has done with are kept by
-- src/ngx_http_php_keepalive.c. `ngx_cookie_get` (src/php/impl/php_ngx_cookie.c) and the other functions of
-- src/php/impl read the request and set the answer's headers for PHP code.
--
-- Which file models which part.
-- - Prelude: shared names; Tests the Boolean tests, Lists the lists with native lengths, Codes
--   nginx's `ngx_int_t` with its return codes, Text constants.
-- - ConfFile: src/ngx_php_conf_file.c. Token has `ngx_php_conf_read_token` (`scan` is its loop,
--   `refill` its buffer), Parse `ngx_php_conf_parse`; a state `Conf` is nginx's `ngx_conf_t` with the
--   buffer as the bytes held since the start of the token and the bytes ahead. Spec says without a
--   buffer where a block closes.
-- - Directive: src/ngx_http_php_directive.c, src/ngx_http_php_module.c and the code objects of
--   src/ngx_http_php_core.c. State has the configurations, Code `ngx_http_php_code_from_file` and
--   `..._from_string`, Setters and Blocks the setters, Keepalive the two for a server's pool,
--   Commands the table `ngx_http_php_commands` and a run of directives, Merge the creation and merge
--   of configurations, Register `ngx_http_php_init`. Ready says when a location's handlers find
--   their code; Keep, Inherit, Outcome, Equal, Reach, Paths and Source are about these definitions.
-- - Keepalive: src/ngx_http_php_keepalive.c and .h. Ops has `keepalive_init`, `get_peer`,
--   `free_peer` and `close_event` (`ngx_http_php_keepalive_close_handler`); Queue is the interface
--   to nginx's `ngx_queue_t`; Live the invariant of a pool; Peers the two callers in
--   src/ngx_http_php_socket.c, and Hits what they hand out.
-- - Handler: src/ngx_http_php_handler.c, src/ngx_http_php_zend_uthread.c,
--   src/ngx_http_php_output.c and the context of src/ngx_http_php_core.h. State has the request and
--   the record `World` of what nginx and PHP do; Uthread `ngx_http_php_zend_uthread_create`,
--   `..._resume`, `..._exit` and the routines; Naming the text and name of a block's function;
--   Respond the part of each handler behind `set_output` and `ngx_http_php_set_output_chain`;
--   Phases the handlers themselves; Body `ngx_http_php_read_request_body_callback`; Tracker the
--   handlers for opcodes and stacks.
-- - Socket: src/ngx_http_php_socket.c, src/ngx_http_php_sleep.c and src/php/impl/php_ngx_sockets.c.
--   State has the socket `ngx_http_php_socket_upstream_t`, its request and the record `Net` of what
--   nginx does; Connect, Resolve (the resolver's answer), Send, Recv, Finish (finalize, close,
--   clear), Events and Sleep the functions, Functions those that PHP code calls, Methods the class
--   `ngx_socket` (src/php/impl/php_ngx_socket.c) and the functions on sleeping; Delivery, Sent,
--   Written, Received, Joined, Connected, Session, Dispose, Cleared and Reused are about them.
-- - Args: src/php/impl/php_ngx_core.c, `ngx_query_args`, `ngx_post_args` and the two methods, over
--   PHP's arrays as the record `PhpArray`. Scan has the loop over the text and the functions; Decode,
--   Faults and Same are about them.
-- - Headers: src/php/impl/php_ngx_header.c, src/ngx_http_php_header.c, `ngx_cookie_set`, and
--   `ngx_status` and `ngx_redirect` of src/php/impl/php_ngx_core.c. State has `headers_out` and PHP's
--   values, Functions the functions; Found and Redirect are about them.
-- - Variable: src/ngx_http_php_variable.c and src/php/impl/php_ngx_var.c. Access has the functions,
--   over nginx's variables as the record `Hash`; Found is about a read behind a write.
-- - Sapi: src/ngx_http_php_core.c, the callbacks `ngx_http_php_code_ub_write` (Write), `..._read_post`
--   (Post), `..._header_handler` (Line) and `ngx_php_error_cb` as PHP 7 compiles it (Errors); Echo,
--   Blocks, Added and Shown are about them. Only the first is installed by the module.
-- - RequestInfo: src/php/impl/php_ngx_request.c. Paths has the functions on the address, Fields those
--   on one field, Headers the array of headers; Fits and Found are about them.
-- - Cookie: src/php/impl/php_ngx_cookie.c. Get has `ngx_cookie_get` and `ngx_cookie_get_all`, Decode
--   a way to write cookies that the loop reads back, Found what is found in a request's headers.
-- - Util: src/ngx_http_php_util.c, `occurrences` and `str_replace`, over C's `strstr`: Replace has the
--   functions with their casts to int, Replaced what they give.
--
-- Fuel and bounds. The loop of `read_token` has one turn for each byte that is left and one more,
-- since each turn but the last takes a byte. `parse` takes the rounds of its loop as fuel; the
-- reader has no code on which the loop goes on, so one is enough. The loops of `str_replace` have
-- one turn for each byte of the text and one more, since each round but the last takes an
-- occurrence. The send loop has a round for each byte and one more, if each send that does not
-- refuse takes a byte. The configuration buffer has the source's 4096 bytes. Lengths are natural
-- numbers; `content_length_n` is signed and unbounded. In `str_replace` sizes are cast to `size_t` and
-- to int where the source casts them, and a length that an int cannot hold ends the model as wild.
--
-- Parameters. nginx's files, memory, queues, events, resolver, variables, address comparison, header
-- and body filters, the reading of request bodies and the running of phases, `ngx_strncasecmp`, C's
-- `strstr` and `atoi`, and the PHP engine's calls, are arguments; what is relied on of them is a named
-- hypothesis (`Serves`, `Copies`, `QueueLaws`, `Compares`, `Finds`, `Works`, `Carries`, `Advances`,
-- `Receives`, `Connects`, `ArrayLaws`, `GetsIndexed`, or an equation in the theorem). So is, in the
-- generators, the clean-up of a socket.
--
-- Not modelled: `ngx_php_conf_handler` and `ngx_http_php_content_post_handler`, whose calls are
-- commented out; `php_set` and the setters of the Nginx Development Kit, which run PHP while the
-- configuration is read; the start of a worker and src/php/impl/php_ngx.c, which start the PHP
-- engine; the function for logs; src/ngx_http_php_fnthread.c, the trackers' output
-- (src/php/impl/php_ngx_track.c), src/ngx_http_php_request.c and src/ngx_http_php_socket_tcp.c,
-- which src/config does not build or no code that runs calls; the variants of the generators for
-- PHP 7 and 8, which copy parts of the PHP engine; the copy of the Nginx Development Kit, another
-- project's library.
pub mod Prelude
pub mod Directive
pub mod ConfFile
pub mod Keepalive
pub mod Handler
pub mod Socket
pub mod Args
pub mod Headers
pub mod Variable
pub mod Sapi
pub mod RequestInfo
pub mod Cookie
pub mod Util
