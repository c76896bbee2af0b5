-- ===== src/Socket/State.antt =====
-- The structures of src/ngx_http_php_socket.h, the fields of the request's context that
-- src/ngx_http_php_socket.c reads or writes, and what nginx does for it.
use ngx_php.Prelude.{ℕ, Bool, Option, some, List}
use ngx_php.Prelude.Codes.{ℤ}
use ngx_php.Keepalive.State.{Peer, Pool, Connection, put}

abbrev pub Bytes : Type 0
Bytes = List ℕ

-- `ngx_http_php_socket_upstream_handler_pt`
pub data EventHandler : Type 0 where
  no_handler connected_handler ignoring_handler send_handler upstream_recv_handler : EventHandler

-- `ngx_buf_t`: whether `start` is not NULL, the bytes pos .. last, and end - last.
pub record Buffer : Type 0 where
  pub start : Bool
  pub text : Bytes
  pub room : ℕ

-- `ngx_http_php_socket_upstream_t`. `request_bufs` is `none` where the pointer is NULL, else the
-- bytes pos .. last of its buffer. `peer_free` and `peer_sockaddr` say that `peer.free` and
-- `peer.sockaddr` are not NULL, `cleanup` and `resolved_ctx` that those are not.
pub record Upstream : Type 0 where
  pub read_event_handler : EventHandler
  pub write_event_handler : EventHandler
  pub connect_timeout : ℕ
  pub read_timeout : ℕ
  pub write_timeout : ℕ
  pub cleanup : Bool
  pub request : ℕ
  pub peer : Peer
  pub peer_free : Bool
  pub peer_sockaddr : Bool
  pub resolved_ctx : Bool
  pub buffer : Buffer
  pub buffer_size : ℕ
  pub enabled_receive : Bool
  pub wait_receive : Bool
  pub enabled_receive_page : Bool
  pub request_bufs : Option Bytes

-- A request with its socket. `slot` says that its context is not NULL;
-- the events of a socket are modelled for a request that has one. `recv_buf` and `recv_code`
-- are what PHP's variables hold. `has_pool c` says that connection `c` has a pool of its own; `wire`
-- is the state of nginx and the kernel. The sleep timer and the number of clean-ups are of
-- src/ngx_http_php_sleep.c.
pub record Socket (L N : Type 0) : Type 0 where
  pub id : ℕ
  pub slot : Bool
  pub upstream : Option Upstream
  pub phase_status : ℤ
  pub recv_buf : Option Bytes
  pub recv_code : Option ℤ
  pub delay_time : ℕ
  pub sleep_timer_set : Bool
  pub cleanups : ℕ
  pub client_read_timer_set : Bool
  pub pool : Pool L
  pub has_pool : ℕ → Bool
  pub wire : N

-- What nginx does for a socket. `c_send w c b` is `c->send` on the bytes `b`; `c_recv w c n` is
-- `c->recv` with room for `n`, with the bytes that it stored. `read_active`, `read_ready` and
-- `rev_write` are the flags of `c->read`.
pub record Net (N : Type 0) : Type 0 where
  pub c_send : N → ℕ → Bytes → ℤ × N
  pub c_recv : N → ℕ → ℕ → ℤ × Bytes × N
  pub read_active : N → ℕ → Bool
  pub read_ready : N → ℕ → Bool
  pub rev_write : N → ℕ → Bool
  pub read_timedout : N → ℕ → Bool
  pub write_timedout : N → ℕ → Bool
  pub handle_write_event_succeeds : Bool
  pub handle_read_event_succeeds : Bool
  pub add_event_succeeds : Bool
  pub palloc_succeeds : Bool
  pub cleanup_add_succeeds : Bool

module _ {L N : Type 0} where
  abbrev pub set_upstream : Upstream → Socket L N → Socket L N
  set_upstream u s = record s { upstream = some u }

  -- A change of one connection.
  abbrev pub set_conn : ℕ → Connection → Socket L N → Socket L N
  set_conn c x s = record s { pool = record (s.pool) { conns = put s.pool.conns c x } }

  abbrev pub write_timer : ℕ → Bool → Socket L N → Socket L N
  write_timer c on s = set_conn c (record (s.pool.conns c) { write_timer_set = on }) s

  abbrev pub read_timer : ℕ → Bool → Socket L N → Socket L N
  read_timer c on s = set_conn c (record (s.pool.conns c) { read_timer_set = on }) s
