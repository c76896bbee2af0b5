-- ===== src/Socket/Events.antt =====
-- The events of a socket: `ngx_http_php_socket_handler` and `..._connected_handler` of
-- src/ngx_http_php_socket.c; and `ngx_socket_send` of src/php/impl/php_ngx_sockets.c, by which PHP
-- gives the bytes. `none` is a read through NULL or a loop that the fuel does not end.
use ngx_php.Prelude.{ℕ, Bool, false, Option, none, some, if◌then◌else◌}
use ngx_php.Prelude.Codes.{ℤ}
use ngx_php.Socket.State.{
  Bytes, EventHandler, no_handler, connected_handler, ignoring_handler, send_handler,
  upstream_recv_handler, Upstream, Socket, Net, set_upstream, write_timer,
}
use ngx_php.Socket.Send.{on_writable, socket_send}
use ngx_php.Socket.Recv.{on_readable}

module _ {L N : Type 0} (net : Net N) where
  -- `ngx_http_php_socket_connected_handler`: a failed connect and a timeout are only noted.
  unfoldable pub on_connected : ℕ → Upstream → Socket L N → Socket L N
  on_connected c u s =
      set_upstream
        (record u { read_event_handler = ignoring_handler; write_event_handler = ignoring_handler })
        (if (s.pool.conns c).write_timer_set then write_timer c false s else s)

  -- A call of `u->read_event_handler` or `u->write_event_handler`.
  unfoldable pub call_handler : ℕ → EventHandler → ℕ → Upstream → Socket L N → Option (Socket L N)
  call_handler fuel no_handler c u s = none
  call_handler fuel connected_handler c u s = some (on_connected c u s)
  call_handler fuel ignoring_handler c u s = some s
  call_handler fuel send_handler c u s = on_writable net fuel c u s
  call_handler fuel upstream_recv_handler c u s = on_readable net c u s

  -- The event's own handler, by `ev->write`.
  unfoldable pub on_event : ℕ → Bool → Socket L N → Option (Socket L N)
  on_event fuel is_write s = elim s.upstream [
    | none ↦ none
    | some u ↦ elim u.peer.connection [
      | none ↦ none
      | some c ↦
          let handler = if is_write then u.write_event_handler else u.read_event_handler in
          call_handler fuel handler c u s
    ]
  ]

  -- `ngx_http_php_socket_handler`, where `resume` is `ngx_http_php_zend_uthread_resume`.
  unfoldable pub socket_handler :
      (Socket L N → Socket L N) → ℕ → Bool → Socket L N → Option (Socket L N)
  socket_handler resume fuel is_write s = elim (on_event fuel is_write s) [
    | none ↦ none
    | some s' ↦ some (resume s')
  ]

  -- `u->request_bufs = cl` with the bytes of PHP's string, and the send.
  unfoldable pub ngx_socket_send : ℕ → Bytes → Socket L N → Option (ℤ × Socket L N)
  ngx_socket_send fuel b s = elim s.upstream [
    | none ↦ none
    | some u ↦ socket_send net fuel (set_upstream (record u { request_bufs = some b }) s)
  ]
