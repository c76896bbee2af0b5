-- ===== src/Socket/Finish.antt =====
-- The end of a socket: `ngx_http_php_socket_finalize`, `..._close` and `..._clear` of
-- src/ngx_http_php_socket.c. `none` is a read through NULL.
use ngx_php.Prelude.{false, Option, none, some, [], ◌∷◌, ◌++◌, ◌&&◌, if◌then◌else◌}
use ngx_php.Keepalive.Queue.{NgxQueue}
use ngx_php.Keepalive.State.{Events, Peer, Pool, put}
use ngx_php.Keepalive.Peers.{socket_free_peer}
use ngx_php.Socket.State.{Upstream, Socket, Net, set_upstream}
use ngx_php.Socket.Sleep.{sleep}

module _ (q : NgxQueue) {N : Type 0} where
  -- `c = u->peer.connection; if (c) { ... ngx_close_connection(c); }`; the pointer stays.
  unfoldable pub close_connection : Upstream → Socket q.Links N → Socket q.Links N
  close_connection u s = elim u.peer.connection [
    | none ↦ set_upstream u s
    | some c ↦ set_upstream u (record s {
      has_pool = put s.has_pool c false;
      pool = record (s.pool) { closed = s.pool.closed ++ c ∷ [] };
    })
  ]

  -- `u->peer.free(...); u->peer.sockaddr = NULL`
  unfoldable pub give_back :
      Upstream → Socket q.Links N → Option (Peer × Pool q.Links) → Option (Socket q.Links N)
  give_back u s none = none
  give_back u s (some (pc, kc)) =
      some
        (close_connection (record u { peer = pc; peer_sockaddr = false }) (record s { pool = kc }))

  unfoldable pub finalize : Events → Upstream → Socket q.Links N → Option (Socket q.Links N)
  finalize ev u0 s =
      let u = record u0 { cleanup = false; resolved_ctx = false } in
      if u.peer_free && u.peer_sockaddr
      then give_back u s (socket_free_peer q ev u.peer s.pool)
      else some (close_connection u s)

  -- The head of the next two functions.
  unfoldable pub if_connected :
      (Upstream → Option (Socket q.Links N)) → Socket q.Links N → Option (Socket q.Links N)
  if_connected go s =
      if s.slot
      then elim s.upstream [
        | none ↦ some s
        | some u ↦ elim u.peer.connection [
          | none ↦ some s
          | some c ↦ go (record u { enabled_receive = false })
        ]
      ]
      else none

  unfoldable pub socket_clear : Events → Socket q.Links N → Option (Socket q.Links N)
  socket_clear ev s = if_connected (λ u. finalize ev u s) s

  -- `ctx->delay_time = 0; ngx_http_php_sleep(r)`
  unfoldable pub rest_after : Net N → Option (Socket q.Links N) → Option (Socket q.Links N)
  rest_after net none = none
  rest_after net (some s) = some (sleep net (record s { delay_time = 0 })).1

  unfoldable pub socket_close : Events → Net N → Socket q.Links N → Option (Socket q.Links N)
  socket_close ev net s = if_connected (λ u. rest_after net (finalize ev u s)) s
