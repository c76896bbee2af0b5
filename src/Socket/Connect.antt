-- ===== src/Socket/Connect.antt =====
-- Connecting: `ngx_http_php_socket_connect` and `..._resolve_retval_handler` of
-- src/ngx_http_php_socket.c. `none` is a read through NULL.
use ngx_php.Prelude.{ℕ, zero, suc, Bool, true, false, Option, none, some, [], ◌||◌, if◌then◌else◌}
use ngx_php.Prelude.Codes.{ℤ, ◌==ℤ◌, ngx_ok, ngx_error, ngx_again, ngx_busy, ngx_declined}
use ngx_php.Keepalive.Queue.{NgxQueue}
use ngx_php.Keepalive.State.{Events, Peer, Pool, Connection, Handler, other_handler, put}
use ngx_php.Keepalive.Peers.{socket_get_peer}
use ngx_php.Socket.State.{
  Bytes, no_handler, connected_handler, ignoring_handler, Upstream, Socket, Net, set_upstream,
  set_conn, write_timer,
}

-- What `ngx_resolve_start` gives: NULL, NGX_NO_RESOLVER, or a context.
pub data Resolving : Type 0 where
  not_started no_resolver started : Resolving

-- What nginx does for a client. `parse_url` is `none` where it fails, else the address if the host
-- is one. `connect_peer` is `ngx_event_connect_peer` over `peer->get`; `log` is r->connection->log.
pub record Dial (L : Type 0) : Type 0 where
  pub pcalloc_upstream_succeeds : Bool
  pub pcalloc_resolved_succeeds : Bool
  pub create_pool_succeeds : Bool
  pub parse_url : Bytes → Option (Option (Bytes × ℕ))
  pub connect_peer :
      (Peer → Pool L → Option (ℤ × Peer × Pool L)) → Peer → Pool L → Option (ℤ × Peer × Pool L)
  pub resolve_start : Resolving
  pub resolve_name_succeeds : Bool
  pub log : ℕ

-- `ngx_http_php_socket_handler` as a handler of nginx's events.
abbrev pub socket_handler_pt : Handler
socket_handler_pt = other_handler 0

-- `ngx_pcalloc(r->pool, sizeof(ngx_http_php_socket_upstream_t))`
abbrev pub zeroed_upstream : Upstream
zeroed_upstream = record {
  read_event_handler = no_handler;
  write_event_handler = no_handler;
  connect_timeout = 0;
  read_timeout = 0;
  write_timeout = 0;
  cleanup = false;
  request = 0;
  peer = record { connection = none; cached = false; sockaddr = []; socklen = 0; log = 0 };
  peer_free = false;
  peer_sockaddr = false;
  resolved_ctx = false;
  buffer = record { start = false; text = []; room = 0 };
  buffer_size = 0;
  enabled_receive = false;
  wait_receive = false;
  enabled_receive_page = false;
  request_bufs = none;
}

-- `if (u->connect_timeout <= 0) { u->connect_timeout = 60000; }`
abbrev pub or_minute : ℕ → ℕ
or_minute zero = 60000
or_minute (suc n) = suc n

-- The connection's handlers; `c->data` points to the socket, and to no cached item.
abbrev pub adopted : Connection → Connection
adopted x = record x {
  read_handler = socket_handler_pt;
  write_handler = socket_handler_pt;
  data_item = none;
}

-- The connection's logs.
abbrev pub with_log : ℕ → Connection → Connection
with_log log x = record x { log = log; pool_log = log; read_log = log; write_log = log }

-- `rc == NGX_ERROR`, `rc == NGX_BUSY`, `rc == NGX_DECLINED`
abbrev pub has_failed : ℤ → Bool
has_failed rc = rc ==ℤ ngx_error || (rc ==ℤ ngx_busy || rc ==ℤ ngx_declined)

module _ (q : NgxQueue) {N : Type 0} (dial : Dial q.Links) (net : Net N) where
  abbrev pub handlers_ignore : Upstream → Upstream
  handlers_ignore u = record u {
    read_event_handler = ignoring_handler;
    write_event_handler = ignoring_handler;
  }

  -- Behind the set-up of the connection.
  unfoldable pub connected : ℤ → ℕ → Upstream → Socket q.Links N → ℤ × Socket q.Links N
  connected rc c u s =
      if rc ==ℤ ngx_ok
      then (let s' = record s { phase_status = ngx_ok } in
          if net.handle_write_event_succeeds
          then if net.handle_read_event_succeeds
            then (ngx_ok, set_upstream (handlers_ignore u) s')
            else (ngx_error, s')
          else (ngx_error, s'))
      else (let s' = record s { phase_status = ngx_again } in
          (ngx_again, if rc ==ℤ ngx_again then write_timer c true s' else s'))

  -- From `c = peer->connection` on.
  unfoldable pub set_up : ℤ → ℕ → Upstream → Socket q.Links N → ℤ × Socket q.Links N
  set_up rc c u0 s0 =
      let u = record u0 {
        request = s0.id;
        read_event_handler = connected_handler;
        write_event_handler = connected_handler;
      } in
      let s = set_upstream u (set_conn c (adopted (s0.pool.conns c)) s0) in
      if s.has_pool c || dial.create_pool_succeeds
      then connected rc c u (record (set_conn c (with_log dial.log (s.pool.conns c)) s) {
        has_pool = put s.has_pool c true;
      })
      else (ngx_error, s)

  -- What `ngx_event_connect_peer` gave.
  unfoldable pub dialled :
      Upstream → Socket q.Links N → Option (ℤ × Peer × Pool q.Links) → Option (ℤ × Socket q.Links N)
  dialled u0 s0 none = none
  dialled u0 s0 (some (rc, pc, kc)) =
      let u = record u0 { peer = pc } in
      let s = record s0 { pool = kc; upstream = some u } in
      if has_failed rc
      then some (ngx_error, s)
      else elim pc.connection [ none ↦ none | some c ↦ some (set_up rc c u s) ]

  -- `ngx_http_php_socket_resolve_retval_handler` where `u->resolved` has an address.
  unfoldable pub resolve_retval_handler :
      Events → Bytes × ℕ → Upstream → Socket q.Links N → Option (ℤ × Socket q.Links N)
  resolve_retval_handler ev (sockaddr, socklen) u0 s =
      let u = record u0 {
        peer = record (u0.peer) { sockaddr = sockaddr; socklen = socklen };
        peer_sockaddr = true;
        peer_free = true;
      } in
      dialled u s (dial.connect_peer (socket_get_peer q ev) u.peer s.pool)

  -- The resolver's start; the name is looked up later.
  unfoldable pub start_resolving : Upstream → Socket q.Links N → ℤ × Socket q.Links N
  start_resolving u s = elim dial.resolve_start [
    | not_started ↦ (ngx_error, s)
    | no_resolver ↦ (ngx_error, s)
    | started ↦ (
      if dial.resolve_name_succeeds then ngx_ok else ngx_error,
      set_upstream (record u { resolved_ctx = true }) s,
    )
  ]

  -- `u->resolved = ngx_pcalloc(...)` and what follows.
  unfoldable pub resolve :
      Events → Option (Bytes × ℕ) → Upstream → Socket q.Links N → Option (ℤ × Socket q.Links N)
  resolve ev address u0 s0 =
      let u = record u0 { resolved_ctx = false } in
      let s = set_upstream u s0 in
      if dial.pcalloc_resolved_succeeds
      then elim address [
        | none ↦ some (start_resolving u s)
        | some a ↦ resolve_retval_handler ev a u s
      ]
      else some (ngx_error, s)

  -- The socket as set up for a new connection.
  abbrev pub made_ready : Socket q.Links N → Upstream → Upstream
  made_ready s u = record u {
    connect_timeout = or_minute u.connect_timeout;
    read_timeout = or_minute u.read_timeout;
    write_timeout = or_minute u.write_timeout;
    enabled_receive = false;
    enabled_receive_page = false;
    request = s.id;
    peer = record (u.peer) { log = dial.log };
  }

  -- `ctx->upstream`, made if it is NULL.
  abbrev pub obtained : Option Upstream → Option Upstream
  obtained none = if dial.pcalloc_upstream_succeeds then some zeroed_upstream else none
  obtained (some u) = some u

  unfoldable pub socket_connect : Events → Bytes → Socket q.Links N → Option (ℤ × Socket q.Links N)
  socket_connect ev host s0 =
      if s0.slot
      then elim (obtained s0.upstream) [
        | none ↦ none
        | some u0 ↦
            let u = made_ready s0 u0 in
            let s = set_upstream u (record s0 { client_read_timer_set = false }) in
            elim (dial.parse_url host) [
              | none ↦ some (ngx_error, s)
              | some address ↦ resolve ev address u s
            ]
      ]
      else none
