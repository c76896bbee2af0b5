-- ===== src/Socket/Reused.antt =====
-- A connection that one request of PHP's gives to the cache and the next one gets, over the sockets of
-- src/ngx_http_php_socket.c and the cache of src/ngx_http_php_keepalive.c.
use ngx_php.Prelude.{
  ℕ, ◌<◌, ◌≤◌, ◌≡◌, refl, ◌∙◌, true, false, Option, none, some, [], arith, length,
}
use ngx_php.Prelude.Codes.{ℤ, ngx_done}
use ngx_php.Keepalive.Queue.{NgxQueue, QueueLaws}
use ngx_php.Keepalive.State.{Events, Peer, Pool}
use ngx_php.Keepalive.Ops.{keepalive_close, pick_item, store, get_peer, free_peer}
use ngx_php.Keepalive.Peers.{socket_get_peer}
use ngx_php.Keepalive.Live.{IsSound}
use ngx_php.Keepalive.Store.{IsFresh}
use ngx_php.Keepalive.Order.{Compares, free_peer-caches, free_peer-get_peer}
use ngx_php.Socket.State.{Bytes, Upstream, Socket, Net, set_upstream}
use ngx_php.Socket.Connect.{
  Dial, connected, set_up, dialled, resolve_retval_handler, obtained, made_ready, socket_connect,
}
use ngx_php.Socket.Finish.{socket_clear}
use ngx_php.Socket.Dispose.{InUse, free_peer-on, clear-finalize}
use ngx_php.Socket.Cleared.{finalize-cached}
use ngx_php.Socket.Joined.{IsConnect, Connects}
use ngx_php.Socket.Connected.{connect-resolve, resolve-address}
use ngx_php.Headers.State.{is_true}
use ngx_php.Socket.Connect.{zeroed_upstream}
use ngx_php.Socket.Functions.{PhpSocket, af_inet, ngx_socket_connect, ngx_socket_iskeepalive}
use ngx_php.Socket.Session.{connect_function}

-- The client of a request's socket.
abbrev pub peer_of : {L N : Type 0} → Socket L N → Option Peer
peer_of s = elim s.upstream [ none ↦ none | some u ↦ some u.peer ]

module _ (q : NgxQueue) where
  max-free_peer :
      (ev : Events) (pc pc' : Peer) (kc kc' : Pool q.Links)
      → free_peer q ev pc kc ≡ some (pc', kc')
      → kc'.max_cached ≡ kc.max_cached
  unfolding free_peer pick_item store keepalive_close
  max-free_peer ev pc pc' kc kc' e = ground (arith, e)

  IsConnect-done :
      (rc : ℤ) (pc pc' : Peer) (kc kc' : Pool q.Links)
      → IsConnect q (ngx_done, pc, kc) (rc, pc', kc')
      → (rc ≡ ngx_done) × (pc' ≡ pc) × (kc' ≡ kc)
  IsConnect-done rc pc pc' kc kc' h = ground (arith, h)

module _ (q : NgxQueue) {N : Type 0} (dial : Dial q.Links) (net : Net N) where
  set_up-peer :
      (rc : ℤ) (c : ℕ) (u : Upstream) (s : Socket q.Links N)
      → (peer_of (set_up q dial net rc c u s).1 ≡ some u.peer)
        × ((set_up q dial net rc c u s).1.slot ≡ s.slot)
  unfolding set_up connected
  set_up-peer rc c u s = ground arith

  -- A connect that the cache answers with a connection.
  dialled-hit :
      (u : Upstream) (s : Socket q.Links N) (pc : Peer) (kc : Pool q.Links) (c : ℕ)
      → pc.connection ≡ some c
      → (rc : ℤ) × (s' : Socket q.Links N) × (dialled q dial net u s (some (ngx_done, pc, kc))
          ≡ some (rc, s'))
        × (peer_of s' ≡ some pc)
        × (s'.slot ≡ s.slot)
  unfolding dialled
  dialled-hit u s pc kc c given =
      let u' = record u { peer = pc } in
      let s' = record s { pool = kc; upstream = some u' } in
      let (peer, slot) = set_up-peer ngx_done c u' s' in
      let r = set_up q dial net ngx_done c u' s' in (r.0, r.1, ground (arith, given), peer, slot)

  obtained-some :
      (o : Option Upstream)
      → dial.pcalloc_upstream_succeeds ≡ true
      → (u : Upstream) × (obtained q dial net o ≡ some u)
  obtained-some none found = (zeroed_upstream, ground (arith, found))
  obtained-some (some u) found = (u, refl)

  -- The cache's answer, through nginx's `ngx_event_connect_peer`.
  retval-hit :
      (conn : Connects q dial) (ev : Events) (a : Bytes × ℕ) (u : Upstream) (s : Socket q.Links N)
      (pc : Peer) (kc : Pool q.Links) (c : ℕ)
      → 0 < s.pool.max_cached
      → get_peer q ev (record (u.peer) { sockaddr = a.0; socklen = a.1 }) s.pool
        ≡ some (ngx_done, pc, kc)
      → pc.connection ≡ some c
      → (rc : ℤ) × (s' : Socket q.Links N) × (resolve_retval_handler q dial net ev a u s
          ≡ some (rc, s'))
        × (peer_of s' ≡ some pc)
        × (s'.slot ≡ s.slot)
  unfolding resolve_retval_handler socket_get_peer
  retval-hit conn ev (sockaddr, socklen) u0 s pc kc c room hit given =
      let u = record u0 {
        peer = record (u0.peer) { sockaddr = sockaddr; socklen = socklen };
        peer_sockaddr = true;
        peer_free = true;
      } in
      let asked : socket_get_peer q ev u.peer s.pool ≡ some (ngx_done, pc, kc) =
        ground (arith, room, hit) in
      let ((rc', pc', kc'), run, isc) =
        conn.connects (socket_get_peer q ev) u.peer s.pool (ngx_done, pc, kc) asked in
      let (done, same, pool) = IsConnect-done q rc' pc pc' kc kc' isc in
      let (rc, s', joined, peer, slot) = dialled-hit u s pc kc c given in
      (rc, s', rw (run, done, same, pool) joined, peer, slot)

  connect-hit :
      (conn : Connects q dial) (ev : Events) (host : Bytes) (a : Bytes × ℕ) (s : Socket q.Links N)
      (u : Upstream) (pc : Peer) (kc : Pool q.Links) (c : ℕ)
      → s.slot ≡ true
      → obtained q dial net s.upstream ≡ some u
      → dial.pcalloc_resolved_succeeds ≡ true
      → dial.parse_url host ≡ some (some a)
      → 0 < s.pool.max_cached
      → get_peer q ev (record (u.peer) { log = dial.log; sockaddr = a.0; socklen = a.1 }) s.pool
        ≡ some (ngx_done, pc, kc)
      → pc.connection ≡ some c
      → (rc : ℤ) × (s' : Socket q.Links N) × (socket_connect q dial net ev host s ≡ some (rc, s'))
        × (peer_of s' ≡ some pc)
        × (s'.slot ≡ true)
  connect-hit conn ev host a s u pc kc c slot got found parsed room hit given =
      let u1 = made_ready q dial net s u in
      let s1 = set_upstream u1 (record s { client_read_timer_set = false }) in
      let u2 = record u1 { resolved_ctx = false } in
      let (rc, s', run, peer, slot') =
        retval-hit conn ev a u2 (set_upstream u2 s1) pc kc c room hit given in
      (
        rc,
        s',
        connect-resolve q dial net ev host a u s slot got parsed
            ∙ resolve-address q dial net ev a u1 s1 found
            ∙ run,
        peer,
        slot' ∙ slot,
      )

module _ (q : NgxQueue) (laws : QueueLaws q) {N : Type 0} (ev : Events) (same : Compares ev)
    (watched : ev.handle_read_event_succeeds ≡ true) (added : ev.add_event_succeeds ≡ true) where
  -- Clearing a socket caches its connection, and the next client with its address gets it.
  clear-hit :
      (s : Socket q.Links N) (u : Upstream) (c : ℕ) (pc2 : Peer)
      → InUse s u c
      → IsSound q s.pool
      → IsFresh q s.pool c
      → 0 < s.pool.max_cached
      → u.peer.socklen ≤ length u.peer.sockaddr
      → pc2.sockaddr ≡ u.peer.sockaddr
      → pc2.socklen ≡ u.peer.socklen
      → (s' : Socket q.Links N) × (pc : Peer) × (kc : Pool q.Links) × (socket_clear q ev s
          ≡ some s')
        × (0 < s'.pool.max_cached)
        × (get_peer q ev pc2 s'.pool ≡ some (ngx_done, pc, kc))
        × (pc.connection ≡ some c)
        × (pc.cached ≡ true)
  clear-hit s u c pc2 held sound fresh room fits sa sl =
      let u1 = record u { enabled_receive = false } in
      let (pc', pc, kc', kc, freed, hit, given, cached, _) =
        free_peer-get_peer q laws ev u.peer s.pool c sound room held.connection watched pc2 fresh
          same sa sl fits added in
      let (_, pc0, kc0, freed0, lost0, _, _, _) =
        free_peer-caches q laws ev u.peer s.pool c sound room held.connection watched fresh in
      let lost : pc'.connection ≡ none = ground (arith, freed, freed0, lost0) in
      (
        record s {
          upstream = some (record u1 {
            cleanup = false;
            resolved_ctx = false;
            peer = pc';
            peer_sockaddr = false;
          });
          pool = kc';
        },
        pc,
        kc,
        clear-finalize q ev s u c held.slot held.upstream held.connection
            ∙ finalize-cached q ev s u1 pc' kc' held.peer_free held.peer_sockaddr
                (free_peer-on q ev u.peer s.pool room ∙ freed) lost,
        omega (arith, max-free_peer q ev u.peer pc' s.pool kc' freed, room),
        hit,
        given,
        cached,
      )

  iskeepalive-cached :
      (s : Socket q.Links N) (pc : Peer)
      → s.slot ≡ true
      → peer_of s ≡ some pc
      → pc.cached ≡ true
      → ngx_socket_iskeepalive q s ≡ some is_true
  unfolding ngx_socket_iskeepalive
  iskeepalive-cached s pc slot peer cached = ground (arith, slot, peer, cached)

  -- With queues that obey nginx's laws and a cache with room for one connection, where nginx compares
  -- addresses as documented, watches the connection and adds its event, and `ngx_event_connect_peer`
  -- asks `peer->get` first: if PHP's socket is in use, its connection open and not cached, on a sound
  -- pool, and is cleared at the end of its request, then the next request with a context, where memory
  -- for the socket is found, that connects a socket of the family AF_INET to a host of that address
  -- gets the same connection, and PHP is told that it was kept.
  pub clear-connect :
      (dial : ℕ → Dial q.Links) (net : Net N) (port : ℕ) (conn : Connects q (dial port))
      (s next : Socket q.Links N) (u : Upstream) (c : ℕ) (sock : PhpSocket) (host : Bytes)
      → InUse s u c
      → IsSound q s.pool
      → IsFresh q s.pool c
      → 0 < s.pool.max_cached
      → u.peer.socklen ≤ length u.peer.sockaddr
      → next.slot ≡ true
      → sock.type ≡ af_inet
      → (dial port).pcalloc_upstream_succeeds ≡ true
      → (dial port).pcalloc_resolved_succeeds ≡ true
      → (dial port).parse_url host ≡ some (some (u.peer.sockaddr, u.peer.socklen))
      → (s' next' : Socket q.Links N) × (pc : Peer) × (socket_clear q ev s ≡ some s')
        × (ngx_socket_connect q dial net ev (some sock) host port (record next { pool = s'.pool })
            ≡ some (is_true, next'))
        × (peer_of next' ≡ some pc)
        × (pc.connection ≡ some c)
        × (ngx_socket_iskeepalive q next' ≡ some is_true)
  clear-connect dial net port conn s next u c sock host held sound fresh room fits slot inet found
        resolved parsed =
      let (u2, got) = obtained-some q (dial port) net next.upstream found in
      let pc2 = record (u2.peer) {
        log = (dial port).log;
        sockaddr = u.peer.sockaddr;
        socklen = u.peer.socklen;
      } in
      let (s', pc, kc, cleared, room', hit, given, cached) =
        clear-hit s u c pc2 held sound fresh room fits refl refl in
      let (rc, next', run, peer, slot') =
        connect-hit q (dial port) net conn ev host (u.peer.sockaddr, u.peer.socklen)
          (record next { pool = s'.pool }) u2 pc kc c slot got resolved parsed room' hit given in
      (
        s',
        next',
        pc,
        cleared,
        connect_function q dial net (λ w d. []) ev sock host port rc
            (record next { pool = s'.pool }) next' inet slot run,
        peer,
        given,
        iskeepalive-cached next' pc slot' peer cached,
      )
