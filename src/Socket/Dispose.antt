-- ===== src/Socket/Dispose.antt =====
-- What becomes of a connection at the end of a socket of src/ngx_http_php_socket.c.
use ngx_php.Prelude.{
  ℕ, ◌<◌, ◌≡◌, refl, ap, ◌∙◌, ◌⊎◌, inl, inr, true, false, some, [], ◌∷◌, ◌++◌, arith, Bool-cases,
  occurs-append,
}
use ngx_php.Keepalive.Queue.{NgxQueue}
use ngx_php.Keepalive.State.{Events, Peer, Pool, put}
use ngx_php.Keepalive.Ops.{free_peer}
use ngx_php.Keepalive.Peers.{socket_free_peer}
use ngx_php.Keepalive.Live.{IsSound}
use ngx_php.Keepalive.Store.{IsFresh}
use ngx_php.Socket.State.{Upstream, Socket, Net}
use ngx_php.Socket.Sleep.{sleep}
use ngx_php.Socket.Finish.{
  close_connection, give_back, finalize, if_connected, socket_clear, rest_after, socket_close,
}

-- The connection of a socket that is in use.
pub record InUse {L N : Type 0} (s : Socket L N) (u : Upstream) (c : ℕ) : Type 0 where
  pub slot : s.slot ≡ true
  pub upstream : s.upstream ≡ some u
  pub connection : u.peer.connection ≡ some c
  pub peer_free : u.peer_free ≡ true
  pub peer_sockaddr : u.peer_sockaddr ≡ true

module _ (q : NgxQueue) where
  pub free_peer-off :
      (ev : Events) (pc : Peer) (kc : Pool q.Links)
      → kc.max_cached ≡ 0
      → socket_free_peer q ev pc kc ≡ some (pc, kc)
  unfolding socket_free_peer
  free_peer-off ev pc kc h = ground (arith, h)

  pub free_peer-on :
      (ev : Events) (pc : Peer) (kc : Pool q.Links)
      → 0 < kc.max_cached
      → socket_free_peer q ev pc kc ≡ free_peer q ev pc kc
  unfolding socket_free_peer
  free_peer-on ev pc kc h = ground (arith, h)

  pub free_peer-unwatched :
      (ev : Events) (pc : Peer) (kc : Pool q.Links) (c : ℕ)
      → pc.connection ≡ some c
      → ev.handle_read_event_succeeds ≡ false
      → free_peer q ev pc kc ≡ some (pc, kc)
  unfolding free_peer
  free_peer-unwatched ev pc kc c given h = ground (arith, given, h)

  -- Closing a connection that is open and not cached.
  pub closed-IsSound :
      (kc : Pool q.Links) (c : ℕ)
      → IsSound q kc
      → IsFresh q kc c
      → IsSound q (record kc { closed = kc.closed ++ c ∷ [] })
  closed-IsSound kc c s f = record {
    partition = s.partition;
    live = λ i h.
        let (d, holds) = s.live i h in
        (
          d,
          record {
            connection = holds.connection;
            points_back = holds.points_back;
            is_open = ground (
              arith,
              occurs-append d kc.closed (c ∷ []),
              holds.is_open,
              f.unshared i h,
              holds.connection,
            );
          },
        );
  }

module _ (q : NgxQueue) {N : Type 0} where
  -- A connection that is closed, while the socket still points to it.
  unfoldable pub record_closed : Socket q.Links N → Upstream → ℕ → Socket q.Links N
  record_closed s u c = record s {
    upstream = some u;
    has_pool = put s.has_pool c false;
    pool = record (s.pool) { closed = s.pool.closed ++ c ∷ [] };
  }

  pub finalize-off :
      (ev : Events) (s : Socket q.Links N) (u : Upstream) (c : ℕ)
      → u.peer.connection ≡ some c
      → u.peer_free ≡ true
      → (u.peer_sockaddr ≡ false) ⊎ (socket_free_peer q ev u.peer s.pool ≡ some (u.peer, s.pool))
      → finalize q ev u s
        ≡ some (
            record_closed s
              (record u { cleanup = false; resolved_ctx = false; peer_sockaddr = false })
              c)
  unfolding finalize give_back close_connection record_closed
  finalize-off ev s u c given f (inl no_address) = ground (arith, given, f, no_address)
  finalize-off ev s u c given f (inr same) = elim (Bool-cases u.peer_sockaddr) [
    | inl a ↦ rw (f, a, same) (ground (arith, given))
    | inr a ↦ ground (arith, given, f, a)
  ]

  pub clear-finalize :
      (ev : Events) (s : Socket q.Links N) (u : Upstream) (c : ℕ)
      → s.slot ≡ true
      → s.upstream ≡ some u
      → u.peer.connection ≡ some c
      → socket_clear q ev s ≡ finalize q ev (record u { enabled_receive = false }) s
  unfolding socket_clear if_connected
  clear-finalize ev s u c slot up given = rw (slot, up) (ground (arith, given))

  close-finalize :
      (ev : Events) (net : Net N) (s : Socket q.Links N) (u : Upstream) (c : ℕ)
      → s.slot ≡ true
      → s.upstream ≡ some u
      → u.peer.connection ≡ some c
      → socket_close q ev net s
        ≡ rest_after q net (finalize q ev (record u { enabled_receive = false }) s)
  unfolding socket_close if_connected
  close-finalize ev net s u c slot up given = rw (slot, up) (ground (arith, given))

  sleep-keeps :
      (net : Net N) (s : Socket q.Links N)
      → s.slot ≡ true
      → let (_, s') = sleep net s in
        (s'.slot ≡ true) × (s'.upstream ≡ s.upstream) × (s'.pool ≡ s.pool)
  unfolding sleep
  sleep-keeps net s h = ground (arith, h)

  -- With the cache of connections off, whatever the state of its pool: a socket in use that PHP
  -- closes, and that is cleared at the end of the request, has its connection closed twice.
  pub close-clear :
      (ev : Events) (net : Net N) (s : Socket q.Links N) (u : Upstream) (c : ℕ)
      → InUse s u c
      → s.pool.max_cached ≡ 0
      → (s' s'' : Socket q.Links N) × (socket_close q ev net s ≡ some s')
        × (socket_clear q ev s' ≡ some s'')
        × (s''.pool.closed ≡ (s.pool.closed ++ c ∷ []) ++ c ∷ [])
  unfolding rest_after
  close-clear ev net s u c held off =
      let u1 = record u { enabled_receive = false } in
      let u2 = record u1 { cleanup = false; resolved_ctx = false; peer_sockaddr = false } in
      let s1 = record_closed s u2 c in
      let (_, s2) = sleep net (record s1 { delay_time = 0 }) in
      let (slot, up, pool) =
        sleep-keeps net (record s1 { delay_time = 0 }) (unfold record_closed in held.slot) in
      let first =
        finalize-off ev s u1 c held.connection held.peer_free
          (inr (free_peer-off q ev u1.peer s.pool off)) in
      let up' : s2.upstream ≡ some u2 = up ∙ (unfold record_closed in refl) in
      (
        s2,
        record_closed s2 (record u2 { enabled_receive = false }) c,
        close-finalize ev net s u c held.slot held.upstream held.connection
            ∙ ap (rest_after q net) first,
        clear-finalize ev s2 u2 c slot up' held.connection
            ∙ finalize-off ev s2 (record u2 { enabled_receive = false }) c held.connection
                held.peer_free (inl refl),
        unfold record_closed in ap (λ k. k.closed ++ c ∷ []) pool,
      )
