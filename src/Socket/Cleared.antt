-- ===== src/Socket/Cleared.antt =====
-- Clearing a socket of src/ngx_http_php_socket.c caches its connection or closes it, never both.
use ngx_php.Prelude.{ℕ, ◌≡◌, ◌⊎◌, true, false, none, some, arith, occurs}
use ngx_php.Keepalive.Queue.{NgxQueue}
use ngx_php.Keepalive.State.{Events, Peer, Pool}
use ngx_php.Keepalive.Peers.{socket_free_peer}
use ngx_php.Keepalive.Live.{Holds, IsSound}
use ngx_php.Socket.State.{Upstream, Socket}
use ngx_php.Socket.Finish.{close_connection, give_back, finalize}

module _ (q : NgxQueue) {N : Type 0} where
  -- What becomes of connection `c`: the cache holds it and the socket has lost it, or it is closed,
  -- once, and the socket still points to it.
  abbrev pub Disposed : ℕ → Socket q.Links N → Type 0
  Disposed c s =
      (u : Upstream) × (s.upstream ≡ some u)
      × IsSound q s.pool
      × ((u.peer.connection ≡ none) × ((i : ℕ) × Holds s.pool i c)
          ⊎ ((u.peer.connection ≡ some c) × (occurs c s.pool.closed ≡ 1)))

  pub finalize-cached :
      (ev : Events) (s : Socket q.Links N) (u : Upstream) (pc : Peer) (kc : Pool q.Links)
      → u.peer_free ≡ true
      → u.peer_sockaddr ≡ true
      → socket_free_peer q ev u.peer s.pool ≡ some (pc, kc)
      → pc.connection ≡ none
      → finalize q ev u s
        ≡ some (record s {
          upstream = some (record u {
            cleanup = false;
            resolved_ctx = false;
            peer = pc;
            peer_sockaddr = false;
          });
          pool = kc;
        })
  unfolding finalize give_back close_connection
  finalize-cached ev s u pc kc f a freed lost = rw (f, a, freed) (ground (arith, lost))
