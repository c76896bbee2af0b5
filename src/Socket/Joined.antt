-- ===== src/Socket/Joined.antt =====
-- A connection that `ngx_event_connect_peer` gave, as src/ngx_http_php_socket.c sets it up.
use ngx_php.Prelude.{ℕ, ◌≡◌, refl, ◌≢◌, ◌⊎◌, inl, inr, true, Option, some, arith, Bool-cases, ◌||◌}
use ngx_php.Prelude.Codes.{ℤ, ◌==ℤ◌, ngx_ok, ngx_error, ngx_again}
use ngx_php.Keepalive.Queue.{NgxQueue}
use ngx_php.Keepalive.State.{Peer, Pool, put}
use ngx_php.Keepalive.Live.{IsSound}
use ngx_php.Keepalive.Store.{IsFresh}
use ngx_php.Keepalive.Hits.{Touches, Touches-IsFresh, Touches-IsSound}
use ngx_php.Socket.State.{
  connected_handler, ignoring_handler, Upstream, Socket, Net, set_upstream, set_conn,
}
use ngx_php.Socket.Connect.{
  Dial, socket_handler_pt, adopted, with_log, has_failed, handlers_ignore, connected, set_up,
  dialled,
}
use ngx_php.Socket.Dispose.{InUse}

-- What a socket is behind an answer of NGX_OK, and behind one of NGX_AGAIN.
abbrev pub Joined : {L N : Type 0} → ℤ → Socket L N → Upstream → ℕ → Type 0
Joined rc s u c =
    InUse s u c
    × (s.has_pool c ≡ true)
    × ((s.pool.conns c).read_handler ≡ socket_handler_pt)
    × ((s.pool.conns c).write_handler ≡ socket_handler_pt)
    × (u.request ≡ s.id)
    × (((rc ≡ ngx_ok) × (s.phase_status ≡ ngx_ok) × (u.write_event_handler ≡ ignoring_handler))
        ⊎ ((rc ≡ ngx_again)
            × (s.phase_status ≡ ngx_again)
            × (u.write_event_handler ≡ connected_handler)))

-- The answer is NGX_ERROR, or the socket has joined connection `c`.
abbrev pub Answered : {L N : Type 0} → ℕ → ℤ × Socket L N → Type 0
Answered c (rc, s) = (rc ≡ ngx_error) ⊎ ((u : Upstream) × Joined rc s u c)

-- `ngx_event_connect_peer` asks `peer->get` first. An answer other than NGX_OK is its own;
-- otherwise it fails, or it opens a connection, which no cached item holds, and answers NGX_OK or
-- NGX_AGAIN; the pool it leaves alone.
abbrev pub IsConnect : (q : NgxQueue) → ℤ × Peer × Pool q.Links → ℤ × Peer × Pool q.Links → Type 0
IsConnect q (rc, pc, kc) (rc', pc', kc') =
    ((rc ≢ ngx_ok) × (rc' ≡ rc) × (pc' ≡ pc) × (kc' ≡ kc))
    ⊎ (((rc ≡ ngx_ok) × (has_failed rc' ≡ true) × (kc' ≡ kc))
        ⊎ ((rc ≡ ngx_ok)
            × (kc' ≡ kc)
            × ((rc' ≡ ngx_ok) ⊎ (rc' ≡ ngx_again))
            × ((c : ℕ) × (pc'.connection ≡ some c) × IsFresh q kc c)))

pub record Connects (q : NgxQueue) (dial : Dial q.Links) : Type 0 where
  pub connects :
      (get : Peer → Pool q.Links → Option (ℤ × Peer × Pool q.Links)) (pc : Peer) (kc : Pool q.Links)
      (a : ℤ × Peer × Pool q.Links)
      → get pc kc ≡ some a
      → (b : ℤ × Peer × Pool q.Links) × (dial.connect_peer get pc kc ≡ some b) × IsConnect q a b

module _ (q : NgxQueue) {N : Type 0} (dial : Dial q.Links) (net : Net N) where
  connected-Answered :
      (rc : ℤ) (c : ℕ) (u : Upstream) (s : Socket q.Links N)
      → InUse s u c
      → s.has_pool c ≡ true
      → (s.pool.conns c).read_handler ≡ socket_handler_pt
      → (s.pool.conns c).write_handler ≡ socket_handler_pt
      → u.request ≡ s.id
      → u.write_event_handler ≡ connected_handler
      → Answered c (connected q dial net rc c u s)
  unfolding connected
  connected-Answered rc c u s held p r w own e = elim (Bool-cases (rc ==ℤ ngx_ok)) [
    | inl joined ↦ elim (Bool-cases net.handle_write_event_succeeds) [
      | inr fails ↦ rw (joined, fails) (inl refl)
      | inl writes ↦ elim (Bool-cases net.handle_read_event_succeeds) [
        | inr fails ↦ rw (joined, writes, fails) (inl refl)
        | inl reads ↦
            rw (joined, writes, reads)
              (inr (
                handlers_ignore q dial net u,
                (
                  record {
                    slot = held.slot;
                    upstream = refl;
                    connection = held.connection;
                    peer_free = held.peer_free;
                    peer_sockaddr = held.peer_sockaddr;
                  },
                  p,
                  r,
                  w,
                  own,
                  inl (refl, refl, refl),
                ),
              ))
      ]
    ]
    | inr waits ↦ rw waits (
        inr (
          u,
          (
            record {
              slot = ground (arith, held.slot);
              upstream = ground (arith, held.upstream);
              connection = held.connection;
              peer_free = held.peer_free;
              peer_sockaddr = held.peer_sockaddr;
            },
            ground (arith, p),
            ground (arith, r),
            ground (arith, w),
            ground (arith, own),
            inr (refl, ground arith, e),
          ),
        ))
  ]

  set_up-Answered :
      (rc : ℤ) (c : ℕ) (u : Upstream) (s : Socket q.Links N)
      → s.slot ≡ true
      → u.peer.connection ≡ some c
      → u.peer_free ≡ true
      → u.peer_sockaddr ≡ true
      → Answered c (set_up q dial net rc c u s)
  unfolding set_up
  set_up-Answered rc c u0 s0 slot given f a =
      let u = record u0 {
        request = s0.id;
        read_event_handler = connected_handler;
        write_event_handler = connected_handler;
      } in
      let s = set_upstream u (set_conn c (adopted (s0.pool.conns c)) s0) in
      elim (Bool-cases (s0.has_pool c || dial.create_pool_succeeds)) [
        | inr fails ↦ rw fails (inl refl)
        | inl pooled ↦ rw pooled (
            connected-Answered rc c u
              (record (set_conn c (with_log dial.log (s.pool.conns c)) s) {
                has_pool = put s.has_pool c true;
              })
              (record {
                slot = slot;
                upstream = refl;
                connection = given;
                peer_free = f;
                peer_sockaddr = a;
              })
              (ground arith) (ground arith) (ground arith) refl refl)
      ]

  -- The pool is sound, and the connection is open and in no cached item.
  abbrev pub Owns : ℕ → Socket q.Links N → Type 0
  Owns c s = IsSound q s.pool × IsFresh q s.pool c

  set_up-Touches :
      (rc : ℤ) (c : ℕ) (u : Upstream) (s : Socket q.Links N)
      → Touches c s.pool (set_up q dial net rc c u s).1.pool
  unfolding set_up connected
  set_up-Touches rc c u s = record {
    max = ground arith;
    links = ground arith;
    items = ground arith;
    closed = ground arith;
    conns = λ d ne. ground (arith, ne);
  }

  set_up-Owns :
      (rc : ℤ) (c : ℕ) (u : Upstream) (s : Socket q.Links N)
      → Owns c s
      → Owns c (set_up q dial net rc c u s).1
  set_up-Owns rc c u s (sound, fresh) =
      let t = set_up-Touches rc c u s in
      (
        Touches-IsSound q c s.pool (set_up q dial net rc c u s).1.pool t fresh sound,
        Touches-IsFresh q c s.pool (set_up q dial net rc c u s).1.pool t fresh,
      )

  -- A reply that is there: an error with a sound pool, or a joined connection that is the client's.
  abbrev pub Replies : Option (ℤ × Socket q.Links N) → Type 0
  Replies o =
      (rc : ℤ) × (s : Socket q.Links N) × (o ≡ some (rc, s))
      × (((rc ≡ ngx_error) × IsSound q s.pool)
          ⊎ ((u : Upstream) × (c : ℕ) × Joined rc s u c × Owns c s))

  replied :
      (c : ℕ) (rc : ℤ) (s : Socket q.Links N)
      → Answered c (rc, s)
      → Owns c s
      → ((rc ≡ ngx_error) × IsSound q s.pool)
        ⊎ ((u : Upstream) × (c : ℕ) × Joined rc s u c × Owns c s)
  replied c rc s (inl error) (sound, fresh) = inl (error, sound)
  replied c rc s (inr (u, joined)) owns = inr (u, c, joined, owns)

  pub dialled-Replies :
      (u : Upstream) (s : Socket q.Links N) (rc : ℤ) (pc : Peer) (kc : Pool q.Links)
      → s.slot ≡ true
      → u.peer_free ≡ true
      → u.peer_sockaddr ≡ true
      → IsSound q kc
      → (has_failed rc ≡ true) ⊎ ((c : ℕ) × (pc.connection ≡ some c) × IsFresh q kc c)
      → Replies (dialled q dial net u s (some (rc, pc, kc)))
  unfolding dialled
  dialled-Replies u s rc pc kc slot f a sound opened = elim (Bool-cases (has_failed rc)) [
    | inl fails ↦ (
      ngx_error,
      record s { pool = kc; upstream = some (record u { peer = pc }) },
      rw fails refl,
      inl (refl, sound),
    )
    | inr goes ↦ elim opened [
      | inl fails ↦ absurd (ground (arith, goes, fails))
      | inr (c, given, fresh) ↦
          let s' = record s { pool = kc; upstream = some (record u { peer = pc }) } in
          let u' = record u { peer = pc } in
          (
            _,
            _,
            rw goes (ground (arith, given)),
            replied c _ _ (set_up-Answered rc c u' s' slot given f a)
                (set_up-Owns rc c u' s' (sound, fresh)),
          )
    ]
  ]
