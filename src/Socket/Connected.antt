-- ===== src/Socket/Connected.antt =====
-- What `ngx_http_php_socket_connect` of src/ngx_http_php_socket.c has done when it answers.
use ngx_php.Prelude.{
  ℕ, ◌≡◌, refl, sym, ap, subst, ◌∙◌, ◌⊎◌, inl, inr, true, false, Option, some, arith, Bool-cases,
  Option-cases,
}
use ngx_php.Prelude.Codes.{ℤ, ngx_error}
use ngx_php.Keepalive.Queue.{NgxQueue, QueueLaws}
use ngx_php.Keepalive.State.{Events, Peer, Pool}
use ngx_php.Keepalive.Peers.{socket_get_peer}
use ngx_php.Keepalive.Hits.{IsHit, socket_get_peer-IsHit}
use ngx_php.Keepalive.Store.{IsFresh}
use ngx_php.Keepalive.Live.{IsSound}
use ngx_php.Socket.State.{Bytes, Upstream, Socket, Net, set_upstream}
use ngx_php.Socket.Connect.{
  Dial, zeroed_upstream, has_failed, resolve_retval_handler, resolve, made_ready, obtained,
  socket_connect,
}
use ngx_php.Socket.Joined.{IsConnect, Connects, Replies, dialled-Replies}

module _ (q : NgxQueue) {N : Type 0} (dial : Dial q.Links) (net : Net N) where
  -- What `ngx_event_connect_peer` makes of the cache's answer.
  connect_peer-opens :
      (rc rc' : ℤ) (pc pc' : Peer) (kc kc' : Pool q.Links)
      → IsSound q kc
      → IsHit q rc pc kc
      → IsConnect q (rc, pc, kc) (rc', pc', kc')
      → IsSound q kc'
        × ((has_failed rc' ≡ true) ⊎ ((c : ℕ) × (pc'.connection ≡ some c) × IsFresh q kc' c))
  connect_peer-opens rc rc' pc pc' kc kc' sound (inl ok) (inl (ne, _, _, _)) = absurd (ne ok)
  connect_peer-opens rc rc' pc pc' kc kc' sound (inr (_, (c, given, fresh)))
        (inl (_, _, same, pool)) =
      (
        subst (IsSound q) (sym pool) sound,
        inr (c, ap (λ p. p.connection) same ∙ given, subst (λ k. IsFresh q k c) (sym pool) fresh),
      )
  connect_peer-opens rc rc' pc pc' kc kc' sound hit (inr (inl (_, fails, pool))) =
      (subst (IsSound q) (sym pool) sound, inl fails)
  connect_peer-opens rc rc' pc pc' kc kc' sound hit (inr (inr (_, pool, _, (c, given, fresh)))) = (
    subst (IsSound q) (sym pool) sound,
    inr (c, given, subst (λ k. IsFresh q k c) (sym pool) fresh),
  )

  pub resolve_retval-Replies :
      (laws : QueueLaws q) (conn : Connects q dial) (ev : Events) (a : Bytes × ℕ) (u : Upstream)
      (s : Socket q.Links N)
      → s.slot ≡ true
      → IsSound q s.pool
      → Replies q dial net (resolve_retval_handler q dial net ev a u s)
  unfolding resolve_retval_handler
  resolve_retval-Replies laws conn ev (sockaddr, socklen) u0 s slot sound =
      let u = record u0 {
        peer = record (u0.peer) { sockaddr = sockaddr; socklen = socklen };
        peer_sockaddr = true;
        peer_free = true;
      } in
      let (rc, pc, kc, asked, sound', hit) = socket_get_peer-IsHit q laws ev u.peer s.pool sound in
      let ((rc', pc', kc'), run, isc) =
        conn.connects (socket_get_peer q ev) u.peer s.pool (rc, pc, kc) asked in
      let (sound'', opens) = connect_peer-opens rc rc' pc pc' kc kc' sound' hit isc in
      rw run (dialled-Replies q dial net u s rc' pc' kc' slot refl refl sound'' opens)

  Replies-same :
      (o o' : Option (ℤ × Socket q.Links N)) → o ≡ o' → Replies q dial net o' → Replies q dial net o
  Replies-same o o' same (rc, s, e, a) = (rc, s, same ∙ e, a)

  pub resolve-address :
      (ev : Events) (a : Bytes × ℕ) (u : Upstream) (s : Socket q.Links N)
      → dial.pcalloc_resolved_succeeds ≡ true
      → let u' = record u { resolved_ctx = false } in
        resolve q dial net ev (some a) u s
        ≡ resolve_retval_handler q dial net ev a u' (set_upstream u' s)
  unfolding resolve
  resolve-address ev a u s h = ground (arith, h)

  resolve-refused :
      (ev : Events) (a : Option (Bytes × ℕ)) (u : Upstream) (s : Socket q.Links N)
      → dial.pcalloc_resolved_succeeds ≡ false
      → resolve q dial net ev a u s
        ≡ some (ngx_error, set_upstream (record u { resolved_ctx = false }) s)
  unfolding resolve
  resolve-refused ev a u s h = ground (arith, h)

  resolve-Replies :
      (laws : QueueLaws q) (conn : Connects q dial) (ev : Events) (a : Bytes × ℕ) (u : Upstream)
      (s : Socket q.Links N)
      → s.slot ≡ true
      → IsSound q s.pool
      → Replies q dial net (resolve q dial net ev (some a) u s)
  resolve-Replies laws conn ev a u s slot sound =
      let u' = record u { resolved_ctx = false } in
      elim (Bool-cases dial.pcalloc_resolved_succeeds) [
        | inr fails ↦
            (ngx_error, set_upstream u' s, resolve-refused ev (some a) u s fails, inl (refl, sound))
        | inl found ↦
            Replies-same _ _ (resolve-address ev a u s found)
              (resolve_retval-Replies laws conn ev a u' (set_upstream u' s) slot sound)
      ]

  pub connect-resolve :
      (ev : Events) (host : Bytes) (a : Bytes × ℕ) (u : Upstream) (s : Socket q.Links N)
      → s.slot ≡ true
      → obtained q dial net s.upstream ≡ some u
      → dial.parse_url host ≡ some (some a)
      → let u' = made_ready q dial net s u in
        socket_connect q dial net ev host s
        ≡ resolve q dial net ev
            (some a)
            u'
            (set_upstream u' (record s { client_read_timer_set = false }))
  unfolding socket_connect
  connect-resolve ev host a u s slot got parsed = ground (arith, slot, got, parsed)

  -- With queues that obey nginx's laws and an `ngx_event_connect_peer` that asks `peer->get` first
  -- and, if that answers NGX_OK, fails or opens a connection that is not cached: for a request with
  -- a context, where memory for the socket is found, on a sound pool and for a host that is an
  -- address, the connect returns and leaves the pool sound, and it answers NGX_ERROR; or NGX_OK with
  -- phase status NGX_OK and events that are ignored; or NGX_AGAIN with phase status NGX_AGAIN and a
  -- write event that waits for the connection. In the last two the socket is in use, with an address
  -- and a `free` to give it back: it has a connection, open and no longer in the cache, with a pool
  -- of its own, whose events go to the socket, which knows its request.
  pub socket_connect-Replies :
      (laws : QueueLaws q) (conn : Connects q dial) (ev : Events) (host : Bytes) (a : Bytes × ℕ)
      (s : Socket q.Links N)
      → s.slot ≡ true
      → dial.pcalloc_upstream_succeeds ≡ true
      → dial.parse_url host ≡ some (some a)
      → IsSound q s.pool
      → Replies q dial net (socket_connect q dial net ev host s)
  socket_connect-Replies laws conn ev host a s slot found parsed sound =
      let go = λ (u : Upstream) (got : obtained q dial net s.upstream ≡ some u).
        Replies-same _ _ (connect-resolve ev host a u s slot got parsed) (
          resolve-Replies laws conn ev a (made_ready q dial net s u)
            (set_upstream (made_ready q dial net s u) (record s { client_read_timer_set = false }))
            slot sound) in
      elim (Option-cases s.upstream) [
        | inl none_yet ↦ go zeroed_upstream (ground (arith, none_yet, found))
        | inr (u, has) ↦ go u (ground (arith, has))
      ]
