-- ===== src/Socket/Recv.antt =====
-- Receiving: `ngx_http_php_socket_upstream_recv`, its event handler, and the three ways in which PHP
-- calls it, of src/ngx_http_php_socket.c. `none` is a write through NULL, or a code that `c->recv`
-- does not give.
use ngx_php.Prelude.{
  ℕ, ◌-◌, Bool, true, false, not, ◌&&◌, ◌||◌, Option, none, some, [], ◌++◌, ◌==◌, if◌then◌else◌,
  length,
}
use ngx_php.Prelude.Codes.{ℤ, pos, negsuc, ◌==ℤ◌, ngx_ok, ngx_error, ngx_again}
use ngx_php.Socket.State.{
  Bytes, upstream_recv_handler, Upstream, Socket, Net, set_upstream, read_timer,
}

-- How the body of the loop goes on: out of the loop, out of the function, or into memory that is
-- not the buffer's.
pub data Body (L N : Type 0) : Type 0 where
  broke returned : ℤ → Upstream → Socket L N → Body L N
  wild : Body L N

abbrev pub cleared : Upstream → Upstream
cleared u = record u { buffer = record (u.buffer) { start = false } }

-- `b->last += n; b->start = NULL; ZVAL_STRINGL(recv_buf, b->pos, b->last - b->pos)`
abbrev pub stored : Bytes → Upstream → Upstream
stored got u = record u {
  buffer = record { start = false; text = u.buffer.text ++ got; room = u.buffer.room - length got };
}

-- `if (b->start == NULL)`
abbrev pub with_buffer : Upstream → Upstream
with_buffer u =
    if u.buffer.start
    then u
    else record u { buffer = record { start = true; text = []; room = u.buffer_size } }

module _ {L N : Type 0} (net : Net N) where
  abbrev pub to_php : Bytes → Upstream → Socket L N → Socket L N
  to_php got u s = record s { recv_buf = some (u.buffer.text ++ got) }

  -- What the body makes of the answer of `c->recv`. `page` is the test of the branch for pages,
  -- which takes the same steps but for `recv_code` and for the code behind stored bytes.
  unfoldable pub took : Bool → ℤ → Bytes → Upstream → Socket L N → Body L N
  took page (pos k) got u s =
      if k == 0
      then broke (pos 0) (cleared u) s
      else if page
      then broke (pos k) (stored got u) (to_php got u s)
      else returned ngx_again (stored got u) (to_php got u s)
  took page (negsuc k) got u s =
      if negsuc k ==ℤ ngx_error
      then returned ngx_error u s
      else if negsuc k ==ℤ ngx_again
      then broke ngx_again u s
      else wild

  -- The body of `for ( ;; )`, which is never run a second time.
  unfoldable pub recv_body : ℕ → Upstream → Socket L N → Body L N
  unfolding took
  recv_body c u s =
      if u.buffer.room == 0
      then broke ngx_ok (cleared u) s
      else if net.read_active s.wire c && not (net.read_ready s.wire c)
      then broke ngx_again u s
      else (let (n, got, w) = net.c_recv s.wire c u.buffer.room in
          let page = u.enabled_receive_page && net.read_active w c && not (net.read_ready w c) in
          let code = if page then some n else s.recv_code in
          took page n got u (record s { wire = w; recv_code = code }))

  -- Behind the loop.
  unfoldable pub recv_wait_event : ℕ → ℤ → Upstream → Socket L N → ℤ × Socket L N
  recv_wait_event c n u s0 =
      let s = set_upstream u (record s0 { phase_status = ngx_again }) in
      if net.handle_read_event_succeeds
      then (
        n,
        if net.read_active s.wire c
            then read_timer c true s
            else if (s.pool.conns c).read_timer_set
            then read_timer c false s
            else s,
      )
      else (ngx_error, s)

  unfoldable pub finish_recv : ℕ → Body L N → Option (ℤ × Socket L N)
  finish_recv c wild = none
  finish_recv c (returned n u s) = some (n, set_upstream u s)
  finish_recv c (broke n u s) = some (recv_wait_event c n u s)

  unfoldable pub upstream_recv : ℕ → Upstream → Socket L N → Option (ℤ × Socket L N)
  upstream_recv c u s =
      if u.buffer.start || net.palloc_succeeds
      then finish_recv c (recv_body c (with_buffer u) s)
      else none

  -- `ngx_http_php_socket_upstream_recv_handler`
  unfoldable pub on_readable : ℕ → Upstream → Socket L N → Option (Socket L N)
  unfolding upstream_recv
  on_readable c u0 s0 =
      if net.read_timedout s0.wire c
      then some s0
      else (let u = record u0 { enabled_receive = true } in
          let s1 = set_upstream u s0 in
          let s = if (s1.pool.conns c).read_timer_set then read_timer c false s1 else s1 in
          if u.buffer.start
          then elim (upstream_recv c u s) [ none ↦ none | some (rc, s') ↦ some s' ]
          else some s)

  -- `u->enabled_receive = 1` the first time; later the read event is added, if it is `wanted`. Then
  -- the event's handler is set and the reply given.
  unfoldable pub rearm : Bool → ℤ → Socket L N → Option (ℤ × Socket L N)
  rearm wanted reply s = elim s.upstream [
    | none ↦ none
    | some u ↦
        if u.enabled_receive && wanted && not net.add_event_succeeds
        then some (ngx_error, s)
        else some (
          reply,
          set_upstream
              (record u { enabled_receive = true; read_event_handler = upstream_recv_handler }) s,
        )
  ]

  -- The head of the three functions.
  unfoldable pub own_socket :
      (ℕ → Upstream → Option (ℤ × Socket L N)) → Socket L N → Option (ℤ × Socket L N)
  own_socket go s =
      if s.slot
      then elim s.upstream [
        | none ↦ some (ngx_error, s)
        | some u ↦ elim u.peer.connection [
          | none ↦ some (ngx_error, s)
          | some c ↦ if u.request == s.id then go c u else some (ngx_error, s)
        ]
      ]
      else none

  unfoldable pub socket_recv : Socket L N → Option (ℤ × Socket L N)
  unfolding upstream_recv rearm own_socket
  socket_recv s =
      own_socket
        (λ c u. elim (upstream_recv c u s) [
          | none ↦ none
          | some (rc, s') ↦ rearm (not (net.rev_write s'.wire c)) rc s'
        ])
        s

  unfoldable pub socket_recv_wait : Socket L N → Option (ℤ × Socket L N)
  unfolding upstream_recv rearm own_socket
  socket_recv_wait s =
      own_socket
        (λ c u. elim (upstream_recv c u s) [
          | none ↦ none
          | some (rc, s') ↦ rearm (not u.wait_receive) ngx_ok s'
        ])
        s

  -- The end of `ngx_http_php_socket_recv_sync`.
  unfoldable pub sync_reply : ℤ → Socket L N → Option (ℤ × Socket L N)
  sync_reply rc s =
      if rc ==ℤ ngx_again || (rc ==ℤ ngx_error || rc ==ℤ ngx_ok)
      then some (rc, s)
      else elim s.upstream [
        | none ↦ none
        | some u ↦
            some (ngx_ok, set_upstream (record u { read_event_handler = upstream_recv_handler }) s)
      ]

  unfoldable pub socket_recv_sync : Socket L N → Option (ℤ × Socket L N)
  unfolding upstream_recv sync_reply own_socket
  socket_recv_sync s =
      own_socket
        (λ c u. elim (upstream_recv c u s) [ none ↦ none | some (rc, s') ↦ sync_reply rc s' ]) s
