-- ===== src/Socket/Send.antt =====
-- Sending: `ngx_http_php_socket_upstream_send`, `..._send_handler` and `ngx_http_php_socket_send` of
-- src/ngx_http_php_socket.c. `none` is a read through NULL or a loop that the fuel does not end.
use ngx_php.Prelude.{
  ℕ, zero, suc, true, false, Option, none, some, [], ◌==◌, if◌then◌else◌, length, drop,
}
use ngx_php.Prelude.Codes.{ℤ, pos, negsuc, ◌==ℤ◌, ngx_ok, ngx_error, ngx_again}
use ngx_php.Socket.State.{
  Bytes, ignoring_handler, send_handler, Upstream, Socket, Net, set_upstream, write_timer,
}

module _ {N : Type 0} (net : Net N) where
  -- `for ( ;; )`: the last answer of `c->send`, the bytes that are left, and nginx's state.
  unfoldable pub send_rounds : ℕ → ℕ → N → Bytes → Option (ℤ × Bytes × N)
  send_rounds zero c w b = none
  send_rounds (suc fuel) c w b =
      let (n, w') = net.c_send w c b in
      elim n [
        | negsuc k ↦ some (negsuc k, b, w')
        | pos k ↦
            let rest = send_rounds fuel c w' (drop k b) in
            if k == length b then some (pos k, [], w') else rest
      ]

module _ {L N : Type 0} (net : Net N) where
  -- Behind the loop when all is sent.
  unfoldable pub sent_all : ℕ → Upstream → Socket L N → ℤ × Socket L N
  sent_all c u s = (
    if net.handle_write_event_succeeds then ngx_ok else ngx_error,
    set_upstream (record u { request_bufs = none; write_event_handler = ignoring_handler })
        (write_timer c false s),
  )

  -- Behind the loop when `c->send` cannot take more now.
  unfoldable pub send_later : ℕ → Upstream → Socket L N → ℤ × Socket L N
  send_later c u s = (
    if net.handle_write_event_succeeds then ngx_again else ngx_error,
    write_timer c true (
        set_upstream (record u { write_event_handler = send_handler })
          (record s { phase_status = ngx_again })),
  )

  unfoldable pub behind_rounds : ℕ → Upstream → Socket L N → ℤ × Bytes × N → ℤ × Socket L N
  unfolding sent_all send_later
  behind_rounds c u s (pos k, rest, w) = sent_all c u (record s { wire = w })
  behind_rounds c u s (negsuc k, rest, w) =
      let u' = record u { request_bufs = some rest } in
      let s' = record s { wire = w; upstream = some u' } in
      if negsuc k ==ℤ ngx_error then (ngx_error, s') else send_later c u' s'

  unfoldable pub upstream_send : ℕ → ℕ → Upstream → Socket L N → Option (ℤ × Socket L N)
  unfolding send_rounds behind_rounds
  upstream_send fuel c u s =
      if s.slot
      then elim u.request_bufs [
        | none ↦ none
        | some b ↦ elim (send_rounds net fuel c s.wire b) [
          | none ↦ none
          | some r ↦ some (behind_rounds c u s r)
        ]
      ]
      else some (ngx_error, s)

  -- `ngx_http_php_socket_send_handler`
  unfoldable pub on_writable : ℕ → ℕ → Upstream → Socket L N → Option (Socket L N)
  unfolding upstream_send
  on_writable fuel c u s = if net.write_timedout s.wire c then some s else elim u.request_bufs [
    | none ↦ some s
    | some b ↦ elim (upstream_send fuel c u s) [ none ↦ none | some (rc, s') ↦ some s' ]
  ]

  unfoldable pub socket_send : ℕ → Socket L N → Option (ℤ × Socket L N)
  unfolding upstream_send
  socket_send fuel s =
      if s.slot
      then elim s.upstream [
        | none ↦ some (ngx_error, s)
        | some u0 ↦ elim u0.peer.connection [
          | none ↦ some (ngx_error, s)
          | some c ↦
              let u = record u0 { enabled_receive = false } in
              if u0.request == s.id
              then upstream_send fuel c u (set_upstream u s)
              else some (ngx_error, set_upstream u s)
        ]
      ]
      else none
