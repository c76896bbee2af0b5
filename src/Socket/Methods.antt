-- ===== src/Socket/Methods.antt =====
-- The methods of the class `ngx_socket` (src/php/impl/php_ngx_socket.c) but `recv`, and the functions
-- on sleeping of src/php/impl/php_ngx_core.c. `none` is a read through NULL or a loop that the fuel does
-- not end.
use ngx_php.Prelude.{
  ℕ, ◌*◌, ◌%◌, ◌^◌, ◌≡◌, true, Option, none, some, arith, if◌then◌else◌, inl, inr, Option-cases,
}
use ngx_php.Prelude.Codes.{ℤ, pos}
use ngx_php.Keepalive.Queue.{NgxQueue}
use ngx_php.Keepalive.State.{Events}
use ngx_php.Headers.State.{Zval, is_null}
use ngx_php.Socket.State.{Bytes, Socket, Net}
use ngx_php.Socket.Connect.{Dial, socket_connect}
use ngx_php.Socket.Events.{ngx_socket_send}
use ngx_php.Socket.Finish.{socket_close}
use ngx_php.Socket.Sleep.{sleep}
use ngx_php.Socket.Functions.{
  PhpSocket, af_inet, as_size, ngx_socket_connect, ngx_socket_close, socket_send_function,
}

module _ (q : NgxQueue) {N : Type 0} where
  -- The result is dropped, and PHP gets NULL.
  abbrev pub dropping : Option (ℤ × Socket q.Links N) → Option (Zval × Socket q.Links N)
  dropping none = none
  dropping (some (rc, s)) = some (is_null, s)

  abbrev pub closing : Option (Socket q.Links N) → Option (Zval × Socket q.Links N)
  closing none = none
  closing (some s) = some (is_null, s)

  -- `ngx_socket::connect`
  unfoldable pub connect_method :
      (ℕ → Dial q.Links)
      → Net N
      → Events
      → Bytes
      → ℕ
      → Socket q.Links N
      → Option (Zval × Socket q.Links N)
  connect_method dial net ev host port s =
      if s.slot then dropping (socket_connect q (dial port) net ev host s) else none

  -- `ngx_socket::send`
  unfoldable pub send_method :
      Net N → ℕ → Bytes → Socket q.Links N → Option (Zval × Socket q.Links N)
  send_method net fuel buf s = if s.slot then dropping (ngx_socket_send net fuel buf s) else none

  -- `ngx_socket::close`
  unfoldable pub close_method : Net N → Events → Socket q.Links N → Option (Zval × Socket q.Links N)
  close_method net ev s = closing (socket_close q ev net s)

  -- `ctx->delay_time = delay; ngx_http_php_sleep(r)`
  abbrev pub sleep_for : Net N → ℕ → Socket q.Links N → Option (Zval × Socket q.Links N)
  sleep_for net delay s =
      if s.slot then some (is_null, (sleep net (record s { delay_time = delay })).1) else none

  unfoldable pub ngx_sleep : Net N → ℤ → Socket q.Links N → Option (Zval × Socket q.Links N)
  ngx_sleep net time s = sleep_for net (as_size time * 1000 % 2 ^ 64) s

  unfoldable pub ngx_msleep : Net N → ℤ → Socket q.Links N → Option (Zval × Socket q.Links N)
  ngx_msleep net time s = sleep_for net (as_size time) s

  -- `ngx::sleep`
  unfoldable pub sleep_method : Net N → ℤ → Socket q.Links N → Option (Zval × Socket q.Links N)
  sleep_method net time s = sleep_for net (as_size time * 1000 % 2 ^ 64) s

  -- The request that a call leaves.
  abbrev pub left : Option (Zval × Socket q.Links N) → Option (Socket q.Links N)
  left none = none
  left (some (v, s)) = some s

  module _ (dial : ℕ → Dial q.Links) (net : Net N) (ev : Events) where
    connect-agrees :
        (sock : PhpSocket) (host : Bytes) (port : ℕ) (s : Socket q.Links N)
        → s.slot ≡ true
        → sock.type ≡ af_inet
        → left (connect_method dial net ev host port s)
          ≡ left (ngx_socket_connect q dial net ev (some sock) host port s)
    unfolding connect_method ngx_socket_connect
    connect-agrees sock host port s slot inet =
        elim (Option-cases (socket_connect q (dial port) net ev host s)) [
          | inl h ↦ ground (arith, slot, inet, h)
          | inr (p, h) ↦ ground (arith, slot, inet, h)
        ]

    send-agrees :
        (fuel len : ℕ) (b : Bytes) (s : Socket q.Links N)
        → s.slot ≡ true
        → left (send_method net fuel b s) ≡ left (socket_send_function q net fuel b (pos len) s)
    unfolding send_method socket_send_function
    send-agrees fuel len b s slot = elim (Option-cases (ngx_socket_send net fuel b s)) [
      | inl h ↦ ground (arith, slot, h)
      | inr (p, h) ↦ ground (arith, slot, h)
    ]

    close-agrees :
        (s : Socket q.Links N)
        → s.slot ≡ true
        → left (close_method net ev s) ≡ left (ngx_socket_close q net ev s)
    unfolding close_method ngx_socket_close
    close-agrees s slot = elim (Option-cases (socket_close q ev net s)) [
      | inl h ↦ ground (arith, slot, h)
      | inr (p, h) ↦ ground (arith, slot, h)
    ]

    -- For a request with a context and a socket of the family AF_INET, the methods `connect`, `send`
    -- and `close` of the class `ngx_socket` leave the request that the functions leave, whatever
    -- length the function `ngx_socket_send` is given, and fail where those fail.
    pub methods-agree :
        (sock : PhpSocket) (host b : Bytes) (port fuel len : ℕ) (s : Socket q.Links N)
        → s.slot ≡ true
        → sock.type ≡ af_inet
        → (left (connect_method dial net ev host port s)
            ≡ left (ngx_socket_connect q dial net ev (some sock) host port s))
          × (left (send_method net fuel b s) ≡ left (socket_send_function q net fuel b (pos len) s))
          × (left (close_method net ev s) ≡ left (ngx_socket_close q net ev s))
    methods-agree sock host b port fuel len s slot inet = (
      connect-agrees sock host port s slot inet,
      send-agrees fuel len b s slot,
      close-agrees s slot,
    )
