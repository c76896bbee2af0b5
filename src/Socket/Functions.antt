-- ===== src/Socket/Functions.antt =====
-- The functions of src/php/impl/php_ngx_sockets.c, by which PHP code uses a socket, with their
-- arguments as PHP has read them. `none` is a read through NULL or a loop that the fuel does not end.
use ngx_php.Prelude.{ℕ, suc, ◌-◌, ◌^◌, true, Option, none, some, if◌then◌else◌}
use ngx_php.Prelude.Codes.{ℤ, pos, negsuc, ◌==ℤ◌}
use ngx_php.Keepalive.Queue.{NgxQueue}
use ngx_php.Keepalive.State.{Events}
use ngx_php.Headers.State.{Zval, is_false, is_true, is_long}
use ngx_php.Socket.State.{Bytes, Upstream, Socket, Net, set_upstream}
use ngx_php.Socket.Connect.{Dial, socket_connect}
use ngx_php.Socket.Recv.{socket_recv, socket_recv_wait, socket_recv_sync}
use ngx_php.Socket.Events.{ngx_socket_send}
use ngx_php.Socket.Finish.{socket_clear, socket_close}

-- `php_ngx_socket_t`, PHP's resource for a socket.
pub record PhpSocket : Type 0 where
  pub type : ℤ
  pub error : ℤ

abbrev pub af_inet : ℤ
af_inet = pos 2

-- `php_ngx_socket_create`
unfoldable pub created : PhpSocket
created = record { type = pos 0; error = pos 0 }

-- `ngx_socket_create` with its first argument, if PHP code gives one.
unfoldable pub socket_create : Option ℤ → PhpSocket
unfolding created
socket_create none = record created { type = af_inet }
socket_create (some domain) = record created { type = domain }

-- A `zend_long` as a `size_t` or an `ngx_msec_t`.
abbrev pub as_size : ℤ → ℕ
as_size (pos n) = n
as_size (negsuc n) = 2 ^ 64 - suc n

module _ (q : NgxQueue) {N : Type 0} where
  -- `if ( !ctx ) { RETURN_FALSE; }`
  abbrev pub with_ctx :
      Option (Zval × Socket q.Links N) → Socket q.Links N → Option (Zval × Socket q.Links N)
  with_ctx go s = if s.slot then go else some (is_false, s)

  -- `RETURN_LONG(retval)`
  abbrev pub return_long : Option (ℤ × Socket q.Links N) → Option (Zval × Socket q.Links N)
  return_long none = none
  return_long (some (rc, s)) = some (is_long rc, s)

  -- `RETURN_TRUE`
  abbrev pub return_true : Option (Socket q.Links N) → Option (Zval × Socket q.Links N)
  return_true none = none
  return_true (some s) = some (is_true, s)

  unfoldable pub ngx_socket_iskeepalive : Socket q.Links N → Option Zval
  ngx_socket_iskeepalive s =
      if s.slot
      then elim s.upstream [
        | none ↦ none
        | some u ↦ some (if u.peer.cached then is_true else is_false)
      ]
      else none

  -- `resource` is what `zend_fetch_resource` gives; `dial port` is nginx for `ctx->port`.
  unfoldable pub ngx_socket_connect :
      (ℕ → Dial q.Links)
      → Net N
      → Events
      → Option PhpSocket
      → Bytes
      → ℕ
      → Socket q.Links N
      → Option (Zval × Socket q.Links N)
  ngx_socket_connect dial net ev none addr port s = some (is_false, s)
  ngx_socket_connect dial net ev (some sock) addr port s =
      with_ctx
        (if sock.type ==ℤ af_inet
          then elim (socket_connect q (dial port) net ev addr s) [
            | none ↦ none
            | some (rc, s') ↦ some (is_true, s')
          ]
          else some (is_false, s))
        s

  unfoldable pub ngx_socket_close :
      Net N → Events → Socket q.Links N → Option (Zval × Socket q.Links N)
  ngx_socket_close net ev s = with_ctx (return_true (socket_close q ev net s)) s

  unfoldable pub socket_send_function :
      Net N → ℕ → Bytes → ℤ → Socket q.Links N → Option (Zval × Socket q.Links N)
  socket_send_function net fuel buf (negsuc len) s = some (is_false, s)
  socket_send_function net fuel buf (pos len) s =
      with_ctx (return_long (ngx_socket_send net fuel buf s)) s

  -- `u->buffer_size = len; ctx->recv_buf = buf; zval_ptr_dtor(ctx->recv_buf)`: the old value of PHP's
  -- variable is freed.
  abbrev pub into : ℕ → Upstream → Socket q.Links N → Socket q.Links N
  into size u s = record (set_upstream (record u { buffer_size = size }) s) { recv_buf = none }

  -- A read of PHP's, by one of the three functions.
  abbrev pub receive :
      (Socket q.Links N → Option (ℤ × Socket q.Links N))
      → ℤ
      → Socket q.Links N
      → Option (Zval × Socket q.Links N)
  receive recv len s =
      with_ctx
        (elim s.upstream [ none ↦ none | some u ↦ return_long (recv (into (as_size len) u s)) ]) s

  unfoldable pub ngx_socket_recv : Net N → ℤ → Socket q.Links N → Option (Zval × Socket q.Links N)
  ngx_socket_recv net len s = receive (socket_recv net) len s

  unfoldable pub ngx_socket_recvwait :
      Net N → ℤ → Socket q.Links N → Option (Zval × Socket q.Links N)
  ngx_socket_recvwait net len s = receive (socket_recv_wait net) len s

  unfoldable pub ngx_socket_recvsync :
      Net N → ℤ → Socket q.Links N → Option (Zval × Socket q.Links N)
  ngx_socket_recvsync net len s = receive (socket_recv_sync net) len s

  -- `buffer_size` is the location's; `rc` is PHP's variable for the code.
  unfoldable pub ngx_socket_recvpage :
      Net N → ℕ → ℤ → Socket q.Links N → Option (Zval × Socket q.Links N)
  ngx_socket_recvpage net buffer_size rc s =
      with_ctx
        (elim s.upstream [
          | none ↦ none
          | some u ↦ return_long (
              socket_recv net
                (record (into buffer_size (record u { enabled_receive_page = true }) s) {
                  recv_code = some rc;
                }))
        ])
        s

  unfoldable pub ngx_socket_settimeout : ℤ → Socket q.Links N → Option (Zval × Socket q.Links N)
  ngx_socket_settimeout timeout s =
      with_ctx
        (elim s.upstream [
          | none ↦ none
          | some u ↦ some (
            is_true,
            set_upstream
                (record u {
                  connect_timeout = as_size timeout;
                  read_timeout = as_size timeout;
                  write_timeout = as_size timeout;
                })
                s,
          )
        ])
        s

  unfoldable pub ngx_socket_clear : Events → Socket q.Links N → Option (Zval × Socket q.Links N)
  ngx_socket_clear ev s = with_ctx (return_true (socket_clear q ev s)) s
