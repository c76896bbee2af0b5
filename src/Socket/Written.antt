-- ===== src/Socket/Written.antt =====
-- A send of PHP and the write events behind it: what `ngx_socket_send` of
-- src/php/impl/php_ngx_sockets.c and the events of src/ngx_http_php_socket.c deliver.
use ngx_php.Prelude.{
  ℕ, zero, suc, ◌<◌, ◌≡◌, refl, ◌∙◌, true, false, Option, none, some, ◌++◌, arith, length,
  length-append,
}
use ngx_php.Prelude.Codes.{ℤ}
use ngx_php.Socket.State.{Bytes, Upstream, Socket, Net, set_upstream}
use ngx_php.Socket.Send.{upstream_send, socket_send}
use ngx_php.Socket.Delivery.{Carries, Advances}
use ngx_php.Socket.Events.{on_event, ngx_socket_send}
use ngx_php.Socket.Sent.{pending, Says, Waits, Sending, upstream_send-Sending, on_event-Sending}

-- `n` write events, one behind the other, while PHP waits.
abbrev pub write_events : {L N : Type 0} → Net N → ℕ → ℕ → Socket L N → Option (Socket L N)
write_events net fuel zero s = some s
write_events net fuel (suc n) s = elim (on_event net fuel true s) [
  | none ↦ none
  | some s' ↦ write_events net fuel n s'
]

module _ {L N : Type 0} (net : Net N) (delivered : N → ℕ → Bytes) (carries : Carries net delivered)
    (adv : Advances net) where
  write_events-Sending :
      (fuel n c : ℕ) (total : Bytes) (s : Socket L N)
      → Sending net delivered total c s
      → length total < fuel
      → (s' : Socket L N) × (write_events net fuel n s ≡ some s') × Sending net delivered total c s'
  write_events-Sending fuel zero c total s sending enough = (s, refl, sending)
  write_events-Sending fuel (suc n) c total s sending enough =
      let (s1, one, sending1) =
        on_event-Sending net delivered total c carries adv fuel s sending enough in
      let (s', more, done) = write_events-Sending fuel n c total s1 sending1 enough in
      (s', ground (arith, one, more), done)

  socket_send-upstream :
      (fuel c : ℕ) (b : Bytes) (u : Upstream) (s : Socket L N)
      → s.slot ≡ true
      → s.upstream ≡ some u
      → u.peer.connection ≡ some c
      → u.request ≡ s.id
      → let u' = record u { request_bufs = some b; enabled_receive = false } in
        ngx_socket_send net fuel b s ≡ upstream_send net fuel c u' (set_upstream u' s)
  unfolding ngx_socket_send socket_send
  socket_send-upstream fuel c b u s slot up given own = rw up (ground (arith, slot, given, own))

  -- Where `c->send` takes a prefix of the bytes it is given, at least one unless it refuses, and with
  -- fuel for more rounds than there are bytes delivered before and given now: for a request with a
  -- context and a socket of its own whose write events are ignored or go on sending, a send of `b`
  -- returns; NGX_OK means that no byte waits and the write timer is off, NGX_AGAIN that the phase
  -- waits and the write timer is set, and any other answer is NGX_ERROR. Behind it and behind any
  -- number of write events, timed out or not, while PHP waits, what connection `c` has got since
  -- then, followed by what still waits, is exactly `b`.
  pub ngx_socket_send-delivers :
      (fuel n c : ℕ) (b : Bytes) (u : Upstream) (s : Socket L N)
      → s.slot ≡ true
      → s.upstream ≡ some u
      → u.request ≡ s.id
      → Waits c u
      → length (delivered s.wire c ++ b) < fuel
      → (rc : ℤ) × (s' s'' : Socket L N) × (ngx_socket_send net fuel b s ≡ some (rc, s'))
        × Says c rc s'
        × (write_events net fuel n s' ≡ some s'')
        × (delivered s''.wire c ++ pending s'' ≡ delivered s.wire c ++ b)
  ngx_socket_send-delivers fuel n c b u s slot up own (given, h) enough =
      let u' = record u { request_bufs = some b; enabled_receive = false } in
      let (rc, s', run, says, sending) =
        upstream_send-Sending net delivered (delivered s.wire c ++ b) c carries adv fuel u'
          (set_upstream u' s) b slot refl (given, h) refl
          (omega (arith, length-append (delivered s.wire c) b, enough)) in
      let (s'', later, (_, all, _)) =
        write_events-Sending fuel n c (delivered s.wire c ++ b) s' sending enough in
      (rc, s', s'', socket_send-upstream fuel c b u s slot up given own ∙ run, says, later, all)
