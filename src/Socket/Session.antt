-- ===== src/Socket/Session.antt =====
-- A connect, the event that ends it, and a send, as PHP code makes them one behind the other.
use ngx_php.Prelude.{
  ℕ, suc, ◌≡◌, refl, sym, subst, ap, ◌∙◌, ◌⊎◌, inl, inr, true, some, arith, ◌++◌, length,
  Bool-cases, ◌<◌,
}
use ngx_php.Prelude.Codes.{ℤ, pos, ngx_error}
use ngx_php.Keepalive.Queue.{NgxQueue, QueueLaws}
use ngx_php.Keepalive.State.{Events}
use ngx_php.Keepalive.Live.{IsSound}
use ngx_php.Headers.State.{is_true, is_long}
use ngx_php.Socket.State.{Bytes, Upstream, Socket, Net, connected_handler}
use ngx_php.Socket.Connect.{Dial, socket_connect}
use ngx_php.Socket.Events.{on_connected, call_handler, on_event}
use ngx_php.Socket.Delivery.{Carries, Advances}
use ngx_php.Socket.Sent.{pending, Says, Waits}
use ngx_php.Socket.Written.{write_events, ngx_socket_send-delivers}
use ngx_php.Socket.Joined.{Joined, Connects}
use ngx_php.Socket.Connected.{socket_connect-Replies}
use ngx_php.Socket.Functions.{PhpSocket, af_inet, ngx_socket_connect, socket_send_function}

module _ {L N : Type 0} (net : Net N) where
  -- A socket that can send: its connection is there, and its write events are ignored.
  abbrev pub CanSend : ℕ → Socket L N → Type 0
  CanSend c s =
      (s.slot ≡ true) × ((u : Upstream) × (s.upstream ≡ some u) × (u.request ≡ s.id) × Waits c u)

  -- The socket behind a connect: at once for NGX_OK, else when the write event has come.
  abbrev pub Opened : ℕ → Socket L N → Socket L N → Type 0
  Opened fuel s s' = (s' ≡ s) ⊎ (on_event net fuel true s ≡ some s')

  on_event-connected :
      (fuel c : ℕ) (u : Upstream) (s : Socket L N)
      → s.upstream ≡ some u
      → u.peer.connection ≡ some c
      → u.write_event_handler ≡ connected_handler
      → on_event net fuel true s ≡ some (on_connected net c u s)
  unfolding on_event call_handler
  on_event-connected fuel c u s up given waits = ground (arith, up, given, waits)

  on_connected-CanSend :
      (c : ℕ) (u : Upstream) (s : Socket L N)
      → s.slot ≡ true
      → u.peer.connection ≡ some c
      → u.request ≡ s.id
      → CanSend c (on_connected net c u s) × ((on_connected net c u s).wire ≡ s.wire)
  unfolding on_connected
  on_connected-CanSend c u s slot given own = elim (Bool-cases (s.pool.conns c).write_timer_set) [
    | inl on ↦ rw on ((slot, (_, refl, own, (given, inl refl))), refl)
    | inr off ↦ rw off ((slot, (_, refl, own, (given, inl refl))), refl)
  ]

  Joined-opens :
      (fuel c : ℕ) (rc : ℤ) (u : Upstream) (s : Socket L N)
      → Joined rc s u c
      → (s' : Socket L N) × Opened fuel s s' × CanSend c s' × (s'.wire ≡ s.wire)
  Joined-opens fuel c rc u s (held, _, _, _, own, inl (_, _, ignores)) =
      (s, inl refl, (held.slot, (u, held.upstream, own, (held.connection, inl ignores))), refl)
  Joined-opens fuel c rc u s (held, _, _, _, own, inr (_, _, waits)) =
      let (can, wire) = on_connected-CanSend c u s held.slot held.connection own in
      (
        on_connected net c u s,
        inr (on_event-connected fuel c u s held.upstream held.connection waits),
        can,
        wire,
      )

module _ (q : NgxQueue) {N : Type 0} (dial : ℕ → Dial q.Links) (net : Net N)
    (delivered : N → ℕ → Bytes) where
  -- What a send of `b` by PHP comes to on connection `c`, behind `n` write events.
  abbrev pub SendsAll : ℕ → ℕ → ℕ → ℕ → Bytes → Socket q.Links N → Type 0
  SendsAll fuel n len c b s =
      (rc : ℤ) × (s' s'' : Socket q.Links N) × (socket_send_function q net fuel b (pos len) s
        ≡ some (is_long rc, s'))
      × Says c rc s'
      × (write_events net fuel n s' ≡ some s'')
      × (delivered s''.wire c ++ pending s'' ≡ delivered s.wire c ++ b)

  send_function-SendsAll :
      (carries : Carries net delivered) (adv : Advances net) (fuel n len c : ℕ) (b : Bytes)
      (s : Socket q.Links N)
      → CanSend net c s
      → length (delivered s.wire c ++ b) < fuel
      → SendsAll fuel n len c b s
  unfolding socket_send_function
  send_function-SendsAll carries adv fuel n len c b s (slot, (u, up, own, waits)) enough =
      let (rc, s', s'', run, says, later, all) =
        ngx_socket_send-delivers net delivered carries adv fuel n c b u s slot up own waits
          enough in
      (rc, s', s'', ground (arith, slot, run), says, later, all)

  pub connect_function :
      (ev : Events) (sock : PhpSocket) (host : Bytes) (port : ℕ) (rc : ℤ) (s s' : Socket q.Links N)
      → sock.type ≡ af_inet
      → s.slot ≡ true
      → socket_connect q (dial port) net ev host s ≡ some (rc, s')
      → ngx_socket_connect q dial net ev (some sock) host port s ≡ some (is_true, s')
  unfolding ngx_socket_connect
  connect_function ev sock host port rc s s' inet slot run = ground (arith, inet, slot, run)

  -- Under the conditions of `socket_connect-Replies` and of `ngx_socket_send-delivers` on nginx,
  -- for a socket of PHP's of the family AF_INET: PHP's connect returns true, also when it failed,
  -- and leaves the pool sound; or its connection opens, at once or by its write event, and with
  -- fuel enough PHP's send of `b`, whatever length `len` it is given (README.md says that `len`
  -- bytes are sent), returns a number as described there, and behind any number of write events
  -- what the connection has got since then, followed by what still waits, is exactly `b`.
  pub connect-send :
      (laws : QueueLaws q) (carries : Carries net delivered) (adv : Advances net) (port : ℕ)
      (conn : Connects q (dial port)) (ev : Events) (sock : PhpSocket) (host : Bytes)
      (a : Bytes × ℕ) (b : Bytes) (n len : ℕ) (s : Socket q.Links N)
      → sock.type ≡ af_inet
      → s.slot ≡ true
      → (dial port).pcalloc_upstream_succeeds ≡ true
      → (dial port).parse_url host ≡ some (some a)
      → IsSound q s.pool
      → (s' : Socket q.Links N) × (ngx_socket_connect q dial net ev (some sock) host port s
          ≡ some (is_true, s'))
        × IsSound q s'.pool
        × ((socket_connect q (dial port) net ev host s ≡ some (ngx_error, s'))
            ⊎ ((fuel c : ℕ) × (s'' : Socket q.Links N) × Opened net fuel s' s''
                × SendsAll fuel n len c b s''))
  connect-send laws carries adv port conn ev sock host a b n len s inet slot found parsed sound =
      let (rc, s', run, outcome) =
        socket_connect-Replies q (dial port) net laws conn ev host a s slot found parsed sound in
      let answered = connect_function ev sock host port rc s s' inet slot run in
      elim outcome [
        | inl (error, sound') ↦ (s', answered, sound', inl (run ∙ ap (λ k. some (k, s')) error))
        | inr (u, c, joined, (sound', fresh)) ↦
            let fuel = suc (length (delivered s'.wire c ++ b)) in
            let (s'', opens, can, wire) = Joined-opens net fuel c rc u s' joined in
            let enough : length (delivered s''.wire c ++ b) < fuel =
              subst (λ w. length (delivered w c ++ b) < fuel) (sym wire) (omega arith) in
            (
              s',
              answered,
              sound',
              inr (
                fuel,
                c,
                s'',
                opens,
                send_function-SendsAll carries adv fuel n len c b s'' can enough,
              ),
            )
      ]
