-- ===== src/Socket/Sent.antt =====
-- The bytes that PHP gives to a socket of src/ngx_http_php_socket.c are sent in order, once, over
-- any number of write events.
use ngx_php.Prelude.{
  ℕ, ◌<◌, ◌≡◌, refl, ap, sym, ◌∙◌, ◌⊎◌, inl, inr, true, false, Option, none, some, [], ◌++◌, arith,
  Bool-cases, Option-cases, length, length-append,
}
use ngx_php.Prelude.Codes.{ℤ, pos, negsuc, ◌==ℤ◌, ngx_ok, ngx_error, ngx_again}
use ngx_php.Socket.State.{Bytes, ignoring_handler, send_handler, Upstream, Socket, Net}
use ngx_php.Socket.Send.{
  send_rounds, sent_all, send_later, behind_rounds, upstream_send, on_writable,
}
use ngx_php.Socket.Delivery.{Carries, Advances, IsEnd, send_rounds-delivers}
use ngx_php.Socket.Events.{on_event, call_handler}

-- The bytes that still wait.
abbrev pub pending_of : Option Upstream → Bytes
pending_of none = []
pending_of (some u) = elim u.request_bufs [ none ↦ [] | some b ↦ b ]

abbrev pub pending : {L N : Type 0} → Socket L N → Bytes
pending s = pending_of s.upstream

-- What an answer of a send says.
abbrev pub Says : {L N : Type 0} → ℕ → ℤ → Socket L N → Type 0
Says c rc s =
    ((rc ≡ ngx_ok) × (pending s ≡ []) × ((s.pool.conns c).write_timer_set ≡ false))
    ⊎ (((rc ≡ ngx_again) × (s.phase_status ≡ ngx_again) × ((s.pool.conns c).write_timer_set ≡ true))
        ⊎ (rc ≡ ngx_error))

-- Connection `c` is the socket's, and a write event is ignored or goes on sending.
abbrev pub Waits : ℕ → Upstream → Type 0
Waits c u =
    (u.peer.connection ≡ some c)
    × ((u.write_event_handler ≡ ignoring_handler) ⊎ (u.write_event_handler ≡ send_handler))

module _ {L N : Type 0} (net : Net N) where
  behind_rounds-Says :
      (c : ℕ) (u : Upstream) (s : Socket L N) (n : ℤ) (rest : Bytes) (w : N)
      → IsEnd n rest
      → let (rc, s') = behind_rounds net c u s (n, rest, w) in
        Says c rc s' × (pending s' ≡ rest) × (s'.wire ≡ w)
  unfolding behind_rounds sent_all send_later
  behind_rounds-Says c u s n rest w e = ground (arith, e)

  behind_rounds-Waits :
      (c : ℕ) (u : Upstream) (s : Socket L N) (n : ℤ) (rest : Bytes) (w : N)
      → Waits c u
      → let (_, s') = behind_rounds net c u s (n, rest, w) in
        (s'.slot ≡ s.slot) × ((u' : Upstream) × (s'.upstream ≡ some u') × Waits c u')
  unfolding behind_rounds sent_all send_later
  behind_rounds-Waits c u s (pos k) rest w (given, h) = (refl, (_, refl, (given, inl refl)))
  behind_rounds-Waits c u s (negsuc k) rest w (given, h) =
      elim (Bool-cases (negsuc k ==ℤ ngx_error)) [
        | inl failed ↦ rw failed (refl, (_, refl, (given, h)))
        | inr later ↦ rw later (refl, (_, refl, (given, inr refl)))
      ]

  upstream_send-rounds :
      (fuel c : ℕ) (u : Upstream) (s : Socket L N) (b : Bytes) (r : ℤ × Bytes × N)
      → s.slot ≡ true
      → u.request_bufs ≡ some b
      → send_rounds net fuel c s.wire b ≡ some r
      → upstream_send net fuel c u s ≡ some (behind_rounds net c u s r)
  unfolding upstream_send
  upstream_send-rounds fuel c u s b r slot has run = ground (arith, slot, has, run)

  -- A socket with bytes on the way to connection `c`: those delivered and those that wait are
  -- `total`, and a write event is ignored or goes on sending.
  module _ (delivered : N → ℕ → Bytes) (total : Bytes) (c : ℕ) where
    abbrev pub Sending : Socket L N → Type 0
    Sending s =
        (s.slot ≡ true)
        × (delivered s.wire c ++ pending s ≡ total)
        × ((u : Upstream) × (s.upstream ≡ some u) × Waits c u)

    module _ (carries : Carries net delivered) (adv : Advances net) where
      pub upstream_send-Sending :
          (fuel : ℕ) (u : Upstream) (s : Socket L N) (b : Bytes)
          → s.slot ≡ true
          → u.request_bufs ≡ some b
          → Waits c u
          → delivered s.wire c ++ b ≡ total
          → length b < fuel
          → (rc : ℤ) × (s' : Socket L N) × (upstream_send net fuel c u s ≡ some (rc, s'))
            × Says c rc s'
            × Sending s'
      upstream_send-Sending fuel u s b slot has waits all enough =
          let (n, rest, w, run, same, end) =
            send_rounds-delivers net delivered carries adv fuel c s.wire b enough in
          let (says, left, wire) = behind_rounds-Says c u s n rest w end in
          let (slot', kept) = behind_rounds-Waits c u s n rest w waits in
          let (rc, s') = behind_rounds net c u s (n, rest, w) in
          (
            rc,
            s',
            upstream_send-rounds fuel c u s b (n, rest, w) slot has run,
            says,
            (
              slot' ∙ slot,
              ap (λ x. delivered x c ++ pending s') wire
                  ∙ ap (λ x. delivered w c ++ x) left
                  ∙ same
                  ∙ all,
              kept,
            ),
          )

      on_event-ignored :
          (fuel : ℕ) (u : Upstream) (s : Socket L N)
          → s.upstream ≡ some u
          → u.peer.connection ≡ some c
          → u.write_event_handler ≡ ignoring_handler
          → on_event net fuel true s ≡ some s
      unfolding on_event call_handler
      on_event-ignored fuel u s up given h = rw up (ground (arith, given, h))

      on_event-idle :
          (fuel : ℕ) (u : Upstream) (s : Socket L N)
          → s.upstream ≡ some u
          → u.peer.connection ≡ some c
          → u.write_event_handler ≡ send_handler
          → (net.write_timedout s.wire c ≡ true) ⊎ (u.request_bufs ≡ none)
          → on_event net fuel true s ≡ some s
      unfolding on_event call_handler on_writable
      on_event-idle fuel u s up given h idle = rw up (ground (arith, given, h, idle))

      on_event-sends :
          (fuel : ℕ) (u : Upstream) (s : Socket L N) (b : Bytes) (rc : ℤ) (s' : Socket L N)
          → s.upstream ≡ some u
          → u.peer.connection ≡ some c
          → u.write_event_handler ≡ send_handler
          → net.write_timedout s.wire c ≡ false
          → u.request_bufs ≡ some b
          → upstream_send net fuel c u s ≡ some (rc, s')
          → on_event net fuel true s ≡ some s'
      unfolding on_event call_handler on_writable
      on_event-sends fuel u s b rc s' up given h timely has run =
          rw up (ground (arith, given, h, timely, has, run))

      pub on_event-Sending :
          (fuel : ℕ) (s : Socket L N)
          → Sending s
          → length total < fuel
          → (s' : Socket L N) × (on_event net fuel true s ≡ some s') × Sending s'
      on_event-Sending fuel s (slot, all, (u, up, (given, h))) enough = elim h [
        | inl ignored ↦ (
          s,
          on_event-ignored fuel u s up given ignored,
          (slot, all, (u, up, (given, inl ignored))),
        )
        | inr sends ↦ elim (Bool-cases (net.write_timedout s.wire c)) [
          | inl late ↦ (
            s,
            on_event-idle fuel u s up given sends (inl late),
            (slot, all, (u, up, (given, inr sends))),
          )
          | inr timely ↦ elim (Option-cases u.request_bufs) [
            | inl nothing ↦ (
              s,
              on_event-idle fuel u s up given sends (inr nothing),
              (slot, all, (u, up, (given, inr sends))),
            )
            | inr (b, has) ↦
                let waiting : pending s ≡ b = ap pending_of up ∙ ground (arith, has) in
                let all' : delivered s.wire c ++ b ≡ total =
                  sym (ap (λ x. delivered s.wire c ++ x) waiting) ∙ all in
                let (rc, s', run, _, sending) =
                  upstream_send-Sending fuel u s b slot has (given, inr sends) all'
                    (omega (arith, ap length all', length-append (delivered s.wire c) b, enough)) in
                (s', on_event-sends fuel u s b rc s' up given sends timely has run, sending)
          ]
        ]
      ]
