-- ===== src/Socket/Received.antt =====
-- What a call of `ngx_http_php_socket_upstream_recv` of src/ngx_http_php_socket.c gives to PHP.
use ngx_php.Prelude.{
  ℕ, ◌≤◌, ◌<◌, ◌≡◌, refl, ◌∙◌, ◌⊎◌, Bool, true, Option, some, [], arith, length, if◌then◌else◌, not,
  ◌&&◌, ◌==◌, false,
}
use ngx_php.Prelude.Codes.{ℤ, pos, negsuc}
use ngx_php.Socket.State.{Bytes, Upstream, Socket, Net}
use ngx_php.Socket.Recv.{
  Body, broke, returned, wild, with_buffer, took, recv_body, recv_wait_event, finish_recv,
  upstream_recv,
}

-- `c->recv` stores as many bytes as it says, which are no more than there is room for; otherwise it
-- gives NGX_AGAIN or NGX_ERROR and stores nothing.
abbrev pub IsAnswer : ℕ → ℤ × Bytes → Type 0
IsAnswer room (pos k, got) = (length got ≡ k) × (k ≤ room)
IsAnswer room (negsuc k, got) = ((k ≡ 0) ⊎ (k ≡ 1)) × (got ≡ [])

pub record Receives {N : Type 0} (net : Net N) : Type 0 where
  pub answers :
      (w : N) (c room : ℕ) → let (n, got, w') = net.c_recv w c room in IsAnswer room (n, got)

-- A buffer that has a start holds no bytes.
abbrev pub IsFreshBuffer : Upstream → Type 0
IsFreshBuffer u = u.buffer.start ≡ true → u.buffer.text ≡ []

-- A positive number of bytes.
abbrev pub is_some : ℤ → Bool
is_some (pos k) = not (k == 0)
is_some (negsuc k) = false

-- PHP's variable exactly after a read: where bytes came in, they and nothing else; else what it was.
abbrev pub Gives : Bool → Option Bytes → Bytes → ℕ → Option Bytes → Type 0
Gives came old got room now =
    ((came ≡ true) × (now ≡ some got) × (0 < length got) × (length got ≤ room))
    ⊎ ((came ≡ false) × (now ≡ old))

abbrev AfterBody : {L N : Type 0} → Bool → Option Bytes → Bytes → ℕ → Body L N → Type 0
AfterBody came old got room (broke n u s) = IsFreshBuffer u × Gives came old got room s.recv_buf
AfterBody came old got room (returned n u s) = IsFreshBuffer u × Gives came old got room s.recv_buf
AfterBody came old got room wild = ⊥

with_buffer-empty : (u : Upstream) → IsFreshBuffer u → (with_buffer u).buffer.text ≡ []
with_buffer-empty u f = ground (arith, f)

module _ {L N : Type 0} (net : Net N) where
  took-AfterBody :
      (page : Bool) (n : ℤ) (got : Bytes) (u : Upstream) (s : Socket L N)
      → u.buffer.text ≡ []
      → IsAnswer u.buffer.room (n, got)
      → AfterBody (is_some n) s.recv_buf got u.buffer.room (took net page n got u s)
  unfolding took
  took-AfterBody page n got u s e a = ground arith

  -- The connection is asked for bytes: there is room, and it does not wait for an event.
  abbrev pub asks : ℕ → ℕ → Socket L N → Bool
  asks c room s = not (room == 0) && not (net.read_active s.wire c && not (net.read_ready s.wire c))

  recv_body-AfterBody :
      (c : ℕ) (u : Upstream) (s : Socket L N)
      → Receives net
      → u.buffer.text ≡ []
      → let (n, got, _) = net.c_recv s.wire c u.buffer.room in
        AfterBody
          (asks c u.buffer.room s && is_some n)
          s.recv_buf
          got
          u.buffer.room
          (recv_body net c u s)
  unfolding recv_body
  recv_body-AfterBody c u s rec e =
      let (n, got, w) = net.c_recv s.wire c u.buffer.room in
      let page = u.enabled_receive_page && net.read_active w c && not (net.read_ready w c) in
      let s' = record s { wire = w; recv_code = if page then some n else s.recv_code } in
      ground (arith, e, took-AfterBody page n got u s' e (rec.answers s.wire c u.buffer.room))

  -- A socket whose buffer is fresh.
  abbrev pub HasBuffer : Socket L N → Type 0
  HasBuffer s = (u : Upstream) × (s.upstream ≡ some u) × IsFreshBuffer u

  finish_recv-Gives :
      (c room : ℕ) (came : Bool) (old : Option Bytes) (got : Bytes) (b : Body L N)
      → AfterBody came old got room b
      → (rc : ℤ) × (s' : Socket L N) × (finish_recv net c b ≡ some (rc, s'))
        × HasBuffer s'
        × Gives came old got room s'.recv_buf
  unfolding finish_recv recv_wait_event
  finish_recv-Gives c room came old got (broke n u s) (f, gives) =
      (_, _, refl, (u, ground arith, f), ground (arith, gives))
  finish_recv-Gives c room came old got (returned n u s) (f, gives) =
      (n, record s { upstream = some u }, refl, (u, refl, f), gives)
  finish_recv-Gives c room came old got wild a = elim a [ ]

  upstream_recv-finished :
      (c : ℕ) (u : Upstream) (s : Socket L N)
      → net.palloc_succeeds ≡ true
      → upstream_recv net c u s ≡ finish_recv net c (recv_body net c (with_buffer u) s)
  unfolding upstream_recv
  upstream_recv-finished c u s a = ground (arith, a)

  -- Where nginx finds memory and `c->recv` stores as many bytes as it says and no more than it may:
  -- on a buffer that is empty or not there, a read returns and leaves the buffer empty or not there
  -- for the next one. Exactly if the buffer has room, the connection does not wait for an event and
  -- `c->recv` answers with a positive number, PHP's variable becomes the bytes that it gave this
  -- time, at least one and at most those that there is room for; otherwise it is as it was.
  pub upstream_recv-Gives :
      (c : ℕ) (u : Upstream) (s : Socket L N)
      → Receives net
      → net.palloc_succeeds ≡ true
      → IsFreshBuffer u
      → let room = (with_buffer u).buffer.room in
        let (n, got, _) = net.c_recv s.wire c room in
        (rc : ℤ) × (s' : Socket L N) × (upstream_recv net c u s ≡ some (rc, s'))
        × HasBuffer s'
        × Gives (asks c room s && is_some n) s.recv_buf got room s'.recv_buf
  upstream_recv-Gives c u s rec a f =
      let u' = with_buffer u in
      let (rc, s', done, has, gives) =
        finish_recv-Gives c u'.buffer.room _ s.recv_buf _ (recv_body net c u' s)
          (recv_body-AfterBody c u' s rec (with_buffer-empty u f)) in
      (rc, s', upstream_recv-finished c u s a ∙ done, has, gives)
