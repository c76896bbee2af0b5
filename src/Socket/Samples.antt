-- ===== src/Socket/Samples.antt =====
-- A socket over plain queues, with what nginx does for it.
use ngx_php.Prelude.{
  ℕ, ◌≤◌, ◌<◌, ◌≡◌, refl, sym, ap, ◌∙◌, inl, inr, true, false, none, some, Option, [], ◌∷◌, ◌++◌,
  arith, length, take, if◌then◌else◌, leb, ltb, Bool, Bool-cases, List, ◌||◌, ◌==◌, occurs, ◌≢◌,
  subst,
}
use ngx_php.Prelude.Codes.{◌==ℤ◌, ℤ, pos, negsuc, ngx_ok, ngx_error, ngx_again}
use ngx_php.Keepalive.Queue.{cache}
use ngx_php.Keepalive.State.{Item, Peer, Pool, put}
use ngx_php.Keepalive.Samples.{lists, full}
use ngx_php.Socket.State.{Bytes, ignoring_handler, Upstream, Socket, Net}
use ngx_php.Socket.Received.{Receives}
use ngx_php.Socket.Delivery.{Carries, Advances}
use ngx_php.Socket.Dispose.{InUse}
use ngx_php.Socket.Connect.{Dial, started, zeroed_upstream}
use ngx_php.Socket.Joined.{IsConnect, Connects}
use ngx_php.Socket.Resolve.{ResolverCtx, Resolver}
use ngx_php.Socket.Functions.{PhpSocket, af_inet}

-- The bytes that each connection has taken.
abbrev pub Wire : Type 0
Wire = ℕ → Bytes

-- As many of the bytes as a send takes.
abbrev two : Bytes → ℕ
two b = if leb (length b) 2 then length b else 2

abbrev pub xyz : Bytes
xyz = b'x' ∷ b'y' ∷ b'z' ∷ []

abbrev pub slow : Net Wire
slow = record {
  c_send = λ w c b. (pos (two b), put w c (w c ++ take (two b) b));
  c_recv = λ w c room. if leb 3 room then (pos 3, xyz, w) else (ngx_again, [], w);
  read_active = λ w c. false;
  read_ready = λ w c. true;
  rev_write = λ w c. false;
  read_timedout = λ w c. false;
  write_timedout = λ w c. false;
  handle_write_event_succeeds = true;
  handle_read_event_succeeds = true;
  add_event_succeeds = true;
  palloc_succeeds = true;
  cleanup_add_succeeds = true;
}

abbrev pub delivered : Wire → ℕ → Bytes
delivered w c = w c

abbrev taken : ℤ × Wire → ℕ
taken (pos k, w) = k
taken (negsuc k, w) = 0

two-le : (b : Bytes) → two b ≤ length b
two-le b = ground arith

two-lt : (b : Bytes) → 0 < length b → 0 < two b
two-lt b h = ground arith

pub slow-Carries : Carries slow delivered
slow-Carries = record {
  takes = λ w w' c k b e.
      let k_is : two b ≡ k = ap taken e in
      (
        omega (arith, k_is, two-le b),
        ap (λ (r : ℤ × Wire). r.1 c) (sym e) ∙ ground arith ∙ ap (λ n. w c ++ take n b) k_is,
      );
  refuses = λ w w' c k b e. absurd (ground (arith, e));
}

pub slow-Advances : Advances slow
slow-Advances = record {
  advances = λ w w' c k b e some_bytes.
      let k_is : two b ≡ k = ap taken e in omega (arith, k_is, two-lt b some_bytes);
}

pub slow-Receives : Receives slow
slow-Receives = record { answers = λ w c room. ground arith }

-- A request with a socket on connection 20, over the pool of two.
abbrev pub upstream : Upstream
upstream = record zeroed_upstream {
  peer = record (zeroed_upstream.peer) { connection = some 20 };
  peer_free = true;
  peer_sockaddr = true;
  request = 1;
  write_event_handler = ignoring_handler;
  buffer_size = 1024;
}

abbrev pub socket : Socket lists.Links Wire
socket = record {
  id = 1;
  slot = true;
  upstream = some upstream;
  phase_status = ngx_ok;
  recv_buf = none;
  recv_code = none;
  delay_time = 0;
  sleep_timer_set = false;
  cleanups = 0;
  client_read_timer_set = false;
  pool = full;
  has_pool = λ _. true;
  wire = λ _. [];
}

pub socket-InUse : InUse socket upstream 20
socket-InUse = record {
  slot = refl;
  upstream = refl;
  connection = refl;
  peer_free = refl;
  peer_sockaddr = refl;
}

-- `hello`
abbrev pub hello : Bytes
hello = b'h' ∷ b'e' ∷ b'l' ∷ b'l' ∷ b'o' ∷ []

-- The same, connected to `hell`.
abbrev pub upstream_to_host : Upstream
upstream_to_host = record upstream {
  peer = record (upstream.peer) { sockaddr = hello; socklen = 4 };
}

abbrev pub socket_to_host : Socket lists.Links Wire
socket_to_host = record socket { upstream = some upstream_to_host }

pub socket_to_host-InUse : InUse socket_to_host upstream_to_host 20
socket_to_host-InUse = record {
  slot = refl;
  upstream = refl;
  connection = refl;
  peer_free = refl;
  peer_sockaddr = refl;
}

abbrev holds : ℕ → Option ℕ → Bool
holds c none = false
holds c (some d) = d == c

-- Whether a cached item has the connection.
abbrev held_by : (ℕ → Item) → ℕ → List ℕ → Bool
held_by items c [] = false
held_by items c (i ∷ is) = holds c (items i).connection || held_by items c is

held_by-none :
    (items : ℕ → Item) (c : ℕ) (is : List ℕ)
    → held_by items c is ≡ false
    → (i : ℕ) → 0 < occurs i is
    → (items i).connection ≢ some c
held_by-none items c [] free i h e = absurd (omega (arith, h))
held_by-none items c (j ∷ js) free i h e = elim (Bool-cases (i == j)) [
  | inl same ↦
      let i_is : i ≡ j = ground (arith, same) in
      let here : holds c (items i).connection ≡ false =
        subst (λ k. holds c (items k).connection ≡ false) (sym i_is) (ground (arith, free)) in
      absurd (ground (arith, here, e))
  | inr other ↦ held_by-none items c js (ground (arith, free)) i (ground (arith, h, other)) e
]

-- `ngx_event_connect_peer`: the cache's answer, or connection 30, if it can be had.
abbrev open_one : Option (ℤ × Peer × Pool lists.Links) → Option (ℤ × Peer × Pool lists.Links)
open_one none = none
open_one (some (rc, pc, kc)) =
    if rc ==ℤ ngx_ok
    then if held_by kc.items 30 (kc.links cache) || ltb 0 (occurs 30 kc.closed)
      then some (ngx_error, pc, kc)
      else some (ngx_again, record pc { connection = some 30 }, kc)
    else some (rc, pc, kc)

abbrev pub dial : Dial lists.Links
dial = record {
  pcalloc_upstream_succeeds = true;
  pcalloc_resolved_succeeds = true;
  create_pool_succeeds = true;
  parse_url = λ host. some (some (host, 4));
  connect_peer = λ get pc kc. open_one (get pc kc);
  resolve_start = started;
  resolve_name_succeeds = true;
  log = 5;
}

open_one-IsConnect :
    (a : ℤ × Peer × Pool lists.Links)
    → (b : ℤ × Peer × Pool lists.Links) × (open_one (some a) ≡ some b) × IsConnect lists a b
open_one-IsConnect (rc, pc, kc) = elim (Bool-cases (rc ==ℤ ngx_ok)) [
  | inr e ↦ ((rc, pc, kc), rw e refl, inl (λ h. ground (arith, e, h), refl, refl, refl))
  | inl e ↦
      let taken = held_by kc.items 30 (kc.links cache) || ltb 0 (occurs 30 kc.closed) in
      elim (Bool-cases taken) [
        | inl t ↦ ((ngx_error, pc, kc), rw (e, t) refl, inr (inl (ground (arith, e), refl, refl)))
        | inr f ↦ (
          (ngx_again, record pc { connection = some 30 }, kc),
          rw (e, f) refl,
          inr (
              inr (
                ground (arith, e),
                refl,
                inr refl,
                (
                  30,
                  refl,
                  record {
                    unshared = held_by-none kc.items 30 (kc.links cache) (ground (arith, f));
                    is_open = ground (arith, f);
                  },
                ),
              )),
        )
      ]
]

pub dial-Connects : Connects lists dial
dial-Connects = record {
  connects =
      λ get pc kc a e. let (b, opens, is) = open_one-IsConnect a in (b, ap open_one e ∙ opens, is);
}

-- PHP's socket of the family AF_INET.
abbrev pub php_socket : PhpSocket
php_socket = record { type = af_inet; error = pos 0 }

abbrev pub any_port : ℕ → Dial lists.Links
any_port port = dial

abbrev pub resolver : Resolver
resolver = record {
  random = 5;
  set_port = λ port a. a;
  palloc_succeeds = true;
  pnalloc_succeeds = true;
}

abbrev pub answered : ResolverCtx
answered = record { failed = false; addrs = (hello, 4) ∷ (xyz, 4) ∷ [] }
