-- ===== src/Socket/Resolve.antt =====
-- `ngx_http_php_socket_resolve_handler` of src/ngx_http_php_socket.c: the answer of nginx's resolver to
-- a connect whose host is a name. `none` is a division by 0, or a write through NULL.
use ngx_php.Prelude.{
  ℕ, zero, suc, ◌%◌, ◌<◌, ◌≡◌, refl, Bool, true, false, Option, none, some, List, [], ◌∷◌, arith,
  length, ◌==◌, if◌then◌else◌,
}
use ngx_php.Prelude.Codes.{ℤ}
use ngx_php.Keepalive.Queue.{NgxQueue, QueueLaws}
use ngx_php.Keepalive.State.{Events}
use ngx_php.Keepalive.Live.{IsSound}
use ngx_php.Socket.State.{Bytes, Upstream, Socket, Net, set_upstream}
use ngx_php.Socket.Connect.{Dial, resolve_retval_handler}
use ngx_php.Socket.Joined.{Connects, Replies}
use ngx_php.Socket.Connected.{resolve_retval-Replies}

-- An address of `ur->addrs`: its bytes, and its length.
abbrev pub Address : Type 0
Address = Bytes × ℕ

-- `ur->addrs[i]`
abbrev pub get_elem? : List Address → ℕ → Option Address
get_elem? [] i = none
get_elem? (a ∷ xs) zero = some a
get_elem? (a ∷ xs) (suc i) = get_elem? xs i

pub get_elem?-some :
    (xs : List Address) (i : ℕ) → i < length xs → (a : Address) × (get_elem? xs i ≡ some a)
get_elem?-some [] i h = absurd (omega arith)
get_elem?-some (a ∷ xs) zero h = (a, refl)
get_elem?-some (a ∷ xs) (suc i) h = get_elem?-some xs i (omega arith)

-- `ngx_resolver_ctx_t`; `failed` says that its state is not 0.
pub record ResolverCtx : Type 0 where
  pub failed : Bool
  pub addrs : List Address

-- What nginx does for the handler: `set_port` writes the port into an address, and the two say whether
-- memory for the address and for its text is found.
pub record Resolver : Type 0 where
  pub random : ℕ
  pub set_port : ℕ → Bytes → Bytes
  pub palloc_succeeds : Bool
  pub pnalloc_succeeds : Bool

module _ (q : NgxQueue) {N : Type 0} (dial : Dial q.Links) (net : Net N) (resolver : Resolver) where
  -- `if (ur->naddrs == 1) { i = 0; } else { i = ngx_random() % ur->naddrs; }`
  abbrev pub chosen : List Address → Option ℕ
  chosen xs =
      if length xs == 1
      then some 0
      else if length xs == 0
      then none
      else some (resolver.random % length xs)

  -- The result of `ngx_http_php_socket_resolve_retval_handler` is dropped.
  abbrev pub dropped : Option (ℤ × Socket q.Links N) → Option (Socket q.Links N)
  dropped none = none
  dropped (some (rc, s)) = some s

  -- From `socklen = ur->addrs[i].socklen` on.
  unfoldable pub use_address :
      Events → ℕ → Address → Upstream → Socket q.Links N → Option (Socket q.Links N)
  use_address ev port (sockaddr, socklen) u0 s0 =
      if resolver.palloc_succeeds
      then if resolver.pnalloc_succeeds
        then (let u = record u0 { resolved_ctx = false } in
            dropped (
              resolve_retval_handler q dial net ev (resolver.set_port port sockaddr, socklen) u
                (set_upstream u s0)))
        else some s0
      else none

  unfoldable pub resolve_handler :
      Events → ℕ → ResolverCtx → Upstream → Socket q.Links N → Option (Socket q.Links N)
  unfolding use_address
  resolve_handler ev port ctx u s = if ctx.failed then some s else elim (chosen ctx.addrs) [
    | none ↦ none
    | some i ↦ elim (get_elem? ctx.addrs i) [ none ↦ none | some a ↦ use_address ev port a u s ]
  ]

  chosen-some :
      (xs : List Address)
      → 0 < length xs
      → (i : ℕ) × (a : Address) × (chosen xs ≡ some i) × (get_elem? xs i ≡ some a)
  chosen-some [] h = absurd (omega arith)
  chosen-some (a ∷ []) h = (0, a, refl, refl)
  chosen-some (a ∷ b ∷ cs) h =
      let i = resolver.random % length (a ∷ b ∷ cs) in
      let below : i < length (a ∷ b ∷ cs) = grind arith in
      let (x, there) = get_elem?-some (a ∷ b ∷ cs) i below in (i, x, ground arith, there)

  -- Where memory is found and under the conditions of `socket_connect-Replies` on the queues and on
  -- `ngx_event_connect_peer`: if the resolver has found addresses, its handler connects to one of
  -- them, with the port, and ends with a reply as described there, for a request with a context and
  -- a sound pool; the reply's code is dropped. If the resolver has failed, the handler changes
  -- nothing.
  pub resolve_handler-Replies :
      (laws : QueueLaws q) (conn : Connects q dial) (ev : Events) (port : ℕ) (ctx : ResolverCtx)
      (u : Upstream) (s : Socket q.Links N)
      → s.slot ≡ true
      → IsSound q s.pool
      → resolver.palloc_succeeds ≡ true
      → resolver.pnalloc_succeeds ≡ true
      → 0 < length ctx.addrs
      → ((i : ℕ) × (a : Address) × (o : Option (ℤ × Socket q.Links N)) × (get_elem? ctx.addrs i
            ≡ some a)
          × (resolve_retval_handler q dial net ev
                (resolver.set_port port a.0, a.1)
                (record u { resolved_ctx = false })
                (set_upstream (record u { resolved_ctx = false }) s)
              ≡ o)
          × (resolve_handler ev port (record ctx { failed = false }) u s ≡ dropped o)
          × Replies q dial net o)
        × (resolve_handler ev port (record ctx { failed = true }) u s ≡ some s)
  unfolding resolve_handler use_address
  resolve_handler-Replies laws conn ev port ctx u s slot sound alloc text some_addr =
      let (i, a, choice, there) = chosen-some ctx.addrs some_addr in
      let u' = record u { resolved_ctx = false } in
      let o =
        resolve_retval_handler q dial net ev (resolver.set_port port a.0, a.1) u'
          (set_upstream u' s) in
      (
        (
          i,
          a,
          o,
          there,
          refl,
          rw (choice, there, alloc, text) refl,
          resolve_retval-Replies q dial net laws conn ev (resolver.set_port port a.0, a.1) u'
              (set_upstream u' s) slot sound,
        ),
        refl,
      )
