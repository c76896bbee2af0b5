-- ===== src/Keepalive/Peers.antt =====
-- `ngx_http_php_socket_get_peer` and `ngx_http_php_socket_free_peer` of src/ngx_http_php_socket.c:
-- what nginx calls when a socket of PHP connects and when it is given back.
use ngx_php.Prelude.{
  ◌≡◌, refl, ◌≢◌, ◌⊎◌, Bool, true, Option, none, some, Bool-cases, inl, inr, arith, ◌==◌,
  if◌then◌else◌,
}
use ngx_php.Prelude.Codes.{ℤ, ◌==ℤ◌, ngx_ok, ngx_done}
use ngx_php.Keepalive.Queue.{NgxQueue, QueueLaws}
use ngx_php.Keepalive.State.{Pool, Peer, Events}
use ngx_php.Keepalive.Ops.{take_cached, get_peer, free_peer}
use ngx_php.Keepalive.Live.{IsSound}
use ngx_php.Keepalive.Preserve.{get_peer-IsSound}

-- A pool of no items is not asked.
abbrev pub is_off : {L : Type 0} → Pool L → Bool
is_off kc = kc.max_cached == 0

-- `if (rc != NGX_OK) return NGX_DONE;`
abbrev pub settled : ℤ → ℤ
settled rc = if rc ==ℤ ngx_ok then ngx_ok else ngx_done

module _ (q : NgxQueue) where
  unfoldable pub socket_get_peer : Events → Peer → Pool q.Links → Option (ℤ × Peer × Pool q.Links)
  socket_get_peer ev pc kc =
      if is_off kc then some (ngx_ok, pc, kc) else elim (get_peer q ev pc kc) [
        | none ↦ none
        | some (rc, pc', kc') ↦ some (settled rc, pc', kc')
      ]

  unfoldable pub socket_free_peer : Events → Peer → Pool q.Links → Option (Peer × Pool q.Links)
  socket_free_peer ev pc kc = if is_off kc then some (pc, kc) else free_peer q ev pc kc

  -- What a miss and a hit are.
  abbrev IsAnswer : Peer → Pool q.Links → ℤ → Peer → Pool q.Links → Type 0
  IsAnswer pc kc rc pc' kc' =
      ((rc ≡ ngx_ok) × (pc' ≡ pc) × (kc' ≡ kc)) ⊎ ((rc ≢ ngx_ok) × (pc'.cached ≡ true))

  get_peer-IsAnswer :
      (ev : Events) (pc pc' : Peer) (kc kc' : Pool q.Links) (rc : ℤ)
      → get_peer q ev pc kc ≡ some (rc, pc', kc')
      → IsAnswer pc kc rc pc' kc'
  unfolding get_peer take_cached
  get_peer-IsAnswer ev pc pc' kc kc' rc h = ground (arith, h)

  settled-answer :
      (pc pc' : Peer) (kc kc' : Pool q.Links) (rc : ℤ)
      → IsAnswer pc kc rc pc' kc'
      → ((settled rc ≡ ngx_ok) × (pc' ≡ pc) × (kc' ≡ kc))
        ⊎ ((settled rc ≡ ngx_done) × (pc'.cached ≡ true))
  settled-answer pc pc' kc kc' rc h = ground (arith, h)

  -- With queues that obey nginx's laws, on a sound pool: a socket that connects is answered NGX_OK
  -- with nothing changed, or NGX_DONE with a client marked as cached, and the pool stays sound;
  -- an error of `get_peer` is not passed on.
  pub socket_get_peer-IsSound :
      (laws : QueueLaws q) (ev : Events) (pc : Peer) (kc : Pool q.Links)
      → IsSound q kc
      → (rc : ℤ) × (pc' : Peer) × (kc' : Pool q.Links) × (socket_get_peer ev pc kc
          ≡ some (rc, pc', kc'))
        × (((rc ≡ ngx_ok) × (pc' ≡ pc) × (kc' ≡ kc)) ⊎ ((rc ≡ ngx_done) × (pc'.cached ≡ true)))
        × IsSound q kc'
  unfolding socket_get_peer
  socket_get_peer-IsSound laws ev pc kc s = elim (Bool-cases (is_off kc)) [
    | inl off ↦ (ngx_ok, pc, kc, rw off refl, inl (refl, refl, refl), s)
    | inr on ↦
        let (rc, pc', kc', e, sound) = get_peer-IsSound q laws ev pc kc s in
        (
          settled rc,
          pc',
          kc',
          ground (arith, on, e),
          settled-answer pc pc' kc kc' rc (get_peer-IsAnswer ev pc pc' kc kc' rc e),
          sound,
        )
  ]
