-- ===== src/Keepalive/Hits.antt =====
-- A connection that `ngx_http_php_keepalive_get_peer` of src/ngx_http_php_keepalive.c hands out is
-- no longer in the cache, and open; a client may write to it without harm to the cache.
use ngx_php.Prelude.{
  ℕ, ◌<◌, ◌≡◌, ◌≢◌, ◌⊎◌, refl, sym, ap, ◌∙◌, subst, some, arith, occurs, erase, inl, inr,
  Option-cases, Bool-cases,
}
use ngx_php.Prelude.Codes.{ℤ, ngx_ok}
use ngx_php.Keepalive.Queue.{NgxQueue, QueueLaws, cache, free}
use ngx_php.Keepalive.State.{Pool, Events, Peer}
use ngx_php.Keepalive.Ops.{find_peer, take_cached, get_peer}
use ngx_php.Keepalive.Peers.{is_off, settled, socket_get_peer}
use ngx_php.Keepalive.Links.{members-moved_other, linked-of-occurs}
use ngx_php.Keepalive.Live.{Holds, Holds-unique, IsSound}
use ngx_php.Keepalive.Store.{IsFresh}
use ngx_php.Keepalive.Preserve.{find_peer-occurs, occurs-erase, freed-IsSound, take_cached-Holds}

-- A pool in which only connection `c` itself was written.
pub record Touches {L : Type 0} (c : ℕ) (kc kc' : Pool L) : Type 0 where
  pub max : kc'.max_cached ≡ kc.max_cached
  pub links : kc'.links ≡ kc.links
  pub items : kc'.items ≡ kc.items
  pub closed : kc'.closed ≡ kc.closed
  pub conns : (d : ℕ) → d ≢ c → kc'.conns d ≡ kc.conns d

module _ (q : NgxQueue) where
  pub Touches-IsFresh :
      (c : ℕ) (kc kc' : Pool q.Links) → Touches c kc kc' → IsFresh q kc c → IsFresh q kc' c
  Touches-IsFresh c kc kc' t f = record {
    unshared =
        λ i h. rw t.items (f.unshared i (subst (λ l. 0 < occurs i (q.members l cache)) t.links h));
    is_open = ap (occurs c) t.closed ∙ f.is_open;
  }

  pub Touches-IsSound :
      (c : ℕ) (kc kc' : Pool q.Links)
      → Touches c kc kc'
      → IsFresh q kc c
      → IsSound q kc
      → IsSound q kc'
  Touches-IsSound c kc kc' t f s = record {
    partition = λ x. rw (t.links, t.max) (s.partition x);
    live = λ i h.
        let old = subst (λ l. 0 < occurs i (q.members l cache)) t.links h in
        let (d, holds) = s.live i old in
        let other : d ≢ c = λ e. f.unshared i old (holds.connection ∙ ap some e) in
        (
          d,
          record {
            connection = ap (λ items. (items i).connection) t.items ∙ holds.connection;
            points_back = ap (λ x. x.data_item) (t.conns d other) ∙ holds.points_back;
            is_open = ap (occurs d) t.closed ∙ holds.is_open;
          },
        );
  }

  -- What an answer of the cache is: a miss, or a hit with a connection for the client alone.
  abbrev pub IsHit : ℤ → Peer → Pool q.Links → Type 0
  IsHit rc pc kc =
      (rc ≡ ngx_ok) ⊎ ((rc ≢ ngx_ok) × ((c : ℕ) × (pc.connection ≡ some c) × IsFresh q kc c))

module _ (q : NgxQueue) (laws : QueueLaws q) where
  take_cached-IsFresh :
      (ev : Events) (pc : Peer) (kc : Pool q.Links) (i c : ℕ)
      → IsSound q kc
      → 0 < occurs i (q.members kc.links cache)
      → Holds kc i c
      → IsFresh q (take_cached q ev pc kc i c).2 c
  unfolding take_cached
  take_cached-IsFresh ev pc kc i c s hit holds =
      let held = linked-of-occurs q kc.links kc.max_cached i s.partition (omega (arith, hit)) in
      record {
        unshared = λ j h e.
            let inside : 0 < occurs j (erase i (q.members kc.links cache)) =
              subst (λ xs. 0 < occurs j xs)
                (members-moved_other q laws kc.links i held free cache (λ e. cc)) h in
            let (ne, old) =
              occurs-erase i j (q.members kc.links cache) (omega (arith, held)) inside in
            let (d, other) = s.live j old in
            let same : d ≡ c = ground (arith, other.connection, e) in
            ne (sym (Holds-unique kc i j c holds (subst (Holds kc j) same other)));
        is_open = holds.is_open;
      }

  get_peer-IsHit :
      (ev : Events) (pc : Peer) (kc : Pool q.Links)
      → IsSound q kc
      → (rc : ℤ) × (pc' : Peer) × (kc' : Pool q.Links) × (get_peer q ev pc kc ≡ some (rc, pc', kc'))
        × IsSound q kc'
        × IsHit q rc pc' kc'
  unfolding get_peer
  get_peer-IsHit ev pc kc s =
      elim (Option-cases (find_peer ev pc kc.items (q.members kc.links cache))) [
        | inl e ↦ (ngx_ok, pc, kc, ground (arith, e), s, inl refl)
        | inr (i, e) ↦
            let hit = find_peer-occurs ev pc kc.items (q.members kc.links cache) i e in
            let (c, holds) = s.live i hit in
            let held =
              linked-of-occurs q kc.links kc.max_cached i s.partition (omega (arith, hit)) in
            (
              (take_cached q ev pc kc i c).0,
              (take_cached q ev pc kc i c).1,
              (take_cached q ev pc kc i c).2,
              ground (arith, e, holds.connection),
              freed-IsSound q laws kc (take_cached q ev pc kc i c).2 i s held
                  (unfold take_cached in refl) (unfold take_cached in refl)
                  (λ j d ne h. take_cached-Holds q laws ev pc kc i c j d h),
              inr (
                unfold take_cached in (ground arith),
                (c, unfold take_cached in refl, take_cached-IsFresh ev pc kc i c s hit holds),
              ),
            )
      ]

  settled-IsHit :
      (rc : ℤ) (pc : Peer) (kc : Pool q.Links) → IsHit q rc pc kc → IsHit q (settled rc) pc kc
  settled-IsHit rc pc kc (inl ok) = inl (ground (arith, ok))
  settled-IsHit rc pc kc (inr (ne, fresh)) = inr (ground (arith, ne), fresh)

  pub socket_get_peer-IsHit :
      (ev : Events) (pc : Peer) (kc : Pool q.Links)
      → IsSound q kc
      → (rc : ℤ) × (pc' : Peer) × (kc' : Pool q.Links) × (socket_get_peer q ev pc kc
          ≡ some (rc, pc', kc'))
        × IsSound q kc'
        × IsHit q rc pc' kc'
  unfolding socket_get_peer
  socket_get_peer-IsHit ev pc kc s = elim (Bool-cases (is_off kc)) [
    | inl off ↦ (ngx_ok, pc, kc, rw off refl, s, inl refl)
    | inr on ↦
        let (rc, pc', kc', e, sound, hit) = get_peer-IsHit ev pc kc s in
        (settled rc, pc', kc', ground (arith, on, e), sound, settled-IsHit rc pc' kc' hit)
  ]
