-- ===== src/Keepalive/Store.antt =====
-- `ngx_http_php_keepalive_free_peer` of src/ngx_http_php_keepalive.c keeps a connection for later.
use native.Mathlib.Decide.{ℕ_discrete}
use ngx_php.Prelude.{
  ℕ, ◌<◌, ◌≡◌, ◌≢◌, refl, ap, ◌∙◌, subst, some, List, [], ◌∷◌, arith, occurs, erase,
  occurs-erase_ne, occurs-append,
}
use ngx_php.Keepalive.Queue.{NgxQueue, QueueLaws, cache, free, linked, head, last}
use ngx_php.Keepalive.State.{Pool, Events, Peer}
use ngx_php.Keepalive.Ops.{keepalive_close, pick_item, store}
use ngx_php.Keepalive.Links.{
  moved, members-moved, moved-IsPartition, linked-of-occurs, occurs-head, occurs-last, last-some,
}
use ngx_php.Keepalive.Live.{Holds, IsSound}

-- A connection that a client gives back: nobody else caches it, and it is open.
pub record IsFresh (q : NgxQueue) (kc : Pool q.Links) (c : ℕ) : Type 0 where
  pub unshared :
      (i : ℕ) → 0 < occurs i (q.members kc.links cache) → (kc.items i).connection ≢ some c
  pub is_open : occurs c kc.closed ≡ 0

-- What `pick_item` did: item `i` is unlinked, and a connection was closed only if it was its own.
pub record Picked (q : NgxQueue) (kc kc' : Pool q.Links) (i : ℕ) : Type 0 where
  pub links : kc'.links ≡ q.remove i kc.links
  pub max : kc'.max_cached ≡ kc.max_cached
  pub items : kc'.items ≡ kc.items
  pub conns : kc'.conns ≡ kc.conns
  pub held : linked q kc.links i ≡ 1
  pub others_open : (j d : ℕ) → j ≢ i → Holds kc j d → occurs d kc'.closed ≡ 0
  pub fresh_open : (c : ℕ) → IsFresh q kc c → occurs c kc'.closed ≡ 0

module _ (q : NgxQueue) (laws : QueueLaws q) where
  pick_free :
      (kc : Pool q.Links) (i : ℕ)
      → IsSound q kc
      → head (q.members kc.links free) ≡ some i
      → Picked q kc (record kc { links = q.remove i kc.links }) i
  pick_free kc i s e = record {
    links = refl;
    max = refl;
    items = refl;
    conns = refl;
    held =
        linked-of-occurs q kc.links kc.max_cached i s.partition
          (omega (arith, occurs-head (q.members kc.links free) i e));
    others_open = λ j d ne h. h.is_open;
    fresh_open = λ c f. f.is_open;
  }

  pick_oldest :
      (kc : Pool q.Links) (i c : ℕ)
      → IsSound q kc
      → last (q.members kc.links cache) ≡ some i
      → Holds kc i c
      → Picked q kc (keepalive_close q c (record kc { links = q.remove i kc.links })) i
  unfolding keepalive_close
  pick_oldest kc i c s e holds =
      let old = occurs-last (q.members kc.links cache) i e in
      record {
        links = refl;
        max = refl;
        items = refl;
        conns = refl;
        held = linked-of-occurs q kc.links kc.max_cached i s.partition (omega (arith, old));
        others_open = λ j d ne h. ground (
          arith,
          occurs-append d kc.closed (c ∷ []),
          h.is_open,
          h.points_back,
          holds.points_back,
        );
        fresh_open = λ d f. ground (
          arith,
          occurs-append d kc.closed (c ∷ []),
          f.is_open,
          f.unshared i old,
          holds.connection,
        );
      }

  Picked-from :
      (kc : Pool q.Links) (xs : List ℕ)
      → IsSound q kc
      → 0 < kc.max_cached
      → q.members kc.links free ≡ xs
      → (i : ℕ) × (kc' : Pool q.Links) × (pick_item q kc ≡ some (i, kc')) × Picked q kc kc' i
  unfolding pick_item
  Picked-from kc (x ∷ xs) s room e = (
    x,
    record kc { links = q.remove x kc.links },
    ground (arith, e),
    pick_free kc x s (ground (arith, e)),
  )
  Picked-from kc [] s room e =
      let full : 0 < occurs 0 (q.members kc.links cache) = ground (arith, e, s.partition 0) in
      let (i, oldest) = last-some (q.members kc.links cache) 0 full in
      let (c, holds) = s.live i (occurs-last (q.members kc.links cache) i oldest) in
      (
        i,
        keepalive_close q c (record kc { links = q.remove i kc.links }),
        ground (arith, e, oldest, holds.connection),
        pick_oldest kc i c s oldest holds,
      )

  -- A pool with room for one connection always has an item for it.
  pub pick_item-Picked :
      (kc : Pool q.Links)
      → IsSound q kc
      → 0 < kc.max_cached
      → (i : ℕ) × (kc' : Pool q.Links) × (pick_item q kc ≡ some (i, kc')) × Picked q kc kc' i
  pick_item-Picked kc s room = Picked-from kc (q.members kc.links free) s room refl

  module _ (ev : Events) (pc : Peer) (kc kc' : Pool q.Links) (i c : ℕ) (p : Picked q kc kc' i) where
    links-store : (store q ev pc kc' i c).1.links ≡ moved q cache i kc.links
    unfolding store
    links-store = ap (q.insert_head cache i) p.links

    pub cache-store :
        q.members (store q ev pc kc' i c).1.links cache ≡ i ∷ erase i (q.members kc.links cache)
    cache-store =
        ap (λ l. q.members l cache) links-store ∙ members-moved q laws kc.links i p.held cache

    max-store : (store q ev pc kc' i c).1.max_cached ≡ kc.max_cached
    unfolding store
    max-store = p.max

    pub store-Holds_self : IsFresh q kc c → Holds (store q ev pc kc' i c).1 i c
    unfolding store
    store-Holds_self f = ground (arith, p.fresh_open c f)

    store-Holds_other :
        (j d : ℕ) → j ≢ i → d ≢ c → Holds kc j d → Holds (store q ev pc kc' i c).1 j d
    unfolding store
    store-Holds_other j d ne apart h = record {
      connection = ground (arith, h.connection, ap (λ f. f j) p.items);
      points_back = ground (arith, h.points_back, ap (λ f. f d) p.conns);
      is_open = p.others_open j d ne h;
    }

    pub store-IsSound : IsSound q kc → IsFresh q kc c → IsSound q (store q ev pc kc' i c).1
    store-IsSound s f = record {
      partition = λ x.
          rw (links-store, max-store)
            (moved-IsPartition q laws kc.links i p.held cache kc.max_cached s.partition x);
      live = λ j h. elim (ℕ_discrete j i) [
        | yes same ↦ (c, rw same (store-Holds_self f))
        | no ne ↦
            let inside = subst (λ xs. 0 < occurs j xs) cache-store h in
            let old : 0 < occurs j (q.members kc.links cache) =
              ground (arith, inside, occurs-erase_ne i j (q.members kc.links cache)) in
            let (d, holds) = s.live j old in
            (
              d,
              store-Holds_other j d ne (λ e. f.unshared j old (holds.connection ∙ ap some e)) holds,
            )
      ];
    }
