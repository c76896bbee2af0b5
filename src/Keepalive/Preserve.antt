-- ===== src/Keepalive/Preserve.antt =====
-- The functions of src/ngx_http_php_keepalive.c return and keep the pool sound.
use ngx_php.Prelude.{
  ℕ, ◌<◌, ◌≤◌, ◌≡◌, ◌≢◌, refl, ap, ◌∙◌, subst, some, List, [], ◌∷◌, arith, occurs, erase,
  occurs-erase_self, occurs-erase_ne, inl, inr, Option-cases,
}
use ngx_php.Prelude.Codes.{ℤ, ngx_ok}
use ngx_php.Keepalive.Queue.{NgxQueue, QueueLaws, cache, free, linked}
use ngx_php.Keepalive.State.{Pool, Events, Item, Peer}
use ngx_php.Keepalive.Ops.{find_peer, take_cached, get_peer}
use ngx_php.Keepalive.Links.{moved, members-moved_other, moved-IsPartition, linked-of-occurs}
use ngx_php.Keepalive.Live.{Holds, IsSound}

-- The item that the search finds is in the list.
pub find_peer-occurs :
    (ev : Events) (pc : Peer) (items : ℕ → Item) (xs : List ℕ) (i : ℕ)
    → find_peer ev pc items xs ≡ some i
    → 0 < occurs i xs
unfolding find_peer
find_peer-occurs ev pc items [] i h = cc
find_peer-occurs ev pc items (x ∷ xs) i h = ground (arith, find_peer-occurs ev pc items xs i)

pub occurs-erase :
    (i j : ℕ) (xs : List ℕ)
    → occurs i xs ≤ 1
    → 0 < occurs j (erase i xs)
    → (j ≢ i) × (0 < occurs j xs)
occurs-erase i j xs h k = ground (arith, occurs-erase_self i xs, occurs-erase_ne i j xs)

module _ (q : NgxQueue) (laws : QueueLaws q) where
  -- A pool in which item `i` went to the free list, and nothing that `Holds` reads of the other
  -- items changed, is sound.
  pub freed-IsSound :
      (kc kc' : Pool q.Links) (i : ℕ)
      → IsSound q kc
      → linked q kc.links i ≡ 1
      → kc'.links ≡ moved q free i kc.links
      → kc'.max_cached ≡ kc.max_cached
      → ((j c : ℕ) → j ≢ i → Holds kc j c → Holds kc' j c)
      → IsSound q kc'
  freed-IsSound kc kc' i s held e m keep = record {
    partition =
        λ x. rw (e, m) (moved-IsPartition q laws kc.links i held free kc.max_cached s.partition x);
    live = λ j h.
        let inside : 0 < occurs j (erase i (q.members kc.links cache)) =
          subst (λ xs. 0 < occurs j xs)
            (ap (λ l. q.members l cache) e
              ∙ members-moved_other q laws kc.links i held free cache (λ e. cc))
            h in
        let (ne, old) = occurs-erase i j (q.members kc.links cache) (omega (arith, held)) inside in
        let (c, holds) = s.live j old in (c, keep j c ne holds);
  }

  pub take_cached-Holds :
      (ev : Events) (pc : Peer) (kc : Pool q.Links) (i c j d : ℕ)
      → Holds kc j d
      → Holds (take_cached q ev pc kc i c).2 j d
  unfolding take_cached
  take_cached-Holds ev pc kc i c j d h = ground arith

  -- With queues that obey nginx's laws: on a sound pool `get_peer` never reads through a NULL
  -- connection, it returns, and it leaves a sound pool, on a hit as on a miss.
  pub get_peer-IsSound :
      (ev : Events) (pc : Peer) (kc : Pool q.Links)
      → IsSound q kc
      → (rc : ℤ) × (pc' : Peer) × (kc' : Pool q.Links) × (get_peer q ev pc kc ≡ some (rc, pc', kc'))
        × IsSound q kc'
  unfolding get_peer
  get_peer-IsSound ev pc kc s =
      elim (Option-cases (find_peer ev pc kc.items (q.members kc.links cache))) [
        | inl e ↦ (ngx_ok, pc, kc, ground (arith, e), s)
        | inr (i, e) ↦
            let hit = find_peer-occurs ev pc kc.items (q.members kc.links cache) i e in
            let (c, holds) = s.live i hit in
            let held =
              linked-of-occurs q kc.links kc.max_cached i s.partition (omega (arith, hit)) in
            (
              (take_cached q ev pc kc i c).0,
              (take_cached q ev pc kc i c).1,
              (take_cached q ev pc kc i c).2,
              ground (arith, e, holds.connection),
              freed-IsSound kc (take_cached q ev pc kc i c).2 i s held (unfold take_cached in refl)
                  (unfold take_cached in refl) (λ j d ne h. take_cached-Holds ev pc kc i c j d h),
            )
      ]
