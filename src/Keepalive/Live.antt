-- ===== src/Keepalive/Live.antt =====
-- The invariant of the keepalive pool of src/ngx_http_php_keepalive.c, and the starting pool.
use ngx_php.Prelude.{
  ℕ, zero, suc, ◌+◌, ◌<◌, ◌≡◌, refl, ap, ◌∙◌, true, some, [], arith, ltb, if◌then◌else◌, length,
  occurs,
}
use ngx_php.Prelude.Codes.{ngx_ok}
use ngx_php.Keepalive.Queue.{NgxQueue, QueueLaws, cache, free, linked}
use ngx_php.Keepalive.State.{Pool, Events}
use ngx_php.Keepalive.Ops.{fill, keepalive_init}
use ngx_php.Keepalive.Links.{IsPartition}

-- The connection of a cached item: it points back to the item, and it has not been closed.
pub record Holds {L : Type 0} (kc : Pool L) (i c : ℕ) : Type 0 where
  pub connection : (kc.items i).connection ≡ some c
  pub points_back : (kc.conns c).data_item ≡ some i
  pub is_open : occurs c kc.closed ≡ 0

-- Every item is in one list, once, and each cached one holds an open connection of its own.
pub record IsSound (q : NgxQueue) (kc : Pool q.Links) : Type 0 where
  pub partition : IsPartition q kc.max_cached kc.links
  pub live : (i : ℕ) → 0 < occurs i (q.members kc.links cache) → (c : ℕ) × Holds kc i c

-- Two cached items never share a connection.
pub Holds-unique : {L : Type 0} (kc : Pool L) (i j c : ℕ) → Holds kc i c → Holds kc j c → i ≡ j
Holds-unique kc i j c h k = ground (arith, h.points_back, k.points_back)

module _ (q : NgxQueue) (laws : QueueLaws q) where
  pub fill_lem :
      (n i : ℕ) (l : q.Links)
      → q.members l cache ≡ []
      → ((x : ℕ) → occurs x (q.members l free) ≡ (if ltb x i then 1 else 0))
      → (q.members (fill q n i l) cache ≡ [])
        × ((x : ℕ) → occurs x (q.members (fill q n i l) free) ≡ (if ltb x (i + n) then 1 else 0))
        × (length (q.members (fill q n i l) free) ≡ n + length (q.members l free))
  unfolding fill
  fill_lem zero i l c f = (c, λ x. ground (arith, f x), omega arith)
  fill_lem (suc n) i l c f =
      let unlinked : linked q l i ≡ 0 = rw c (ground (arith, f i)) in
      let l' = q.insert_head free i l in
      let c' : q.members l' cache ≡ [] = laws.insert_other free cache i l (λ e. cc) unlinked ∙ c in
      let e = laws.insert_self free i l unlinked in
      let f' : (x : ℕ) → occurs x (q.members l' free) ≡ (if ltb x (suc i) then 1 else 0) =
        λ x. rw e (ground (arith, f x)) in
      let (c2, f2, n2) = fill_lem n (suc i) l' c' f' in
      (c2, λ x. ground (arith, f2 x), omega (arith, n2, ap length e))

  -- With queues that obey nginx's laws, when memory is found: the start gives NGX_OK, nothing is
  -- cached, `max_cached` items are free, and the pool is sound (each item stands in exactly one of
  -- the two queues, and a cached item has an open connection that points back to it), whatever was
  -- in it before.
  pub keepalive_init-IsSound :
      (ev : Events) (kc : Pool q.Links)
      → ev.pcalloc_succeeds ≡ true
      → let (rc, kc') = keepalive_init q ev kc in
        (rc ≡ ngx_ok)
        × IsSound q kc'
        × (q.members kc'.links cache ≡ [])
        × (length (q.members kc'.links free) ≡ kc.max_cached)
  unfolding keepalive_init
  keepalive_init-IsSound ev kc a =
      let l0 = q.init free (q.init cache kc.links) in
      let c0 : q.members l0 cache ≡ [] =
        laws.init_other free cache (q.init cache kc.links) (λ e. cc)
        ∙ laws.init_self cache kc.links in
      let f0 : q.members l0 free ≡ [] = laws.init_self free (q.init cache kc.links) in
      let (c, f, n) = fill_lem kc.max_cached 0 l0 c0 (λ x. rw f0 (ground arith)) in
      rw a (
        refl,
        record {
          partition = λ x. rw c (ground (arith, f x));
          live = λ i h. absurd (omega (arith, ap (occurs i) c));
        },
        c,
        omega (arith, n, ap length f0),
      )
