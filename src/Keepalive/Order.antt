-- ===== src/Keepalive/Order.antt =====
-- Which connection is kept, which is dropped and which is found, in src/ngx_http_php_keepalive.c.
use ngx_php.Prelude.{
  ℕ, zero, suc, ◌<◌, ◌≤◌, ◌≡◌, refl, sym, ap, ◌∙◌, true, false, none, some, List, [], ◌∷◌, ◌++◌,
  arith, length, occurs, erase, occurs-append,
}
use ngx_php.Prelude.Codes.{ngx_done}
use ngx_php.Keepalive.Queue.{NgxQueue, QueueLaws, cache, free}
use ngx_php.Keepalive.State.{Pool, Events, Item, Peer}
use ngx_php.Keepalive.Ops.{
  find_peer, take_cached, get_peer, keepalive_close, pick_item, store, free_peer,
}
use ngx_php.Keepalive.Links.{members-moved, linked-of-occurs}
use ngx_php.Keepalive.Live.{Holds, IsSound}
use mathlib.Core.Path.{ap₂}
use ngx_php.Prelude.{◌↔◌, take, drop}
use ngx_php.Keepalive.Links.{last-append, erase-last}
use ngx_php.Keepalive.Store.{
  IsFresh, pick_item-Picked, cache-store, store-Holds_self, store-IsSound,
}

-- `ngx_memn2cmp(s1, s2, n1, n2) == 0` exactly when the first `n1` bytes of `s1` are the first `n2`
-- of `s2`.
pub record Compares (ev : Events) : Type 0 where
  pub same : (xs ys : List ℕ) (n m : ℕ) → (ev.memn2cmp xs ys n m ≡ true) ↔ (take n xs ≡ take m ys)

take_again : (n : ℕ) (xs ys : List ℕ) → n ≤ length xs → take n (take n xs ++ ys) ≡ take n xs
take_again zero xs ys h = refl
take_again (suc n) [] ys h = absurd (omega arith)
take_again (suc n) (x ∷ xs) ys h = ap (◌∷◌ x) (take_again n xs ys (omega arith))

occurs_one : (i : ℕ) → occurs i (i ∷ []) ≡ 1
occurs_one i = ground arith

find_peer-head :
    (ev : Events) (pc : Peer) (items : ℕ → Item) (i : ℕ) (is : List ℕ)
    → ev.memn2cmp (items i).sockaddr pc.sockaddr (items i).socklen pc.socklen ≡ true
    → find_peer ev pc items (i ∷ is) ≡ some i
unfolding find_peer
find_peer-head ev pc items i is h = rw h

module _ (q : NgxQueue) (ev : Events) (pc : Peer) (kc : Pool q.Links) (i c : ℕ) where
  stored_address :
      pc.socklen ≤ length pc.sockaddr
      → take ((store q ev pc kc i c).1.items i).socklen ((store q ev pc kc i c).1.items i).sockaddr
        ≡ take pc.socklen pc.sockaddr
  unfolding store
  stored_address fits =
      ground (arith, take_again pc.socklen pc.sockaddr (drop pc.socklen (kc.items i).sockaddr) fits)

  get_peer-hit :
      find_peer ev pc kc.items (q.members kc.links cache) ≡ some i
      → (kc.items i).connection ≡ some c
      → get_peer q ev pc kc ≡ some (take_cached q ev pc kc i c)
  unfolding get_peer
  get_peer-hit h e = ground (arith, h, e)

  idle-take_cached : ((take_cached q ev pc kc i c).2.conns c).idle ≡ false
  unfolding take_cached
  idle-take_cached = ground arith

module _ (q : NgxQueue) (laws : QueueLaws q) where
  module _ (ev : Events) (pc : Peer) (kc : Pool q.Links) (c : ℕ) (s : IsSound q kc)
      (room : 0 < kc.max_cached) (given : pc.connection ≡ some c)
      (watched : ev.handle_read_event_succeeds ≡ true) where
    -- With queues that obey nginx's laws: on a sound pool with room for one item, where nginx can
    -- watch the connection and it is open and not cached, `free_peer` returns, the connection is
    -- held by the item it puts at the head of the cache, the other cached items keep their order,
    -- the client has lost the connection, and the pool is sound.
    pub free_peer-caches :
        IsFresh q kc c
        → (i : ℕ) × (pc' : Peer) × (kc' : Pool q.Links) × (free_peer q ev pc kc ≡ some (pc', kc'))
          × (pc'.connection ≡ none)
          × (q.members kc'.links cache ≡ i ∷ erase i (q.members kc.links cache))
          × Holds kc' i c
          × IsSound q kc'
    unfolding free_peer
    free_peer-caches f =
        let (i, kc', e, p) = pick_item-Picked q laws kc s room in
        let sound = store-IsSound q laws ev pc kc kc' i c p s f in
        (
          i,
          (store q ev pc kc' i c).0,
          (store q ev pc kc' i c).1,
          ground (arith, given, watched, e),
          unfold store in refl,
          cache-store q laws ev pc kc kc' i c p,
          store-Holds_self q laws ev pc kc kc' i c p f,
          sound,
        )

    -- With queues that obey nginx's laws: on a sound pool with no free item, where nginx can watch
    -- the connection, `free_peer` returns, moves the item at the tail of the cache to its head
    -- before the others in their order, and closes the connection which that item held and no
    -- other.
    pub free_peer-evicts :
        (front : List ℕ) (i e : ℕ)
        → q.members kc.links free ≡ []
        → q.members kc.links cache ≡ front ++ i ∷ []
        → (kc.items i).connection ≡ some e
        → (pc' : Peer) × (kc' : Pool q.Links) × (free_peer q ev pc kc ≡ some (pc', kc'))
          × (q.members kc'.links cache ≡ i ∷ front)
          × (kc'.closed ≡ kc.closed ++ e ∷ [])
    unfolding free_peer pick_item
    free_peer-evicts front i e none_free full oldest =
        let dropped = keepalive_close q e (record kc { links = q.remove i kc.links }) in
        let inside : 0 < occurs i (q.members kc.links cache) =
          rw full (omega (arith, occurs-append i front (i ∷ []), occurs_one i)) in
        let held =
          linked-of-occurs q kc.links kc.max_cached i s.partition (omega (arith, inside)) in
        let one_in : occurs i (q.members kc.links cache) ≡ 1 =
          omega (arith, held, inside, ap (occurs i) none_free) in
        let once : occurs i (front ++ i ∷ []) ≡ 1 = sym (ap (occurs i) full) ∙ one_in in
        (
          (store q ev pc dropped i c).0,
          (store q ev pc dropped i c).1,
          ground (arith, given, watched, none_free, full, oldest, last-append front i),
          unfold store keepalive_close in
              (members-moved q laws kc.links i held cache
                ∙ ap (λ xs. i ∷ erase i xs) full
                ∙ ap (◌∷◌ i) (erase-last front i once)),
          unfold store keepalive_close in refl,
        )

    -- With queues that obey nginx's laws: on a sound pool with room for one item, where nginx can
    -- watch the connection, it is open and not cached, and the address is as long as it says: the
    -- next client that asks for that address gets this connection, marked as cached and no longer
    -- idle, if nginx compares addresses as documented and can add the event.
    pub free_peer-get_peer :
        (pc2 : Peer)
        → IsFresh q kc c
        → Compares ev
        → pc2.sockaddr ≡ pc.sockaddr
        → pc2.socklen ≡ pc.socklen
        → pc.socklen ≤ length pc.sockaddr
        → ev.add_event_succeeds ≡ true
        → (pc' pc2' : Peer) × (kc' kc'' : Pool q.Links) × (free_peer q ev pc kc ≡ some (pc', kc'))
          × (get_peer q ev pc2 kc' ≡ some (ngx_done, pc2', kc''))
          × (pc2'.connection ≡ some c)
          × (pc2'.cached ≡ true)
          × ((kc''.conns c).idle ≡ false)
    unfolding free_peer
    free_peer-get_peer pc2 f same sa sl fits added =
        let (i, kc', e, p) = pick_item-Picked q laws kc s room in
        let k = (store q ev pc kc' i c).1 in
        let hit : find_peer ev pc2 k.items (q.members k.links cache) ≡ some i =
          ap (find_peer ev pc2 k.items) (cache-store q laws ev pc kc kc' i c p)
          ∙ find_peer-head ev pc2 k.items i _ (
              (same.same _ _ _ _).1 (stored_address q ev pc kc' i c fits ∙ sym (ap₂ take sl sa))) in
        (
          (store q ev pc kc' i c).0,
          (take_cached q ev pc2 k i c).1,
          k,
          (take_cached q ev pc2 k i c).2,
          ground (arith, given, watched, e),
          get_peer-hit q ev pc2 k i c hit (store-Holds_self q laws ev pc kc kc' i c p f).connection
              ∙ (unfold take_cached in ground (arith, added)),
          unfold take_cached in refl,
          unfold take_cached in refl,
          idle-take_cached q ev pc2 k i c,
        )
