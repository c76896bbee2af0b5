-- ===== src/Keepalive/Ops.antt =====
-- The functions of src/ngx_http_php_keepalive.c. `none` is a read through a NULL pointer or a
-- sentinel taken for an item.
use ngx_php.Prelude.{
  ℕ, zero, suc, true, false, Option, none, some, List, [], ◌∷◌, ◌++◌, take, drop, if◌then◌else◌,
}
use ngx_php.Prelude.Codes.{ℤ, ngx_ok, ngx_error, ngx_done}
use ngx_php.Keepalive.Queue.{NgxQueue, cache, free, is_empty, head, last}
use ngx_php.Keepalive.State.{dummy_handler, close_handler, Item, Peer, Pool, put, Events}

-- The loop of `get_peer` over the items of the cache.
unfoldable pub find_peer : Events → Peer → (ℕ → Item) → List ℕ → Option ℕ
find_peer ev pc items [] = none
find_peer ev pc items (i ∷ is) =
    if ev.memn2cmp (items i).sockaddr pc.sockaddr (items i).socklen pc.socklen
    then some i
    else find_peer ev pc items is

module _ (q : NgxQueue) where
  -- `for (i = 0; i < kc->max_cached; i++)` with the rounds left.
  unfoldable pub fill : ℕ → ℕ → q.Links → q.Links
  fill zero i l = l
  fill (suc n) i l = fill n (suc i) (q.insert_head free i l)

  abbrev pub zeroed : Item
  zeroed = record { connection = none; sockaddr = []; socklen = 0 }

  unfoldable pub keepalive_init : Events → Pool q.Links → ℤ × Pool q.Links
  keepalive_init ev kc =
      if ev.pcalloc_succeeds
      then (
        ngx_ok,
        record kc {
          links = fill kc.max_cached 0 (q.init free (q.init cache kc.links));
          items = λ _. zeroed;
        },
      )
      else (ngx_error, kc)

  -- The body of that loop for an item whose address matches.
  unfoldable pub take_cached : Events → Peer → Pool q.Links → ℕ → ℕ → ℤ × Peer × Pool q.Links
  take_cached ev pc kc i c = (
    if ev.add_event_succeeds then ngx_done else ngx_error,
    record pc { connection = some c; cached = true },
    record kc {
      links = q.insert_head free i (q.remove i kc.links);
      conns = put kc.conns c (record (kc.conns c) {
        idle = false;
        log = pc.log;
        pool_log = pc.log;
        read_log = pc.log;
        write_log = pc.log;
      });
    },
  )

  unfoldable pub get_peer : Events → Peer → Pool q.Links → Option (ℤ × Peer × Pool q.Links)
  unfolding take_cached
  get_peer ev pc kc = elim (find_peer ev pc kc.items (q.members kc.links cache)) [
    | none ↦ some (ngx_ok, pc, kc)
    | some i ↦ elim (kc.items i).connection [
      | none ↦ none
      | some c ↦ some (take_cached ev pc kc i c)
    ]
  ]

  -- `ngx_http_php_keepalive_close`: the pool is destroyed and the connection closed.
  unfoldable pub keepalive_close : ℕ → Pool q.Links → Pool q.Links
  keepalive_close c kc = record kc { closed = kc.closed ++ c ∷ [] }

  -- The item that will hold the connection, unlinked, and the pool without it.
  unfoldable pub pick_item : Pool q.Links → Option (ℕ × Pool q.Links)
  unfolding keepalive_close
  pick_item kc =
      if is_empty (q.members kc.links free)
      then elim (last (q.members kc.links cache)) [
        | none ↦ none
        | some i ↦ elim (kc.items i).connection [
          | none ↦ none
          | some c ↦ some (i, keepalive_close c (record kc { links = q.remove i kc.links }))
        ]
      ]
      else elim (head (q.members kc.links free)) [
        | none ↦ none
        | some i ↦ some (i, record kc { links = q.remove i kc.links })
      ]

  -- The item and the connection after it is stored, from `ngx_queue_insert_head` on.
  unfoldable pub store : Events → Peer → Pool q.Links → ℕ → ℕ → Peer × Pool q.Links
  store ev pc kc i c = (
    record pc { connection = none },
    record kc {
      links = q.insert_head cache i kc.links;
      items = put kc.items i (record {
        connection = some c;
        sockaddr = take pc.socklen pc.sockaddr ++ drop pc.socklen (kc.items i).sockaddr;
        socklen = pc.socklen;
      });
      conns = put kc.conns c (record (kc.conns c) {
        read_timer_set = false;
        write_timer_set = false;
        write_handler = dummy_handler;
        read_handler = close_handler;
        data_item = some i;
        idle = true;
        log = ev.cycle_log;
        pool_log = ev.cycle_log;
        read_log = ev.cycle_log;
        write_log = ev.cycle_log;
      });
    },
  )

  unfoldable pub free_peer : Events → Peer → Pool q.Links → Option (Peer × Pool q.Links)
  unfolding pick_item store
  free_peer ev pc kc = elim pc.connection [
    | none ↦ none
    | some c ↦
        if ev.handle_read_event_succeeds
        then elim (pick_item kc) [ none ↦ none | some (i, kc') ↦ some (store ev pc kc' i c) ]
        else some (pc, kc)
  ]

  -- The part of `ngx_http_php_keepalive_close_handler` at its label `close`.
  unfoldable pub shut : ℕ → Pool q.Links → Option (Pool q.Links)
  unfolding keepalive_close
  shut c kc = elim (kc.conns c).data_item [
    | none ↦ none
    | some i ↦
        some (record (keepalive_close c kc) { links = q.insert_head free i (q.remove i kc.links) })
  ]

  abbrev pub unready : ℕ → Pool q.Links → Pool q.Links
  unready c kc = record kc { conns = put kc.conns c (record (kc.conns c) { read_ready = false }) }

  -- The read event of an idle connection: its peer sent or closed, or nginx wants it closed.
  unfoldable pub close_event : Events → ℕ → Pool q.Links → Option (Pool q.Links)
  unfolding shut
  close_event ev c kc =
      if (kc.conns c).close
      then shut c kc
      else if ev.recv_blocks
      then (if ev.handle_read_event_succeeds then some (unready c kc) else shut c (unready c kc))
      else shut c kc
