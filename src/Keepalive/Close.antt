-- ===== src/Keepalive/Close.antt =====
-- The read event of a cached connection, src/ngx_http_php_keepalive.c.
use ngx_php.Prelude.{
  ℕ, ◌<◌, ◌≡◌, refl, some, [], ◌∷◌, arith, occurs, occurs-append, inl, inr, Bool-cases,
}
use ngx_php.Keepalive.Queue.{NgxQueue, QueueLaws, cache, free}
use ngx_php.Keepalive.State.{Pool, Events}
use ngx_php.Keepalive.Ops.{keepalive_close, shut, unready, close_event}
use ngx_php.Keepalive.Links.{moved, linked-of-occurs}
use ngx_php.Keepalive.Live.{Holds, IsSound}
use ngx_php.Keepalive.Preserve.{freed-IsSound}

module _ (q : NgxQueue) (laws : QueueLaws q) where
  unready-Holds : (kc : Pool q.Links) (c j d : ℕ) → Holds kc j d → Holds (unready q c kc) j d
  unready-Holds kc c j d h = ground arith

  unready-IsSound : (kc : Pool q.Links) (c : ℕ) → IsSound q kc → IsSound q (unready q c kc)
  unready-IsSound kc c s = record {
    partition = s.partition;
    live = λ j h. let (d, holds) = s.live j h in (d, unready-Holds kc c j d holds);
  }

  abbrev pub shut_pool : Pool q.Links → ℕ → ℕ → Pool q.Links
  shut_pool kc i c = record (keepalive_close q c kc) { links = moved q free i kc.links }

  shut-IsSound :
      (kc : Pool q.Links) (i c : ℕ)
      → IsSound q kc
      → 0 < occurs i (q.members kc.links cache)
      → Holds kc i c
      → (shut q c kc ≡ some (shut_pool kc i c)) × IsSound q (shut_pool kc i c)
  unfolding shut keepalive_close
  shut-IsSound kc i c s hit holds =
      let held = linked-of-occurs q kc.links kc.max_cached i s.partition (omega (arith, hit)) in
      (
        ground (arith, holds.points_back),
        freed-IsSound q laws kc (shut_pool kc i c) i s held refl refl (λ j d ne h. record {
          connection = h.connection;
          points_back = h.points_back;
          is_open = ground (
            arith,
            occurs-append d kc.closed (c ∷ []),
            h.is_open,
            h.points_back,
            holds.points_back,
          );
        }),
      )

  -- With queues that obey nginx's laws: the read event of a cached connection of a sound pool
  -- returns, and leaves a sound pool, whether nginx wants the connection closed, the peer has sent
  -- or closed, or the read blocks and the event is watched on or not.
  pub close_event-IsSound :
      (ev : Events) (kc : Pool q.Links) (i c : ℕ)
      → IsSound q kc
      → 0 < occurs i (q.members kc.links cache)
      → Holds kc i c
      → (kc' : Pool q.Links) × (close_event q ev c kc ≡ some kc') × IsSound q kc'
  unfolding close_event
  close_event-IsSound ev kc i c s hit holds =
      let (now, sound) = shut-IsSound kc i c s hit holds in
      let (then_, sound') =
        shut-IsSound (unready q c kc) i c (unready-IsSound kc c s) hit
          (unready-Holds kc c i c holds) in
      elim (Bool-cases (kc.conns c).close) [
        | inl y ↦ (shut_pool kc i c, rw y now, sound)
        | inr n ↦ elim (Bool-cases ev.recv_blocks) [
          | inr reads ↦ (shut_pool kc i c, rw (n, reads) now, sound)
          | inl waits ↦ elim (Bool-cases ev.handle_read_event_succeeds) [
            | inl fine ↦ (unready q c kc, ground (arith, n, waits, fine), unready-IsSound kc c s)
            | inr fails ↦
                (shut_pool (unready q c kc) i c, ground (arith, n, waits, fails, then_), sound')
          ]
        ]
      ]
