-- ===== src/Keepalive/Tests.antt =====
-- The theorems about src/ngx_http_php_keepalive.c at a pool of two connections, over queues that
-- are two plain lists.
use ngx_php.Prelude.{ℕ, ◌≡◌, refl, true, false, some, List, [], ◌∷◌, arith}
use ngx_php.Prelude.Codes.{ℤ, ngx_done}
use ngx_php.Keepalive.Queue.{Head, cache}
use ngx_php.Keepalive.State.{Pool, Peer}
use ngx_php.Keepalive.Ops.{get_peer, free_peer, close_event}
use ngx_php.Keepalive.Live.{IsSound}
use ngx_php.Keepalive.Preserve.{get_peer-IsSound}
use ngx_php.Keepalive.Close.{close_event-IsSound}
use ngx_php.Keepalive.Order.{free_peer-evicts, free_peer-get_peer}
use ngx_php.Keepalive.Samples.{
  lists, lists-laws, calm, calm-Compares, full, full-Holds, full-IsSound, client, full-IsFresh,
}

get_peer-IsSound_example :
    (rc : ℤ) × (pc' : Peer) × (kc' : Pool (Head → List ℕ)) × (get_peer lists calm (client 20) full
      ≡ some (rc, pc', kc'))
    × IsSound lists kc'
get_peer-IsSound_example = get_peer-IsSound lists lists-laws calm (client 20) full full-IsSound

close_event-IsSound_example :
    (kc' : Pool (Head → List ℕ)) × (close_event lists calm 11 full ≡ some kc') × IsSound lists kc'
close_event-IsSound_example =
    close_event-IsSound lists lists-laws calm full 1 11 full-IsSound (omega arith) (full-Holds 1)

free_peer-evicts_example :
    (pc' : Peer) × (kc' : Pool (Head → List ℕ)) × (free_peer lists calm (client 20) full
      ≡ some (pc', kc'))
    × (kc'.links cache ≡ 0 ∷ 1 ∷ [])
    × (kc'.closed ≡ 3 ∷ 10 ∷ [])
free_peer-evicts_example =
    free_peer-evicts lists lists-laws calm (client 20) full 20 full-IsSound (omega arith) refl refl
      (1 ∷ []) 0 10 refl refl refl

free_peer-get_peer_example :
    (pc' pc2' : Peer) × (kc' kc'' : Pool (Head → List ℕ)) × (free_peer lists calm (client 20) full
      ≡ some (pc', kc'))
    × (get_peer lists calm (client 0) kc' ≡ some (ngx_done, pc2', kc''))
    × (pc2'.connection ≡ some 20)
    × (pc2'.cached ≡ true)
    × ((kc''.conns 20).idle ≡ false)
free_peer-get_peer_example =
    free_peer-get_peer lists lists-laws calm (client 20) full 20 full-IsSound (omega arith) refl
      refl (client 0) full-IsFresh calm-Compares refl refl (omega arith) refl
