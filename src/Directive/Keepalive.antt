-- ===== src/Directive/Keepalive.antt =====
-- `ngx_http_php_conf_keepalive` and `ngx_http_php_conf_socket_keepalive` of
-- src/ngx_http_php_directive.c: a server's pool of idle connections.
use ngx_php.Prelude.{
  ℕ, suc, ◌-◌, ◌^◌, ◌≡◌, refl, true, Option, none, some, [], length, if◌then◌else◌,
}
use ngx_php.Prelude.Codes.{ℤ, pos, negsuc, ◌==ℤ◌, ngx_error}
use ngx_php.Directive.State.{Bytes}
use ngx_php.Directive.Setters.{Args, is_duplicated}
use ngx_php.ConfFile.Parse.{Reply, conf_ok, message}
use ngx_php.Keepalive.Queue.{NgxQueue, QueueLaws, cache, free}
use ngx_php.Keepalive.State.{Pool, Events}
use ngx_php.Keepalive.Ops.{keepalive_init}
use ngx_php.Keepalive.Live.{IsSound, keepalive_init-IsSound}

-- `ngx_http_php_srv_conf_t`; the pool is `none` where the pointer is NULL.
pub record SrvConf (L : Type 0) : Type 0 where
  pub keepalive_conf : Option (Pool L)

-- `(ngx_uint_t) keepalive_size`, on 64 bits.
abbrev pub as_size : ℤ → ℕ
as_size (pos n) = n
as_size (negsuc n) = 2 ^ 64 - suc n

module _ (q : NgxQueue) where
  -- The pool is started again whatever its start gives; without a pool it reads through NULL.
  unfoldable pub conf_keepalive :
      (Bytes → ℕ → ℤ) → Events → Args → SrvConf q.Links → Option (Reply × SrvConf q.Links)
  conf_keepalive ngx_atoi ev args s =
      let size = ngx_atoi (args 1).text (args 1).len in
      if size ==ℤ ngx_error then some (message is_duplicated, s) else elim s.keepalive_conf [
        | none ↦ none
        | some kc ↦
            let (rc, kc') = keepalive_init q ev (record kc { max_cached = as_size size }) in
            some (conf_ok, record { keepalive_conf = some kc' })
      ]

  -- With queues that obey nginx's laws, when memory is found and `ngx_atoi` reads a number `n`:
  -- `php_keepalive` and `php_socket_keepalive` give the server a sound pool with nothing cached and
  -- `n` free items, whatever was in its pool before, and answer NGX_CONF_OK.
  pub conf_keepalive-IsSound :
      (laws : QueueLaws q) (ngx_atoi : Bytes → ℕ → ℤ) (ev : Events) (args : Args)
      (kc : Pool q.Links) (n : ℕ)
      → ev.pcalloc_succeeds ≡ true
      → ngx_atoi (args 1).text (args 1).len ≡ pos n
      → (kc' : Pool q.Links) × (conf_keepalive ngx_atoi ev args
            (record { keepalive_conf = some kc })
          ≡ some (conf_ok, record { keepalive_conf = some kc' }))
        × IsSound q kc'
        × (q.members kc'.links cache ≡ [])
        × (length (q.members kc'.links free) ≡ n)
  unfolding conf_keepalive
  conf_keepalive-IsSound laws ngx_atoi ev args kc n a read =
      let (_, sound, cached, room) =
        keepalive_init-IsSound q laws ev (record kc { max_cached = n }) a in
      ((keepalive_init q ev (record kc { max_cached = n })).1, rw read refl, sound, cached, room)
