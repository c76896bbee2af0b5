-- ===== src/Keepalive/State.antt =====
-- The structures of src/ngx_http_php_keepalive.h, and the fields of nginx's connections and peers
-- that src/ngx_http_php_keepalive.c reads or writes.
use ngx_php.Prelude.{ℕ, Bool, Option, List, ◌==◌, if◌then◌else◌}

abbrev pub Bytes : Type 0
Bytes = List ℕ

pub data Handler : Type 0 where
  dummy_handler close_handler : Handler
  other_handler : ℕ → Handler

-- `ngx_connection_t`; `data` is the item that `c->data` points to, if it points to one.
pub record Connection : Type 0 where
  pub idle : Bool
  pub close : Bool
  pub log : ℕ
  pub pool_log : ℕ
  pub read_log : ℕ
  pub write_log : ℕ
  pub read_ready : Bool
  pub read_timer_set : Bool
  pub write_timer_set : Bool
  pub read_handler : Handler
  pub write_handler : Handler
  pub data_item : Option ℕ

-- `ngx_http_php_keepalive_cache_t`; `connection` is `none` where the pointer is NULL.
pub record Item : Type 0 where
  pub connection : Option ℕ
  pub sockaddr : Bytes
  pub socklen : ℕ

-- `ngx_peer_connection_t`
pub record Peer : Type 0 where
  pub connection : Option ℕ
  pub cached : Bool
  pub sockaddr : Bytes
  pub socklen : ℕ
  pub log : ℕ

-- `ngx_http_php_keepalive_conf_t` over the links `L`, with the memory of its items, the
-- connections by number, and those closed so far.
pub record Pool (L : Type 0) : Type 0 where
  pub max_cached : ℕ
  pub links : L
  pub items : ℕ → Item
  pub conns : ℕ → Connection
  pub closed : List ℕ

-- A write to one cell of a memory.
abbrev pub put {ℓ} : {A : Type ℓ} → (ℕ → A) → ℕ → A → ℕ → A
put f i v j = if j == i then v else f j

-- What nginx and the kernel answer. `memn2cmp` is `ngx_memn2cmp(...) == 0`; `recv_blocks` is a
-- `recv` of -1 with NGX_EAGAIN.
pub record Events : Type 0 where
  pub pcalloc_succeeds : Bool
  pub memn2cmp : Bytes → Bytes → ℕ → ℕ → Bool
  pub add_event_succeeds : Bool
  pub handle_read_event_succeeds : Bool
  pub recv_blocks : Bool
  pub cycle_log : ℕ
