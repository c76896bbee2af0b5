-- ===== src/Keepalive/Queue.antt =====
-- nginx's `ngx_queue_t`, which src/ngx_http_php_keepalive.c uses and does not define: two list
-- heads and intrusive links, as operations on all the links at once, with their documented laws.
use ngx_php.Prelude.{
  ℕ, ◌+◌, ◌≡◌, ◌≢◌, List, [], ◌∷◌, Option, none, some, Bool, true, false, occurs, erase,
}

-- `kc->cache` and `kc->free`
pub data Head : Type 0 where
  cache free : Head

-- `members l h` is what a walk from ngx_queue_head by ngx_queue_next meets before the sentinel.
pub record NgxQueue : Type 1 where
  pub Links : Type 0
  pub members : Links → Head → List ℕ
  pub init : Head → Links → Links
  pub insert_head : Head → ℕ → Links → Links
  pub remove : ℕ → Links → Links

abbrev pub linked : (q : NgxQueue) → q.Links → ℕ → ℕ
linked q l x = occurs x (q.members l cache) + occurs x (q.members l free)

-- Insertion is lawful for an element in no list, removal for one that is in a list once.
pub record QueueLaws (q : NgxQueue) : Type 0 where
  pub init_self : (h : Head) (l : q.Links) → q.members (q.init h l) h ≡ []
  pub init_other : (h k : Head) (l : q.Links) → h ≢ k → q.members (q.init h l) k ≡ q.members l k
  pub insert_self :
      (h : Head) (x : ℕ) (l : q.Links)
      → linked q l x ≡ 0
      → q.members (q.insert_head h x l) h ≡ x ∷ q.members l h
  pub insert_other :
      (h k : Head) (x : ℕ) (l : q.Links)
      → h ≢ k
      → linked q l x ≡ 0
      → q.members (q.insert_head h x l) k ≡ q.members l k
  pub remove_from :
      (h : Head) (x : ℕ) (l : q.Links)
      → linked q l x ≡ 1
      → q.members (q.remove x l) h ≡ erase x (q.members l h)

-- `ngx_queue_empty`, `ngx_queue_head` and `ngx_queue_last` by the walk; `none` is the sentinel.
abbrev pub is_empty : List ℕ → Bool
is_empty [] = true
is_empty (x ∷ xs) = false

abbrev pub head : List ℕ → Option ℕ
head [] = none
head (x ∷ xs) = some x

abbrev pub last : List ℕ → Option ℕ
last [] = none
last (x ∷ []) = some x
last (x ∷ y ∷ ys) = last (y ∷ ys)
