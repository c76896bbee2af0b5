-- ===== src/Keepalive/Samples.antt =====
-- Queues that are two plain lists, and a pool of two connections over them.
use ngx_php.Prelude.{
  ℕ, ◌+◌, ◌-◌, ◌≡◌, ◌≢◌, refl, Bool, true, false, some, List, [], ◌∷◌, arith, if◌then◌else◌, erase,
  take, equal, equal_iff,
}
use ngx_php.Keepalive.Queue.{NgxQueue, QueueLaws, Head, cache, free}
use ngx_php.Keepalive.State.{Pool, Events, Peer, Connection, other_handler}
use ngx_php.Keepalive.Live.{Holds, IsSound}
use ngx_php.Keepalive.Store.{IsFresh}
use ngx_php.Keepalive.Order.{Compares}

abbrev pub same_head : Head → Head → Bool
same_head cache cache = true
same_head free free = true
same_head cache free = false
same_head free cache = false

abbrev pub lists : NgxQueue
lists = record {
  Links = Head → List ℕ;
  members = λ l h. l h;
  init = λ h l k. if same_head h k then [] else l k;
  insert_head = λ h x l k. if same_head h k then x ∷ l k else l k;
  remove = λ x l k. erase x (l k);
}

pub same_head_refl : (h : Head) → same_head h h ≡ true
same_head_refl cache = refl
same_head_refl free = refl

pub same_head_ne : (h k : Head) → h ≢ k → same_head h k ≡ false
same_head_ne cache cache n = absurd (n refl)
same_head_ne free free n = absurd (n refl)
same_head_ne cache free n = refl
same_head_ne free cache n = refl

pub lists-laws : QueueLaws lists
lists-laws = record {
  init_self = λ h l. rw (same_head_refl h);
  init_other = λ h k l n. rw (same_head_ne h k n);
  insert_self = λ h x l u. rw (same_head_refl h);
  insert_other = λ h k x l n u. rw (same_head_ne h k n);
  remove_from = λ h x l u. refl;
}

abbrev pub calm : Events
calm = record {
  pcalloc_succeeds = true;
  memn2cmp = λ xs ys n m. equal (take n xs) (take m ys);
  add_event_succeeds = true;
  handle_read_event_succeeds = true;
  recv_blocks = false;
  cycle_log = 1;
}

pub calm-Compares : Compares calm
calm-Compares = record { same = λ xs ys n m. equal_iff (take n xs) (take m ys) }

abbrev pub connected : ℕ → Connection
connected c = record {
  idle = false;
  close = false;
  log = 0;
  pool_log = 0;
  read_log = 0;
  write_log = 0;
  read_ready = true;
  read_timer_set = false;
  write_timer_set = true;
  read_handler = other_handler 0;
  write_handler = other_handler 1;
  data_item = some (c - 10);
}

abbrev pub full_links : Head → List ℕ
full_links cache = 1 ∷ 0 ∷ []
full_links free = []

-- Items 0 and 1 hold connections 10 and 11, and item 1 was used last.
abbrev pub full : Pool (Head → List ℕ)
full = record {
  max_cached = 2;
  links = full_links;
  items = λ i. record { connection = some (10 + i); sockaddr = i ∷ []; socklen = 1 };
  conns = connected;
  closed = 3 ∷ [];
}

pub full-Holds : (i : ℕ) → Holds full i (10 + i)
full-Holds i = record { connection = refl; points_back = ground arith; is_open = ground arith }

pub full-IsSound : IsSound lists full
full-IsSound = record { partition = λ x. ground arith; live = λ i h. (10 + i, full-Holds i) }

abbrev pub client : ℕ → Peer
client c = record {
  connection = some c;
  cached = false;
  sockaddr = 7 ∷ 8 ∷ [];
  socklen = 2;
  log = 5;
}

pub full-IsFresh : IsFresh lists full 20
full-IsFresh = record { unshared = λ i h. ground arith; is_open = refl }
