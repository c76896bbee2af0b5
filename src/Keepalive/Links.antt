-- ===== src/Keepalive/Links.antt =====
-- What the moves of an item between `kc->cache` and `kc->free` do to the two lists.
use ngx_php.Prelude.{
  ℕ, ◌+◌, ◌<◌, ◌≡◌, ◌≢◌, refl, ap, ◌∙◌, some, List, [], ◌∷◌, ◌++◌, arith, ltb, if◌then◌else◌,
  occurs, erase, occurs-erase_self, occurs-erase_ne, occurs-append,
}
use ngx_php.Keepalive.Queue.{NgxQueue, QueueLaws, Head, cache, free, linked, head, last}

-- Each of the `max` items is in one of the two lists, once, and nothing else is.
abbrev pub IsPartition : (q : NgxQueue) → ℕ → q.Links → Type 0
IsPartition q max l = (x : ℕ) → linked q l x ≡ (if ltb x max then 1 else 0)

-- `ngx_queue_remove`, then `ngx_queue_insert_head`.
abbrev pub moved : (q : NgxQueue) → Head → ℕ → q.Links → q.Links
moved q h i l = q.insert_head h i (q.remove i l)

moved-count :
    (i x : ℕ) (xs ys : List ℕ)
    → occurs i xs + occurs i ys ≡ 1
    → occurs x (i ∷ erase i xs) + occurs x (erase i ys) ≡ occurs x xs + occurs x ys
moved-count i x xs ys h = ground (
  arith,
  occurs-erase_self i xs,
  occurs-erase_self i ys,
  occurs-erase_ne i x xs,
  occurs-erase_ne i x ys,
)

module _ (q : NgxQueue) (laws : QueueLaws q) (l : q.Links) (i : ℕ) (held : linked q l i ≡ 1) where
  removed-unlinked : linked q (q.remove i l) i ≡ 0
  removed-unlinked =
      rw (laws.remove_from cache i l held, laws.remove_from free i l held)
        (omega
          (arith, occurs-erase_self i (q.members l cache), occurs-erase_self i (q.members l free)))

  pub members-moved : (h : Head) → q.members (moved q h i l) h ≡ i ∷ erase i (q.members l h)
  members-moved h =
      laws.insert_self h i (q.remove i l) removed-unlinked
      ∙ ap (◌∷◌ i) (laws.remove_from h i l held)

  pub members-moved_other :
      (h k : Head) → h ≢ k → q.members (moved q h i l) k ≡ erase i (q.members l k)
  members-moved_other h k other =
      laws.insert_other h k i (q.remove i l) other removed-unlinked ∙ laws.remove_from k i l held

  pub linked-moved : (h : Head) (x : ℕ) → linked q (moved q h i l) x ≡ linked q l x
  linked-moved cache x =
      rw (members-moved cache, members-moved_other cache free (λ e. cc))
        (moved-count i x (q.members l cache) (q.members l free) held)
  linked-moved free x =
      rw (members-moved free, members-moved_other free cache (λ e. cc))
        (omega
          (arith, moved-count i x (q.members l free) (q.members l cache) (omega (arith, held))))

  pub moved-IsPartition :
      (h : Head) (max : ℕ) → IsPartition q max l → IsPartition q max (moved q h i l)
  moved-IsPartition h max p x = linked-moved h x ∙ p x

-- An item of a list is one of the `max`, and is linked once.
pub linked-of-occurs :
    (q : NgxQueue) (l : q.Links) (max i : ℕ)
    → IsPartition q max l
    → 0 < linked q l i
    → linked q l i ≡ 1
linked-of-occurs q l max i p h = ground (arith, p i)

pub occurs-head : (xs : List ℕ) (i : ℕ) → head xs ≡ some i → 0 < occurs i xs
occurs-head [] i h = cc
occurs-head (x ∷ xs) i h = ground arith

-- The last of a list, and what is in front of it.
pub last-split :
    (xs : List ℕ) (i : ℕ) → last xs ≡ some i → (front : List ℕ) × (xs ≡ front ++ i ∷ [])
last-split [] i h = cc
last-split (x ∷ []) i h = ([], ground arith)
last-split (x ∷ y ∷ ys) i h = let (front, e) = last-split (y ∷ ys) i h in (x ∷ front, ap (◌∷◌ x) e)

pub occurs-last : (xs : List ℕ) (i : ℕ) → last xs ≡ some i → 0 < occurs i xs
occurs-last xs i h =
    let (front, e) = last-split xs i h in rw e (ground (arith, occurs-append i front (i ∷ [])))

pub erase-last :
    (front : List ℕ) (i : ℕ) → occurs i (front ++ i ∷ []) ≡ 1 → erase i (front ++ i ∷ []) ≡ front
erase-last [] i h = ground arith
erase-last (x ∷ front) i h = ground (arith, erase-last front i, occurs-append i front (i ∷ []))

pub last-some : (xs : List ℕ) (x : ℕ) → 0 < occurs x xs → (i : ℕ) × (last xs ≡ some i)
last-some [] x h = absurd (omega arith)
last-some (y ∷ []) x h = (y, refl)
last-some (y ∷ z ∷ zs) x h = let (i, e) = last-some (z ∷ zs) z (ground arith) in (i, e)

pub last-append : (front : List ℕ) (i : ℕ) → last (front ++ i ∷ []) ≡ some i
last-append [] i = refl
last-append (x ∷ []) i = refl
last-append (x ∷ y ∷ front) i = last-append (y ∷ front) i
