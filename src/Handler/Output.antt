-- ===== src/Handler/Output.antt =====
-- The output chain that PHP's writes build through `ngx_http_php_set_output_chain` of
-- src/ngx_http_php_output.c, up to the call of the body filters.
use ngx_php.Prelude.{
  ℕ, ◌+◌, ◌≡◌, refl, sym, ap, ◌∙◌, subst, Bool, true, false, Option, none, some, List, [], ◌∷◌,
  ◌++◌, append-nil, append_assoc, arith, length, length-append, if◌then◌else◌,
}
use ngx_php.Prelude.Codes.{pos, negsuc}
use ngx_php.Handler.State.{Bytes, Link, Request}
use ngx_php.Handler.Respond.{
  count_length, new_link, chain_of, set_output_chain, space, fill_empty, mark_last, mark_chain,
  end_chain,
}
use ngx_php.Handler.Body.{flat}

-- What the links hold together, and what the whole chain of a request holds.
abbrev pub texts : List Link → Bytes
texts [] = []
texts (x ∷ xs) = x.text ++ texts xs

abbrev pub text_of : Request → Bytes
text_of r = texts (chain_of r.ctx.rputs_chain)

-- The flags `last_buf` of the links.
abbrev pub flags : List Link → List Bool
flags [] = []
flags (x ∷ xs) = x.last_buf ∷ flags xs

-- A chain whose last link alone is marked.
abbrev pub last_alone : List Bool → Bool
last_alone [] = false
last_alone (f ∷ []) = f
last_alone (f ∷ g ∷ gs) = if f then false else last_alone (g ∷ gs)

abbrev pub unmarked : List Link → Bool
unmarked [] = true
unmarked (x ∷ xs) = if x.last_buf then false else unmarked xs

-- A sequence of writes, as PHP's `echo` makes them.
abbrev pub write_all : List Bytes → Request → Request
write_all [] r = r
write_all (t ∷ ts) r = write_all ts (set_output_chain t r)

-- The answer that the writes make: a space where there is none.
abbrev pub answer_of : List Bytes → Bytes
answer_of [] = space
answer_of (t ∷ ts) = flat (t ∷ ts)

texts-append : (xs ys : List Link) → texts (xs ++ ys) ≡ texts xs ++ texts ys
texts-append [] ys = refl
texts-append (x ∷ xs) ys = simp (texts-append xs ys, append_assoc)

texts-mark_last : (xs : List Link) → texts (mark_last xs) ≡ texts xs
texts-mark_last [] = refl
texts-mark_last (x ∷ []) = refl
texts-mark_last (x ∷ y ∷ ys) = ap (x.text ++◌) (texts-mark_last (y ∷ ys))

unmarked-append :
    (xs ys : List Link) → unmarked xs ≡ true → unmarked ys ≡ true → unmarked (xs ++ ys) ≡ true
unmarked-append [] ys h k = k
unmarked-append (x ∷ xs) ys h k = ground (arith, unmarked-append xs ys)

last_alone-mark_last :
    (x : Link) (xs : List Link)
    → unmarked (x ∷ xs) ≡ true
    → last_alone (flags (mark_last (x ∷ xs))) ≡ true
last_alone-mark_last x [] h = refl
last_alone-mark_last x (y ∷ []) h = ground arith
last_alone-mark_last x (y ∷ z ∷ zs) h = ground (arith, last_alone-mark_last y (z ∷ zs))

length-write : (len n : ℕ) → count_length len (pos n) ≡ pos (n + len)
length-write len n = refl

length-first : (len : ℕ) → count_length len (negsuc 0) ≡ pos len
length-first len = ground arith

-- A chain that is being built: its text, its length, and no link marked.
abbrev pub IsBuilt : Bytes → Request → Type 0
IsBuilt done r =
    ((x : Link) × (xs : List Link) × (r.ctx.rputs_chain ≡ some (x ∷ xs)))
    × (text_of r ≡ done)
    × (r.content_length_n ≡ pos (length done))
    × (unmarked (chain_of r.ctx.rputs_chain) ≡ true)

first-IsBuilt :
    (t : Bytes) (r : Request)
    → r.ctx.rputs_chain ≡ none
    → r.content_length_n ≡ negsuc 0
    → IsBuilt t (set_output_chain t r)
unfolding set_output_chain
first-IsBuilt t r chain n = (
  (new_link t, [], rw chain refl),
  simp (chain, append-nil),
  simp (n, length-first (length t)),
  simp chain,
)

write-IsBuilt :
    (done t : Bytes) (r : Request) → IsBuilt done r → IsBuilt (done ++ t) (set_output_chain t r)
unfolding set_output_chain
write-IsBuilt done t r ((x, xs, chain), text, n, plain) = (
  (x, xs ++ new_link t ∷ [], rw chain refl),
  texts-append (chain_of r.ctx.rputs_chain) (new_link t ∷ []) ∙ simp (text, append-nil),
  simp (n, length-append done t),
  unmarked-append (chain_of r.ctx.rputs_chain) (new_link t ∷ []) plain refl,
)

write_all-IsBuilt :
    (ts : List Bytes) (done : Bytes) (r : Request)
    → IsBuilt done r
    → IsBuilt (done ++ flat ts) (write_all ts r)
write_all-IsBuilt [] done r h = subst (λ d. IsBuilt d r) (sym (append-nil done)) h
write_all-IsBuilt (t ∷ ts) done r h =
    subst (λ d. IsBuilt d (write_all (t ∷ ts) r)) (append_assoc done t (flat ts))
      (write_all-IsBuilt ts (done ++ t) (set_output_chain t r) (write-IsBuilt done t r h))

fill_empty-built :
    (x : Link) (xs : List Link) (r : Request) → r.ctx.rputs_chain ≡ some (x ∷ xs) → fill_empty r ≡ r
unfolding fill_empty
fill_empty-built x xs r chain = rw chain refl

empty-IsBuilt :
    (r : Request)
    → r.ctx.rputs_chain ≡ none
    → r.content_length_n ≡ negsuc 0
    → IsBuilt space (fill_empty r)
unfolding fill_empty
empty-IsBuilt r chain n = rw (chain, n) ((new_link space, [], refl), refl, refl, refl)

-- What the filters get of a chain that is built.
abbrev pub IsEnded : Bytes → Request → Type 0
IsEnded done r =
    (text_of r ≡ done)
    × (r.content_length_n ≡ pos (length done))
    × (last_alone (flags (chain_of r.ctx.rputs_chain)) ≡ true)

mark-ended :
    (x : Link) (xs : List Link) (o : Option (List Link))
    → o ≡ some (x ∷ xs)
    → unmarked (chain_of o) ≡ true
    → last_alone (flags (chain_of (mark_chain o))) ≡ true
mark-ended x xs o chain plain =
    rw chain (last_alone-mark_last x xs (subst (λ o. unmarked (chain_of o) ≡ true) chain plain))

texts-mark_chain : (o : Option (List Link)) → texts (chain_of (mark_chain o)) ≡ texts (chain_of o)
texts-mark_chain none = refl
texts-mark_chain (some xs) = texts-mark_last xs

end_chain-IsEnded : (done : Bytes) (r : Request) → IsBuilt done r → IsEnded done (end_chain r)
end_chain-IsEnded done r ((x, xs, chain), text, n, plain) =
    (texts-mark_chain r.ctx.rputs_chain ∙ text, n, mark-ended x xs r.ctx.rputs_chain chain plain)

pub fill_empty-IsEnded :
    (done : Bytes) (r : Request) → IsBuilt done r → IsEnded done (end_chain (fill_empty r))
fill_empty-IsEnded done r h =
    subst (λ s. IsEnded done (end_chain s)) (sym (fill_empty-built h.0.0 h.0.1 r h.0.2))
      (end_chain-IsEnded done r h)

-- An answer that PHP begins on an empty chain with no length set: after any sequence of writes,
-- and the space in place of none, the links that go to the body filters hold the written texts
-- in their order, the announced length is theirs, and the last link alone is marked as the end.
pub written-answer :
    (ts : List Bytes) (r : Request)
    → r.ctx.rputs_chain ≡ none
    → r.content_length_n ≡ negsuc 0
    → IsEnded (answer_of ts) (end_chain (fill_empty (write_all ts r)))
written-answer [] r chain n = end_chain-IsEnded space (fill_empty r) (empty-IsBuilt r chain n)
written-answer (t ∷ ts) r chain n =
    fill_empty-IsEnded (t ++ flat ts) (write_all (t ∷ ts) r)
      (write_all-IsBuilt ts t (set_output_chain t r) (first-IsBuilt t r chain n))
