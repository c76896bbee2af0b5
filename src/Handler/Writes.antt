-- ===== src/Handler/Writes.antt =====
-- Sequences of writes through `ngx_http_php_set_output_chain` of src/ngx_http_php_output.c as one
-- change of a request: the chain and the length alone.
use ngx_php.Prelude.{
  ◌≡◌, refl, sym, ap, ◌∙◌, subst, true, Option, none, some, Option-cases, inl, inr, List, [], ◌∷◌,
  ◌++◌, length,
}
use ngx_php.Prelude.Codes.{ℤ, pos, negsuc}
use ngx_php.Handler.State.{Bytes, Link, Request}
use ngx_php.Handler.Respond.{
  count_length, new_link, chain_of, set_output_chain, space, fill_empty, mark_chain, end_chain,
}
use ngx_php.Handler.Output.{texts, flags, last_alone, write_all, answer_of, IsEnded, written-answer}

-- The chain and the length behind a sequence of writes; nothing else of the request changes.
abbrev pub chain_after : List Bytes → Option (List Link) → Option (List Link)
chain_after [] o = o
chain_after (t ∷ ts) o = chain_after ts (some (chain_of o ++ new_link t ∷ []))

abbrev pub length_after : List Bytes → ℤ → ℤ
length_after [] n = n
length_after (t ∷ ts) n = length_after ts (count_length (length t) n)

abbrev pub written : List Bytes → Request → Request
written ts r = record r {
  ctx = record (r.ctx) { rputs_chain = chain_after ts r.ctx.rputs_chain };
  content_length_n = length_after ts r.content_length_n;
}

pub write_all-frame :
    (ts : List Bytes) (r : Request) → r.slot ≡ true → write_all ts r ≡ written ts r
unfolding set_output_chain
write_all-frame [] r slot = refl
write_all-frame (t ∷ ts) r slot = write_all-frame ts (set_output_chain t r) refl ∙ rw slot refl

pub write_all-append :
    (ts us : List Bytes) (r : Request) → write_all us (write_all ts r) ≡ write_all (ts ++ us) r
write_all-append [] us r = refl
write_all-append (t ∷ ts) us r = write_all-append ts us (set_output_chain t r)

pub chain_after-append :
    (ts us : List Bytes) (o : Option (List Link))
    → chain_after us (chain_after ts o) ≡ chain_after (ts ++ us) o
chain_after-append [] us o = refl
chain_after-append (t ∷ ts) us o = chain_after-append ts us (some (chain_of o ++ new_link t ∷ []))

pub length_after-append :
    (ts us : List Bytes) (n : ℤ) → length_after us (length_after ts n) ≡ length_after (ts ++ us) n
length_after-append [] us n = refl
length_after-append (t ∷ ts) us n = length_after-append ts us (count_length (length t) n)

-- The chain and the length that `fill_empty` leaves.
abbrev filled : Option (List Link) → ℤ → Option (List Link) × ℤ
filled none n = (some (new_link space ∷ []), count_length 1 n)
filled (some links) n = (some links, n)

fill_empty-filled :
    (r : Request)
    → ((fill_empty r).ctx.rputs_chain, (fill_empty r).content_length_n)
      ≡ filled r.ctx.rputs_chain r.content_length_n
unfolding fill_empty
fill_empty-filled r = elim (Option-cases r.ctx.rputs_chain) [
  | inl h ↦ rw h refl
  | inr (links, h) ↦ rw h refl
]

abbrev EndedAt : Bytes → Option (List Link) × ℤ → Type 0
EndedAt done (o, n) =
    (texts (chain_of (mark_chain o)) ≡ done)
    × (n ≡ pos (length done))
    × (last_alone (flags (chain_of (mark_chain o))) ≡ true)

-- Requests with the same chain and length send the same answer.
pub IsEnded-same :
    (done : Bytes) (r s : Request)
    → r.ctx.rputs_chain ≡ s.ctx.rputs_chain
    → r.content_length_n ≡ s.content_length_n
    → IsEnded done (end_chain (fill_empty r))
    → IsEnded done (end_chain (fill_empty s))
IsEnded-same done r s chain n h =
    subst (EndedAt done)
      (fill_empty-filled r
        ∙ ap (λ o. filled o r.content_length_n) chain
        ∙ ap (filled s.ctx.rputs_chain) n
        ∙ sym (fill_empty-filled s))
      h

-- Writes on a fresh chain end as their answer.
pub written-IsEnded :
    (ts : List Bytes) (r : Request)
    → r.slot ≡ true
    → r.ctx.rputs_chain ≡ none
    → r.content_length_n ≡ negsuc 0
    → IsEnded (answer_of ts) (end_chain (fill_empty (written ts r)))
written-IsEnded ts r slot chain n =
    subst (λ s. IsEnded (answer_of ts) (end_chain (fill_empty s))) (write_all-frame ts r slot)
      (written-answer ts r chain n)
