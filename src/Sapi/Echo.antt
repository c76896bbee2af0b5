-- ===== src/Sapi/Echo.antt =====
-- Sequences of outputs through `ngx_http_php_code_ub_write` of src/ngx_http_php_core.c.
use ngx_php.Prelude.{
  ℕ, ◌+◌, ◌≡◌, refl, ap, ◌∙◌, sym, subst, true, false, none, List, [], ◌∷◌, arith, length,
}
use ngx_php.Prelude.Codes.{ℤ, pos, negsuc}
use ngx_php.Handler.State.{Bytes, Request}
use ngx_php.Handler.Respond.{count_length, set_output_chain, fill_empty, end_chain}
use ngx_php.Handler.Output.{write_all, answer_of, IsEnded, written-answer}
use ngx_php.Sapi.Write.{is_content, ub_write, echo_all}

-- The length of all texts up to each of them.
abbrev pub totals : ℤ → List Bytes → List ℤ
totals n [] = []
totals n (t ∷ ts) = count_length (length t) n ∷ totals (count_length (length t) n) ts

ub_write-writes :
    (t : Bytes) (r : Request)
    → r.slot ≡ true
    → is_content r.ctx.output_type ≡ true
    → ub_write t r ≡ (count_length (length t) r.content_length_n, set_output_chain t r)
unfolding ub_write set_output_chain
ub_write-writes t r slot content = rw (slot, content) refl

echo_all-writes :
    (ts : List Bytes) (r : Request)
    → r.slot ≡ true
    → is_content r.ctx.output_type ≡ true
    → echo_all ts r ≡ (totals r.content_length_n ts, write_all ts r)
unfolding set_output_chain
echo_all-writes [] r slot content = refl
echo_all-writes (t ∷ ts) r slot content =
    let n = count_length (length t) r.content_length_n in
    rw (ub_write-writes t r slot content) (
      ap (λ (p : List ℤ × Request). (n ∷ p.0, p.1))
        (echo_all-writes ts (set_output_chain t r) refl content))

-- The length of all texts up to each of them.
abbrev pub lengths_so_far : ℕ → List Bytes → List ℤ
lengths_so_far k [] = []
lengths_so_far k (t ∷ ts) = pos (k + length t) ∷ lengths_so_far (k + length t) ts

totals-pos : (k : ℕ) (ts : List Bytes) → totals (pos k) ts ≡ lengths_so_far k ts
totals-pos k [] = refl
totals-pos k (t ∷ ts) = ap (pos (k + length t) ∷◌) (totals-pos (k + length t) ts)

totals-first : (ts : List Bytes) → totals (negsuc 0) ts ≡ lengths_so_far 0 ts
totals-first [] = refl
totals-first (t ∷ ts) =
    let first : count_length (length t) (negsuc 0) ≡ pos (0 + length t) = ground arith in
    ap (λ (m : ℤ). m ∷ totals m ts) first
    ∙ ap (pos (0 + length t) ∷◌) (totals-pos (0 + length t) ts)

-- On a request with a context whose output is content, an empty chain and no length set: PHP's
-- outputs, one behind the other, make the answer of their texts in order (a space for none) with its
-- length and its end marked, and each returns the length of all that was put out so far. Without a
-- context an output returns 0 and changes nothing, and where the output is not content it returns
-- the length that is set and changes nothing.
pub echo-answer :
    (ts : List Bytes) (t : Bytes) (r other : Request)
    → r.slot ≡ true
    → is_content r.ctx.output_type ≡ true
    → r.ctx.rputs_chain ≡ none
    → r.content_length_n ≡ negsuc 0
    → is_content other.ctx.output_type ≡ false
    → ((echo_all ts r).0 ≡ lengths_so_far 0 ts)
      × IsEnded (answer_of ts) (end_chain (fill_empty (echo_all ts r).1))
      × (ub_write t (record r { slot = false }) ≡ (pos 0, record r { slot = false }))
      × (ub_write t (record other { slot = true })
          ≡ (other.content_length_n, record other { slot = true }))
unfolding ub_write
echo-answer ts t r other slot content chain n not_content =
    let all = echo_all-writes ts r slot content in
    (
      ap (λ p. p.0) all ∙ ap (λ k. totals k ts) n ∙ totals-first ts,
      subst (λ s. IsEnded (answer_of ts) (end_chain (fill_empty s))) (sym (ap (λ p. p.1) all))
          (written-answer ts r chain n),
      refl,
      rw not_content refl,
    )
