-- ===== src/Cookie/Found.antt =====
-- What `ngx_cookie_get` and `ngx_cookie_get_all` of src/php/impl/php_ngx_cookie.c find in the headers
-- of a request.
use ngx_php.Prelude.{
  ◌≡◌, refl, ◌||◌, ◌⊎◌, inl, inr, sym, ap, ◌∙◌, Bool, true, false, not, ◌&&◌, Option, none, some,
  List, [], ◌∷◌, ◌++◌, arith, append-nil,
}
use ngx_php.Cookie.Get.{
  Bytes, Strncasecmp, Header, is_cookie, same_key, cookie_loop, value_start, or_else, get, get_all,
  ngx_cookie_get, ngx_cookie_get_all,
}
use ngx_php.Cookie.Decode.{
  Cookie, is_empty, all_plain, well_formed, render, first_match, loop-plain, value_start-value,
  cookie_loop-render,
}

module _ (strncasecmp : Strncasecmp) where
  -- No header is taken for a Cookie header.
  unfoldable pub no_cookie : List Header → Bool
  no_cookie [] = true
  no_cookie (h ∷ hs) = not (is_cookie strncasecmp h) && no_cookie hs

  get_all-append :
      (hs js : List Header) (r : Option Bytes)
      → get_all strncasecmp (hs ++ js) r ≡ get_all strncasecmp js (get_all strncasecmp hs r)
  unfolding get_all
  get_all-append [] js r = refl
  get_all-append (h ∷ hs) js r = get_all-append hs js _

  get_all-none :
      (hs : List Header) (r : Option Bytes) → no_cookie hs ≡ true → get_all strncasecmp hs r ≡ r
  unfolding get_all no_cookie
  get_all-none [] r e = refl
  get_all-none (h ∷ hs) r e = ground (arith, e, get_all-none hs r)

  module _ (key : Bytes) where
    get-append :
        (hs js : List Header) (r : Option Bytes)
        → get strncasecmp key (hs ++ js) r ≡ get strncasecmp key js (get strncasecmp key hs r)
    unfolding get
    get-append [] js r = refl
    get-append (h ∷ hs) js r = get-append hs js _

    get-none :
        (hs : List Header) (r : Option Bytes) → no_cookie hs ≡ true → get strncasecmp key hs r ≡ r
    unfolding get no_cookie
    get-none [] r e = refl
    get-none (h ∷ hs) r e = ground (arith, e, get-none hs r)

    last_header :
        (before after : List Header) (h : Header)
        → is_cookie strncasecmp h ≡ true
        → no_cookie after ≡ true
        → ngx_cookie_get strncasecmp key (before ++ h ∷ after)
          ≡ or_else
              (cookie_loop strncasecmp key false [] h.value)
              (ngx_cookie_get strncasecmp key before)
    unfolding ngx_cookie_get get
    last_header before after h is lone =
        get-append before (h ∷ after) none ∙ get-none after _ lone ∙ ground (arith, is)

    -- The last Cookie header of a request, if it is a list of cookies, `name=value` with `; ` between
    -- them, whose names are not empty and that hold no other `=` or `;`: `ngx_cookie_get` gives the
    -- value of its first cookie whose name begins as the key, and if there is none, what it gives for
    -- the headers before; `ngx_cookie_get_all` gives the text of that header.
    pub cookie_get-finds :
        (before after : List Header) (h : Header) (cs : List Cookie)
        → is_cookie strncasecmp h ≡ true
        → no_cookie after ≡ true
        → h.value ≡ render cs
        → well_formed cs ≡ true
        → (ngx_cookie_get strncasecmp key (before ++ h ∷ after)
            ≡ or_else (first_match strncasecmp key cs) (ngx_cookie_get strncasecmp key before))
          × (ngx_cookie_get_all strncasecmp (before ++ h ∷ after) ≡ some (render cs))
    unfolding ngx_cookie_get_all get_all
    cookie_get-finds before after h cs is lone text w =
        let decoded =
          ap (cookie_loop strncasecmp key false []) text
          ∙ cookie_loop-render strncasecmp key cs w in
        (
          last_header before after h is lone
              ∙ ap (λ v. or_else v (ngx_cookie_get strncasecmp key before)) decoded,
          get_all-append before (h ∷ after) none ∙ get_all-none after _ lone ∙ rw (is, text) refl,
        )

    value_start-end : (v : Bytes) → all_plain v ≡ true → value_start strncasecmp key true v ≡ some v
    unfolding well_formed first_match cookie_loop
    value_start-end v h =
        ap (value_start strncasecmp key true) (sym (append-nil v))
        ∙ value_start-value strncasecmp key true v [] h refl refl

    -- A value behind which there is another `=`.
    value_start-equals :
        (found : Bool) (front back : Bytes)
        → is_empty front ≡ false
        → all_plain front ≡ true
        → value_start strncasecmp key found (front ++ b'=' ∷ back)
          ≡ value_start strncasecmp key (found || same_key strncasecmp key front) back
    unfolding value_start all_plain cookie_loop
    value_start-equals found [] back some_front f = absurd (ground (arith, some_front))
    value_start-equals found (d ∷ ds) back some_front f =
        let step : value_start strncasecmp key found (d ∷ ds ++ b'=' ∷ back)
            ≡ cookie_loop strncasecmp key found (d ∷ []) (ds ++ b'=' ∷ back) =
          ground (arith, f) in
        step ∙ loop-plain strncasecmp key found (d ∷ []) ds (b'=' ∷ back) (ground (arith, f))

    -- The last Cookie header of a request, if it has one cookie whose value is two texts with a `=`
    -- between them, the first not empty, and no other mark: `ngx_cookie_get` gives the second text
    -- alone if the name, or the first text, begins as the key.
    pub cookie_value-cut :
        (before after : List Header) (h : Header) (name front back : Bytes)
        → is_cookie strncasecmp h ≡ true
        → no_cookie after ≡ true
        → h.value ≡ name ++ b'=' ∷ (front ++ b'=' ∷ back)
        → all_plain name ≡ true
        → all_plain front ≡ true
        → all_plain back ≡ true
        → is_empty front ≡ false
        → (same_key strncasecmp key name ≡ true) ⊎ (same_key strncasecmp key front ≡ true)
        → ngx_cookie_get strncasecmp key (before ++ h ∷ after) ≡ some back
    unfolding cookie_loop
    cookie_value-cut before after h name front back is lone text n f b some_front begins =
        let found = same_key strncasecmp key name in
        let either : found || same_key strncasecmp key front ≡ true = elim begins [
          | inl n_is ↦ rw n_is refl
          | inr f_is ↦ ground (arith, f_is)
        ] in
        let loop : cookie_loop strncasecmp key false [] h.value ≡ some back =
          ap (cookie_loop strncasecmp key false []) text
          ∙ loop-plain strncasecmp key false [] name (b'=' ∷ (front ++ b'=' ∷ back)) n
          ∙ value_start-equals found front back some_front f
          ∙ ap (λ k. value_start strncasecmp key k back) either
          ∙ value_start-end back b in
        last_header before after h is lone
        ∙ ap (λ v. or_else v (ngx_cookie_get strncasecmp key before)) loop
