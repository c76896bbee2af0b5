-- ===== src/Headers/Found.antt =====
-- What `ngx_header_get` reads behind `ngx_header_set` and `ngx_cookie_set`.
use ngx_php.Prelude.{
  ◌≡◌, refl, sym, ap, ◌∙◌, true, false, Option, none, some, Option-cases, inl, inr, List, [], ◌∷◌,
  ◌++◌, arith, length,
}
use ngx_php.Handler.State.{Bytes}
use ngx_php.Cookie.Get.{Strncasecmp}
use ngx_php.Headers.State.{Elt, HeadersOut, Zval, is_true, is_string}
use ngx_php.Headers.Functions.{
  push, is_content_type, is_content_length, ngx_header_set, first_header, ngx_header_get,
}

-- A text has the bytes of itself.
pub record Compares (strncasecmp : Strncasecmp) : Type 0 where
  pub same : (a : Bytes) → strncasecmp a a (length a) ≡ true

-- The first of two values that is there.
abbrev pub first_of : Option Bytes → Bytes → Zval
first_of none v = is_string v
first_of (some w) v = is_string w

module _ (strncasecmp : Strncasecmp) where
  first_header-push :
      (key v : Bytes) (hs : List Elt)
      → strncasecmp key key (length key) ≡ true
      → first_header strncasecmp true key (hs ++ record { key = key; value = v } ∷ [])
        ≡ elim (first_header strncasecmp true key hs) [ none ↦ some v | some w ↦ some w ]
  unfolding first_header
  first_header-push key v [] same = ground (arith, same)
  first_header-push key v (h ∷ hs) same = ground (arith, first_header-push key v hs same)

  pub get-push :
      (key v : Bytes) (r : HeadersOut)
      → strncasecmp key key (length key) ≡ true
      → is_content_type strncasecmp true key ≡ false
      → ngx_header_get strncasecmp true key (push (record { key = key; value = v }) r)
        ≡ first_of (first_header strncasecmp true key r.headers) v
  unfolding ngx_header_get
  get-push key v r same other = ground (arith, first_header-push key v r.headers same, other)

  push-first :
      (key v w : Bytes) (r : HeadersOut)
      → strncasecmp key key (length key) ≡ true
      → first_of
          (first_header strncasecmp true key (r.headers ++ record { key = key; value = v } ∷ []))
          w
        ≡ first_of (first_header strncasecmp true key r.headers) v
  push-first key v w r same =
      ap (λ o. first_of o w) (first_header-push key v r.headers same)
      ∙ elim (Option-cases (first_header strncasecmp true key r.headers)) [
        | inl none_yet ↦ rw none_yet refl
        | inr (x, there) ↦ rw there refl
      ]

  -- Where the list of headers grows and a text equals itself, for a key that is neither that of the
  -- content type nor that of the content length: behind a write of a text, a read gives the value
  -- of the first header that was there before with such a key, or else the text; and a second write
  -- under the key does not change what is read.
  pub header_set-get :
      (c : Compares strncasecmp) (key v w : Bytes) (r : HeadersOut)
      → is_content_type strncasecmp true key ≡ false
      → is_content_length strncasecmp true key ≡ false
      → (r' : HeadersOut) × (r'' : HeadersOut) × (ngx_header_set strncasecmp true key
            (is_string v)
            r
          ≡ some (is_true, r'))
        × (ngx_header_set strncasecmp true key (is_string w) r' ≡ some (is_true, r''))
        × (ngx_header_get strncasecmp true key r'
            ≡ first_of (first_header strncasecmp true key r.headers) v)
        × (ngx_header_get strncasecmp true key r'' ≡ ngx_header_get strncasecmp true key r')
  unfolding ngx_header_set
  header_set-get c key v w r type len =
      let r' = push (record { key = key; value = v }) r in
      (
        r',
        push (record { key = key; value = w }) r',
        ground (arith, type, len),
        ground (arith, type, len),
        get-push key v r (c.same key) type,
        get-push key w r' (c.same key) type
            ∙ push-first key v w r (c.same key)
            ∙ sym (get-push key v r (c.same key) type),
      )
