-- ===== src/Cookie/Decode.antt =====
-- The loop of `ngx_cookie_get` of src/php/impl/php_ngx_cookie.c at the text of a list of cookies.
use ngx_php.Prelude.{
  ◌≡◌, refl, ◌∙◌, Bool, true, false, ◌&&◌, Option, none, some, List, [], ◌∷◌, ◌++◌, arith,
  append-nil, append_assoc, if◌then◌else◌,
}
use ngx_php.Cookie.Get.{
  Bytes, Strncasecmp, Sign, plain, sign_of, same_key, cookie_loop, value_start, name_start,
  first_byte,
}

pub record Cookie : Type 0 where
  pub name : Bytes
  pub value : Bytes

abbrev pub is_plain : Sign → Bool
is_plain plain = true
is_plain _ = false

-- Neither `=` nor `;`.
unfoldable pub all_plain : Bytes → Bool
all_plain [] = true
all_plain (b ∷ bs) = is_plain (sign_of b) && all_plain bs

abbrev pub is_empty : Bytes → Bool
is_empty [] = true
is_empty (b ∷ bs) = false

-- Names are not empty, and no name or value has a mark.
unfoldable pub well_formed : List Cookie → Bool
well_formed [] = true
well_formed (c ∷ cs) =
    (if is_empty c.name then false else all_plain c.name && all_plain c.value) && well_formed cs

-- `; name=value` for each.
abbrev pub render_more : List Cookie → Bytes
render_more [] = []
render_more (c ∷ cs) = b';' ∷ b' ' ∷ (c.name ++ b'=' ∷ (c.value ++ render_more cs))

-- `name=value; name=value`
abbrev pub render : List Cookie → Bytes
render [] = []
render (c ∷ cs) = c.name ++ b'=' ∷ (c.value ++ render_more cs)

module _ (strncasecmp : Strncasecmp) (key : Bytes) where
  -- The value of the first cookie whose name begins as the key, as `ngx_strncasecmp` compares as
  -- many bytes as the key has.
  unfoldable pub first_match : List Cookie → Option Bytes
  first_match [] = none
  first_match (c ∷ cs) = if same_key strncasecmp key c.name then some c.value else first_match cs

  pub loop-plain :
      (found : Bool) (p xs ys : Bytes)
      → all_plain xs ≡ true
      → cookie_loop strncasecmp key found p (xs ++ ys)
        ≡ cookie_loop strncasecmp key found (p ++ xs) ys
  unfolding all_plain cookie_loop
  loop-plain found p [] ys h = rw append-nil refl
  loop-plain found p (x ∷ xs) ys h =
      ground (arith, loop-plain found (p ++ x ∷ []) xs ys, append_assoc p (x ∷ []) xs, h)

  first_byte-plain :
      (name ys : Bytes)
      → is_empty name ≡ false
      → all_plain name ≡ true
      → first_byte strncasecmp key (name ++ ys) ≡ cookie_loop strncasecmp key false [] (name ++ ys)
  unfolding all_plain cookie_loop first_byte
  first_byte-plain [] ys some_name h = absurd (ground (arith, some_name))
  first_byte-plain (n ∷ ns) ys some_name h = ground (arith, h)

  name_start-render :
      (c : Cookie) (cs : List Cookie)
      → well_formed (c ∷ cs) ≡ true
      → name_start strncasecmp key (b' ' ∷ render (c ∷ cs))
        ≡ cookie_loop strncasecmp key false [] (render (c ∷ cs))
  unfolding well_formed name_start
  name_start-render c cs h =
      first_byte-plain c.name (b'=' ∷ (c.value ++ render_more cs)) (ground (arith, h))
        (ground (arith, h))

  -- A value that has ended, where the cookies behind it are read as they should be.
  loop-value :
      (found : Bool) (p : Bytes) (cs : List Cookie)
      → well_formed cs ≡ true
      → cookie_loop strncasecmp key false [] (render cs) ≡ first_match cs
      → cookie_loop strncasecmp key found p (render_more cs)
        ≡ (if found then some p else first_match cs)
  unfolding cookie_loop
  loop-value found p [] h ih = unfold first_match in (ground arith)
  loop-value true p (c ∷ cs) h ih = refl
  loop-value false p (c ∷ cs) h ih = name_start-render c cs h ∙ ih

  pub value_start-value :
      (found : Bool) (v : Bytes) (cs : List Cookie)
      → all_plain v ≡ true
      → well_formed cs ≡ true
      → cookie_loop strncasecmp key false [] (render cs) ≡ first_match cs
      → value_start strncasecmp key found (v ++ render_more cs)
        ≡ (if found then some v else first_match cs)
  unfolding value_start all_plain
  value_start-value found [] [] h w ih = unfold first_match in (ground arith)
  value_start-value true [] (c ∷ cs) h w ih = refl
  value_start-value false [] (c ∷ cs) h w ih = name_start-render c cs w ∙ ih
  value_start-value found (d ∷ v) cs h w ih =
      let step : value_start strncasecmp key found (d ∷ v ++ render_more cs)
          ≡ cookie_loop strncasecmp key found (d ∷ []) (v ++ render_more cs) =
        ground (arith, h) in
      step
      ∙ loop-plain found (d ∷ []) v (render_more cs) (ground (arith, h))
      ∙ loop-value found (d ∷ v) cs w ih

  -- Cookies that are written one behind the other are read: the loop gives the value of the first
  -- whose name begins as the key, or nothing.
  pub cookie_loop-render :
      (cs : List Cookie)
      → well_formed cs ≡ true
      → cookie_loop strncasecmp key false [] (render cs) ≡ first_match cs
  unfolding well_formed first_match cookie_loop
  cookie_loop-render [] h = refl
  cookie_loop-render (c ∷ cs) h =
      loop-plain false [] c.name (b'=' ∷ (c.value ++ render_more cs)) (ground (arith, h))
      ∙ value_start-value (same_key strncasecmp key c.name) c.value cs (ground (arith, h))
          (ground (arith, h)) (cookie_loop-render cs (ground (arith, h)))
