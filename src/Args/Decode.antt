-- ===== src/Args/Decode.antt =====
-- The functions of Args/Scan at texts of `name=value` with `&` between them.
use ngx_php.Prelude.{
  ◌≡◌, refl, ap, ◌∙◌, Bool, true, false, ◌&&◌, not, Option, none, some, List, [], ◌∷◌, ◌++◌, arith,
  append-nil, append_assoc, if◌then◌else◌, ◌==◌, equal,
}
use ngx_php.Handler.State.{Bytes}
use ngx_php.Args.Scan.{PhpArray, Sign, plain, sign_of, scan, behind_mark, ngx_query_args}

pub record Pair : Type 0 where
  pub name : Bytes
  pub value : Bytes

abbrev pub is_plain : Sign → Bool
is_plain plain = true
is_plain _ = false

-- Neither `=` nor `&`.
unfoldable pub all_plain : Bytes → Bool
all_plain [] = true
all_plain (b ∷ bs) = is_plain (sign_of b) && all_plain bs

abbrev pub is_empty : Bytes → Bool
is_empty [] = true
is_empty (b ∷ bs) = false

unfoldable pub no_nul : Bytes → Bool
no_nul [] = true
no_nul (b ∷ bs) = not (b == 0) && no_nul bs

-- A name is not empty and has no NUL, and no name or value has a mark.
abbrev pub is_pair : Pair → Bool
is_pair c = not (is_empty c.name) && (no_nul c.name && (all_plain c.name && all_plain c.value))

unfoldable pub well_formed : List Pair → Bool
well_formed [] = true
well_formed (c ∷ cs) = is_pair c && well_formed cs

-- `&name=value` for each.
abbrev pub render_more : List Pair → Bytes
render_more [] = []
render_more (c ∷ cs) = b'&' ∷ (c.name ++ b'=' ∷ (c.value ++ render_more cs))

-- `name=value&name=value`
abbrev pub render : List Pair → Bytes
render [] = []
render (c ∷ cs) = c.name ++ b'=' ∷ (c.value ++ render_more cs)

-- The value of the last pair with the name.
abbrev pub last_value : Bytes → List Pair → Option Bytes → Option Bytes
last_value k [] got = got
last_value k (c ∷ cs) got = last_value k cs (if equal k c.name then some c.value else got)

-- What PHP's arrays do with names that have no NUL.
pub record ArrayLaws (php : PhpArray) : Type 0 where
  pub find-array_init : (k : Bytes) → php.find k php.array_init ≡ none
  pub find-add_assoc :
      (k j v : Bytes) (array : php.Array)
      → no_nul k ≡ true
      → no_nul j ≡ true
      → php.find k (php.add_assoc j v array) ≡ (if equal k j then some v else php.find k array)

module _ (php : PhpArray) where
  open php use {Array, array_init, add_assoc, find}

  abbrev pub add_all : List Pair → Array → Array
  add_all [] array = array
  add_all (c ∷ cs) array = add_all cs (add_assoc c.name c.value array)

  pub find-add_all :
      (laws : ArrayLaws php) (k : Bytes) (cs : List Pair) (array : Array)
      → no_nul k ≡ true
      → well_formed cs ≡ true
      → find k (add_all cs array) ≡ last_value k cs (find k array)
  unfolding well_formed
  find-add_all laws k [] array nul w = refl
  find-add_all laws k (c ∷ cs) array nul w =
      find-add_all laws k cs (add_assoc c.name c.value array) nul (ground (arith, w))
      ∙ ap (last_value k cs) (laws.find-add_assoc k c.name c.value array nul (ground (arith, w)))

  pub scan-plain :
      (v : Bool) (key : Option Bytes) (p xs ys : Bytes) (array : Array)
      → all_plain xs ≡ true
      → scan php v key p array (xs ++ ys) ≡ scan php v key (p ++ xs) array ys
  unfolding all_plain scan
  scan-plain v key p [] ys array h = rw append-nil refl
  scan-plain v key p (x ∷ xs) ys array h =
      ground (arith, scan-plain v key (p ++ x ∷ []) xs ys array, append_assoc p (x ∷ []) xs, h)

  pub behind_mark-plain :
      (v : Bool) (key : Option Bytes) (xs ys : Bytes) (array : Array)
      → is_empty xs ≡ false
      → all_plain xs ≡ true
      → behind_mark php v key array (xs ++ ys) ≡ scan php v key xs array ys
  unfolding all_plain behind_mark
  behind_mark-plain v key [] ys array some_text h = absurd (ground (arith, some_text))
  behind_mark-plain v key (x ∷ xs) ys array some_text h =
      let step : behind_mark php v key array (x ∷ xs ++ ys)
          ≡ scan php v key (x ∷ []) array (xs ++ ys) =
        ground (arith, h) in
      step ∙ scan-plain v key (x ∷ []) xs ys array (ground (arith, h))

  pub behind_mark-name :
      (v : Bool) (key : Option Bytes) (name ys : Bytes) (array : Array)
      → is_empty name ≡ false
      → all_plain name ≡ true
      → behind_mark php v key array (name ++ b'=' ∷ ys) ≡ behind_mark php true (some name) array ys
  unfolding scan
  behind_mark-name v key name ys array some_text h =
      behind_mark-plain v key name (b'=' ∷ ys) array some_text h

  -- The array behind a value, and what follows.
  abbrev behind_value : Bytes → Bytes → List Pair → Array → Option Array
  behind_value name v [] array = some (add_assoc name v array)
  behind_value name v (c ∷ cs) array =
      behind_mark php false (some name) (add_assoc name v array) (render (c ∷ cs))

  scan-value :
      (name v : Bytes) (cs : List Pair) (array : Array)
      → scan php true (some name) v array (render_more cs) ≡ behind_value name v cs array
  unfolding scan
  scan-value name v [] array = refl
  scan-value name v (c ∷ cs) array = refl

  behind_mark-value :
      (name v : Bytes) (cs : List Pair) (array : Array)
      → all_plain v ≡ true
      → behind_mark php true (some name) array (v ++ render_more cs) ≡ behind_value name v cs array
  unfolding scan
  behind_mark-value name [] [] array h = refl
  behind_mark-value name [] (c ∷ cs) array h = refl
  behind_mark-value name (x ∷ xs) cs array h =
      behind_mark-plain true (some name) (x ∷ xs) (render_more cs) array refl h
      ∙ scan-value name (x ∷ xs) cs array

  pub behind_mark-render :
      (cs : List Pair) (name v : Bytes) (array : Array)
      → all_plain v ≡ true
      → well_formed cs ≡ true
      → behind_mark php true (some name) array (v ++ render_more cs)
        ≡ some (add_all cs (add_assoc name v array))
  unfolding well_formed
  behind_mark-render [] name v array h w = behind_mark-value name v [] array h
  behind_mark-render (c ∷ cs) name v array h w =
      behind_mark-value name v (c ∷ cs) array h
      ∙ behind_mark-name false (some name) c.name (c.value ++ render_more cs)
          (add_assoc name v array) (ground (arith, w)) (ground (arith, w))
      ∙ behind_mark-render cs c.name c.value (add_assoc name v array) (ground (arith, w))
          (ground (arith, w))

  query_args-scan :
      (xs ys : Bytes)
      → is_empty xs ≡ false
      → ngx_query_args php (xs ++ ys) ≡ scan php false none [] array_init (xs ++ ys)
  unfolding ngx_query_args
  query_args-scan [] ys h = absurd (ground (arith, h))
  query_args-scan (x ∷ xs) ys h = ground arith

  pub query_args-pair :
      (name ys : Bytes)
      → is_empty name ≡ false
      → all_plain name ≡ true
      → ngx_query_args php (name ++ b'=' ∷ ys) ≡ behind_mark php true (some name) array_init ys
  unfolding scan
  query_args-pair name ys some_text h =
      query_args-scan name (b'=' ∷ ys) some_text
      ∙ scan-plain false none [] name (b'=' ∷ ys) array_init h

  query_args-render :
      (cs : List Pair)
      → well_formed cs ≡ true
      → ngx_query_args php (render cs) ≡ some (add_all cs array_init)
  unfolding ngx_query_args well_formed
  query_args-render [] w = refl
  query_args-render (c ∷ cs) w =
      query_args-pair c.name (c.value ++ render_more cs) (ground (arith, w)) (ground (arith, w))
      ∙ behind_mark-render cs c.name c.value array_init (ground (arith, w)) (ground (arith, w))

  -- With arrays that find what was put in last: for names that are not empty and have no NUL, and no
  -- `=` or `&` in a name or value, the text `name=value&name=value…` gives an array in which each
  -- name has the value of its last pair, and no other name is found.
  pub query_args-finds :
      (laws : ArrayLaws php) (cs : List Pair)
      → well_formed cs ≡ true
      → (array : Array) × (ngx_query_args php (render cs) ≡ some array)
        × ((k : Bytes) → no_nul k ≡ true → find k array ≡ last_value k cs none)
  query_args-finds laws cs w = (
    add_all cs array_init,
    query_args-render cs w,
    λ k nul.
        find-add_all laws k cs array_init nul w ∙ ap (last_value k cs) (laws.find-array_init k),
  )
