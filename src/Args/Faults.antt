-- ===== src/Args/Faults.antt =====
-- The functions of Args/Scan at texts with names that have no value.
use ngx_php.Prelude.{
  ◌≡◌, refl, ap, ◌∙◌, true, false, none, some, List, [], ◌∷◌, ◌++◌, arith, equal_iff,
}
use ngx_php.Handler.State.{Bytes}
use ngx_php.Args.Scan.{PhpArray, scan, behind_mark, ngx_query_args}
use ngx_php.Args.Decode.{
  Pair, is_empty, all_plain, no_nul, well_formed, render, render_more, last_value, ArrayLaws,
  add_all, find-add_all, scan-plain, behind_mark-plain, behind_mark-name, behind_mark-render,
  query_args-pair,
}

module _ (php : PhpArray) where
  open php use {Array, array_init, add_assoc, find}

  -- A text whose first `&` stands in front of any `=`, such as `debug&x=1`: whatever PHP's arrays
  -- are, `ngx_query_args` reads its key through NULL.
  pub query_args-null :
      (bare rest : Bytes) → all_plain bare ≡ true → ngx_query_args php (bare ++ b'&' ∷ rest) ≡ none
  unfolding ngx_query_args scan
  query_args-null [] rest h = ground arith
  query_args-null (b ∷ bs) rest h =
      let step : ngx_query_args php (b ∷ bs ++ b'&' ∷ rest)
          ≡ scan php false none [] array_init (b ∷ bs ++ b'&' ∷ rest) =
        ground arith in
      step ∙ scan-plain php false none [] (b ∷ bs) (b'&' ∷ rest) array_init h

  -- A name that has no value, between two pairs.
  abbrev pub with_bare : Pair → Bytes → Pair → List Pair → Bytes
  with_bare c bare d ds = c.name ++ b'=' ∷ (c.value ++ b'&' ∷ (bare ++ b'&' ∷ render (d ∷ ds)))

  behind_mark-bare :
      (key bare rest : Bytes) (array : Array)
      → is_empty bare ≡ false
      → all_plain bare ≡ true
      → behind_mark php false (some key) array (bare ++ b'&' ∷ rest)
        ≡ behind_mark php false (some key) (add_assoc key bare array) rest
  unfolding scan
  behind_mark-bare key bare rest array some_text h =
      behind_mark-plain php false (some key) bare (b'&' ∷ rest) array some_text h

  behind_mark-and :
      (key v rest : Bytes) (array : Array)
      → all_plain v ≡ true
      → behind_mark php true (some key) array (v ++ b'&' ∷ rest)
        ≡ behind_mark php false (some key) (add_assoc key v array) rest
  unfolding scan
  behind_mark-and key [] rest array h = refl
  behind_mark-and key (x ∷ xs) rest array h =
      behind_mark-plain php true (some key) (x ∷ xs) (b'&' ∷ rest) array refl h

  query_args-with_bare :
      (c : Pair) (bare : Bytes) (d : Pair) (ds : List Pair)
      → well_formed (c ∷ d ∷ ds) ≡ true
      → is_empty bare ≡ false
      → all_plain bare ≡ true
      → ngx_query_args php (with_bare c bare d ds)
        ≡ some (add_all php (d ∷ ds) (add_assoc c.name bare (add_assoc c.name c.value array_init)))
  unfolding well_formed
  query_args-with_bare c bare d ds w some_text h =
      let array = add_assoc c.name c.value array_init in
      let array' = add_assoc c.name bare array in
      query_args-pair php c.name (c.value ++ b'&' ∷ (bare ++ b'&' ∷ render (d ∷ ds)))
        (ground (arith, w)) (ground (arith, w))
      ∙ behind_mark-and c.name c.value (bare ++ b'&' ∷ render (d ∷ ds)) array_init
          (ground (arith, w))
      ∙ behind_mark-bare c.name bare (render (d ∷ ds)) array some_text h
      ∙ behind_mark-name php false (some c.name) d.name (d.value ++ render_more ds) array'
          (ground (arith, w)) (ground (arith, w))
      ∙ behind_mark-render php ds d.name d.value array' (ground (arith, w)) (ground (arith, w))

  -- Under the conditions of `query_args-finds`, a name that has no value and stands behind the first
  -- pair, as in `a=1&debug&b=2`: the first pair's name gets the bare name for its value, unless a
  -- later pair has that name too.
  pub query_args-overwrites :
      (laws : ArrayLaws php) (c : Pair) (bare : Bytes) (d : Pair) (ds : List Pair)
      → well_formed (c ∷ d ∷ ds) ≡ true
      → is_empty bare ≡ false
      → all_plain bare ≡ true
      → (array : Array) × (ngx_query_args php (with_bare c bare d ds) ≡ some array)
        × (find c.name array ≡ last_value c.name (d ∷ ds) (some bare))
  unfolding well_formed
  query_args-overwrites laws c bare d ds w some_text h =
      let array = add_assoc c.name c.value array_init in
      let nul : no_nul c.name ≡ true = ground (arith, w) in
      let w' : well_formed (d ∷ ds) ≡ true = ground (arith, w) in
      (
        add_all php (d ∷ ds) (add_assoc c.name bare array),
        query_args-with_bare c bare d ds w some_text h,
        find-add_all php laws c.name (d ∷ ds) (add_assoc c.name bare array) nul w'
            ∙ ap (last_value c.name (d ∷ ds)) (
                laws.find-add_assoc c.name c.name bare array nul nul
                ∙ rw ((equal_iff c.name c.name).1 refl) refl),
      )
