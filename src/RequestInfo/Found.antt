-- ===== src/RequestInfo/Found.antt =====
-- What `ngx_request_headers` of src/php/impl/php_ngx_request.c puts in the array.
use ngx_php.Prelude.{
  ◌≡◌, refl, ap, ◌∙◌, Bool, true, false, ◌&&◌, Option, none, some, List, [], ◌∷◌, arith, length,
  equal, equal_iff, if◌then◌else◌, Bool-cases, inl, inr,
}
use ngx_php.Handler.State.{Bytes}
use ngx_php.Cookie.Get.{Strncasecmp, Header}
use ngx_php.Args.Scan.{PhpArray}
use ngx_php.Args.Decode.{ArrayLaws, no_nul}
use ngx_php.RequestInfo.Headers.{
  Row, rows, method_rows, add_rows, add_headers, ngx_request_headers, headers_method,
}

-- The name that the tests have for a key.
unfoldable pub name_of : Bytes → List Row → Option Bytes
name_of k [] = none
name_of k (row ∷ rest) =
    let later = name_of k rest in if equal k row.key then some row.name else later

abbrev pub is_none : Option Bytes → Bool
is_none none = true
is_none (some v) = false

-- No two tests have one key, and no key has a NUL.
unfoldable pub distinct : List Row → Bool
distinct [] = true
distinct (row ∷ rest) = is_none (name_of row.key rest) && (no_nul row.key && distinct rest)

module _ (strncasecmp : Strncasecmp) where
  abbrev pub is_named : Bytes → Header → Bool
  is_named name h = strncasecmp h.lowcase_key name (length h.lowcase_key)

  -- The value of the last header whose name is, as `ngx_strncasecmp` compares it over the header's
  -- own length, a name.
  abbrev pub last_named : Bytes → List Header → Option Bytes → Option Bytes
  last_named name [] got = got
  last_named name (h ∷ hs) got = last_named name hs (if is_named name h then some h.value else got)

  module _ (php : PhpArray) (laws : ArrayLaws php) where
    open php use {Array, array_init, add_assoc, find}

    -- What one test does to a key.
    find-row :
        (row : Row) (k : Bytes) (h : Header) (array : Array)
        → no_nul k ≡ true
        → no_nul row.key ≡ true
        → find k (if is_named row.name h then add_assoc row.key h.value array else array)
          ≡ (if equal k row.key && is_named row.name h then some h.value else find k array)
    find-row row k h array nul nul' = elim (Bool-cases (is_named row.name h)) [
      | inl named ↦ rw named (laws.find-add_assoc k row.key h.value array nul nul' ∙ ground arith)
      | inr other ↦ rw other (ground arith)
    ]

    name_of-same :
        (row : Row) (rest : List Row) (k : Bytes)
        → equal k row.key ≡ true
        → is_none (name_of row.key rest) ≡ true
        → name_of k rest ≡ none
    name_of-same row rest k same lone =
        ap (λ j. name_of j rest) ((equal_iff k row.key).0 same) ∙ ground (arith, lone)

    find-add_rows :
        (table : List Row) (k : Bytes) (h : Header) (array : Array)
        → distinct table ≡ true
        → no_nul k ≡ true
        → find k (add_rows php strncasecmp table h array) ≡ elim (name_of k table) [
          | none ↦ find k array
          | some name ↦ if is_named name h then some h.value else find k array
        ]
    unfolding add_rows name_of distinct
    find-add_rows [] k h array d nul = refl
    find-add_rows (row ∷ rest) k h array d nul =
        let array' = if is_named row.name h then add_assoc row.key h.value array else array in
        let step = find-row row k h array nul (ground (arith, d)) in
        let ih = find-add_rows rest k h array' (ground (arith, d)) nul in
        elim (Bool-cases (equal k row.key)) [
          | inl same ↦
              ground (arith, ih, step, same, name_of-same row rest k same (ground (arith, d)))
          | inr other ↦ ground (arith, ih, step, other)
        ]

    find-add_headers :
        (table : List Row) (k name : Bytes) (hs : List Header) (array : Array)
        → distinct table ≡ true
        → no_nul k ≡ true
        → name_of k table ≡ some name
        → find k (add_headers php strncasecmp table hs array) ≡ last_named name hs (find k array)
    unfolding add_headers
    find-add_headers table k name [] array d nul there = refl
    find-add_headers table k name (h ∷ hs) array d nul there =
        find-add_headers table k name hs (add_rows php strncasecmp table h array) d nul there
        ∙ ap (last_named name hs) (find-add_rows table k h array d nul ∙ rw there refl)

    lost-add_headers :
        (table : List Row) (k : Bytes) (hs : List Header) (array : Array)
        → distinct table ≡ true
        → no_nul k ≡ true
        → name_of k table ≡ none
        → find k (add_headers php strncasecmp table hs array) ≡ find k array
    unfolding add_headers
    lost-add_headers table k [] array d nul away = refl
    lost-add_headers table k (h ∷ hs) array d nul away =
        lost-add_headers table k hs (add_rows php strncasecmp table h array) d nul away
        ∙ find-add_rows table k h array d nul
        ∙ rw away refl

    -- With arrays that find what was put in last: under the key of a test, the array of
    -- `ngx_request_headers`, and under the key of one of its tests that of the method, has the value
    -- of the last header whose whole name begins the test's name, letters of either case being the
    -- same to `ngx_strncasecmp`, and nothing if there is none; under another key it has nothing.
    pub headers-finds :
        (hs : List Header) (k name k' name' other : Bytes)
        → no_nul k ≡ true
        → name_of k rows ≡ some name
        → no_nul k' ≡ true
        → name_of k' method_rows ≡ some name'
        → no_nul other ≡ true
        → name_of other rows ≡ none
        → (find k (ngx_request_headers php strncasecmp hs) ≡ last_named name hs none)
          × (find k' (headers_method php strncasecmp hs) ≡ last_named name' hs none)
          × (find other (ngx_request_headers php strncasecmp hs) ≡ none)
    unfolding ngx_request_headers headers_method distinct name_of no_nul equal
    headers-finds hs k name k' name' other nul there nul' there' nul'' away = (
      find-add_headers rows k name hs array_init refl nul there
          ∙ ap (last_named name hs) (laws.find-array_init k),
      find-add_headers method_rows k' name' hs array_init refl nul' there'
          ∙ ap (last_named name' hs) (laws.find-array_init k'),
      lost-add_headers rows other hs array_init refl nul'' away ∙ laws.find-array_init other,
    )
