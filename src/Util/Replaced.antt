-- ===== src/Util/Replaced.antt =====
-- What `str_replace` of src/ngx_http_php_util.c gives: the text with its occurrences replaced, in
-- the room that has been counted out.
use ngx_php.Prelude.{
  ℕ, zero, suc, ◌+◌, ◌-◌, ◌*◌, ◌^◌, ◌<◌, ◌≤◌, ◌≡◌, refl, sym, ap, append-nil, ◌∙◌, true, Bool,
  Option-cases, none, some, inl, inr, [], ◌∷◌, ◌++◌, append_assoc, arith, length, length-append,
}
use ngx_php.Prelude.Codes.{pos}
use ngx_php.Util.Replace.{
  Bytes, Strstr, string, int_of, size_of, count, occurrences, rest_of, replace_loop, result_size,
  str_replace, Replaces, absent, found, Finds,
}

-- The bytes of the result with its final NUL, as a number without bound.
abbrev pub needed : Strstr → Bytes → Bytes → Bytes → ℕ
needed strstr str sub replace =
    length str
    - length sub * occurrences strstr sub str
    + length replace * occurrences strstr sub str
    + 1

int_of-small : (n : ℕ) → n < 2 ^ 31 → int_of n ≡ pos n
int_of-small n small = ground (arith, small)

size_of-small : (n : ℕ) → n < 2 ^ 31 → size_of (pos n) ≡ n
size_of-small n small = omega (arith, small)

module _ (strstr : Strstr) (finds : Finds strstr) (sub replace : Bytes)
    (some_text : 0 < length sub) where
  shorter :
      (text front back : Bytes)
      → strstr text sub ≡ some (front, back)
      → length text ≡ length front + length sub + length back
  shorter text front back h =
      ap length (finds.split text sub front back h) ∙ simp length-append refl

  count-absent :
      (fuel : ℕ) (here : Bytes) → strstr here sub ≡ none → count strstr (suc fuel) sub here ≡ 0
  unfolding count
  count-absent fuel here h = rw (count, h) refl

  count-found :
      (fuel : ℕ) (here front back : Bytes)
      → strstr here sub ≡ some (front, back)
      → count strstr (suc fuel) sub here ≡ suc (count strstr fuel sub back)
  unfolding count
  count-found fuel here front back h = rw (count, h) refl

  -- One occurrence more, for each of the two factors.
  times-found :
      (n fuel : ℕ) (here front back : Bytes)
      → strstr here sub ≡ some (front, back)
      → n * count strstr (suc fuel) sub here ≡ n + n * count strstr fuel sub back
  times-found n fuel here front back h = rw (count-found fuel here front back h) (grind arith)

  count-fits : (fuel : ℕ) (here : Bytes) → length sub * count strstr fuel sub here ≤ length here
  unfolding count
  count-fits zero here = omega arith
  count-fits (suc fuel) here = elim (Option-cases (strstr here sub)) [
    | inl h ↦ rw (count-absent fuel here h) (omega arith)
    | inr ((front, back), h) ↦
        rw (count-found fuel here front back h)
          (grind (arith, count-fits fuel back, shorter here front back h))
  ]

  rest_of-room :
      (size : ℕ) (out here : Bytes)
      → length out + length here < size
      → rest_of strstr size out here ≡ string (out ++ here)
  rest_of-room size out [] room = ap string (sym (append-nil out))
  rest_of-room size out (b ∷ bs) room = ground (arith, room)

  loop-absent :
      (fuel size : ℕ) (out here : Bytes)
      → strstr here sub ≡ none
      → replace_loop strstr (suc fuel) size sub replace out here ≡ rest_of strstr size out here
  unfolding replace_loop
  loop-absent fuel size out here h = rw (replace_loop, h) refl

  loop-found :
      (fuel size : ℕ) (out here front back : Bytes)
      → strstr here sub ≡ some (front, back)
      → length out + length front + length replace < size
      → size < 2 ^ 31
      → replace_loop strstr (suc fuel) size sub replace out here
        ≡ replace_loop strstr fuel size sub replace (out ++ front ++ replace) back
  unfolding replace_loop
  loop-found fuel size out here front back h room small = ground (arith, h, room, small)

  -- Enough fuel, and enough room for what the occurrences that are left will need.
  loop-Replaces :
      (fuel size : ℕ) (out here : Bytes)
      → size < 2 ^ 31
      → length here < fuel
      → length out + length here + length replace * count strstr fuel sub here
        < size + length sub * count strstr fuel sub here
      → (done : Bytes) × (replace_loop strstr fuel size sub replace out here ≡ string (out ++ done))
        × Replaces strstr sub replace here done
        × (length done + length sub * count strstr fuel sub here
            ≡ length here + length replace * count strstr fuel sub here)
  loop-Replaces zero size out here small enough room = absurd (omega arith)
  loop-Replaces (suc fuel) size out here small enough room = elim (Option-cases (strstr here sub)) [
    | inl h ↦ (
      here,
      loop-absent fuel size out here h
          ∙ rest_of-room size out here (grind (arith, room, count-absent fuel here h)),
      absent h,
      rw (count-absent fuel here h) (omega arith),
    )
    | inr ((front, back), h) ↦
        let more = times-found (length replace) fuel here front back h in
        let less = times-found (length sub) fuel here front back h in
        let (done, run, rest, exact) =
          loop-Replaces fuel size (out ++ front ++ replace) back small
            (omega (arith, shorter here front back h))
            (omega (
              arith,
              room,
              more,
              less,
              shorter here front back h,
              length-append (out ++ front) replace,
              length-append out front,
            )) in
        (
          front ++ replace ++ done,
          loop-found fuel size out here front back h
                (omega (arith, room, more, less, shorter here front back h, count-fits fuel back))
                small
              ∙ run
              ∙ ap string (simp append_assoc refl),
          found h rest,
          omega (
            arith,
            exact,
            more,
            less,
            shorter here front back h,
            length-append (front ++ replace) done,
            length-append front replace,
          ),
        )
  ]

  occurrences-count :
      (str : Bytes) → occurrences strstr sub str ≡ count strstr (suc (length str)) sub str
  unfolding occurrences
  occurrences-count str = ground (arith, some_text)

  occurrences-fit : (str : Bytes) → length sub * occurrences strstr sub str ≤ length str
  occurrences-fit str = rw (occurrences-count str) (count-fits (suc (length str)) str)

  few : (str : Bytes) → occurrences strstr sub str ≤ length str
  few str = grind (arith, occurrences-fit str, some_text)

  -- The casts change nothing of a size that an int holds.
  result_size-needed :
      (str : Bytes)
      → length str < 2 ^ 31
      → needed strstr str sub replace < 2 ^ 31
      → result_size strstr (pos (occurrences strstr sub str)) str sub replace
        ≡ pos (needed strstr str sub replace)
  result_size-needed str short small =
      let n = occurrences strstr sub str in
      let counted = size_of-small n (omega (arith, few str, short)) in
      rw counted (ground (arith, occurrences-fit str, few str, short, small))

  str_replace-none :
      (malloc : ℕ → Bool) (str : Bytes)
      → occurrences strstr sub str ≡ 0
      → malloc (needed strstr str sub replace) ≡ true
      → str_replace strstr malloc str sub replace ≡ string str
  unfolding str_replace
  str_replace-none malloc str h memory =
      let room : needed strstr str sub replace ≡ length str + 1 = rw h (omega arith) in
      rw (str_replace, h) (ground (arith, ap malloc (sym room) ∙ memory))

  str_replace-some :
      (malloc : ℕ → Bool) (str : Bytes)
      → 0 < occurrences strstr sub str
      → length str < 2 ^ 31
      → needed strstr str sub replace < 2 ^ 31
      → malloc (needed strstr str sub replace) ≡ true
      → str_replace strstr malloc str sub replace
        ≡ replace_loop strstr (suc (length str)) (needed strstr str sub replace) sub replace [] str
  unfolding str_replace
  str_replace-some malloc str many short small memory =
      let n = occurrences strstr sub str in
      rw
        (
          str_replace,
          int_of-small n (omega (arith, few str, short)),
          result_size-needed str short small,
          size_of-small (needed strstr str sub replace) small,
        )
        (ground (arith, many, memory))

  fits :
      (str : Bytes)
      → length {A = ℕ} [] + length str + length replace * count strstr (suc (length str)) sub str
        < needed strstr str sub replace + length sub * count strstr (suc (length str)) sub str
  fits str = rw (occurrences-count str) (omega (arith, count-fits (suc (length str)) str))

  fills :
      (str : Bytes) (n : ℕ)
      → n + length sub * count strstr (suc (length str)) sub str
        ≡ length str + length replace * count strstr (suc (length str)) sub str
      → suc n ≡ needed strstr str sub replace
  fills str n exact =
      rw (occurrences-count str) (omega (arith, exact, count-fits (suc (length str)) str))

  -- With `strstr` as documented, a text to look for that is not empty, a text and a result that an
  -- int can count with the final NUL, and memory for the result: the loop ends, no cast and no
  -- `snprintf` cuts anything off, the result is the text with every occurrence, found from the
  -- left, replaced and the rest kept, and with its NUL it fills exactly the memory that was counted
  -- out.
  pub str_replace-Replaces :
      (malloc : ℕ → Bool) (str : Bytes)
      → length str < 2 ^ 31
      → needed strstr str sub replace < 2 ^ 31
      → malloc (needed strstr str sub replace) ≡ true
      → (out : Bytes) × (str_replace strstr malloc str sub replace ≡ string out)
        × Replaces strstr sub replace str out
        × (suc (length out) ≡ needed strstr str sub replace)
  unfolding str_replace
  str_replace-Replaces malloc str short small memory = elim (Option-cases (strstr str sub)) [
    | inl h ↦
        let none_found = occurrences-count str ∙ count-absent (length str) str h in
        (str, str_replace-none malloc str none_found memory, absent h, rw none_found (omega arith))
    | inr ((front, back), h) ↦
        let some_found = occurrences-count str ∙ count-found (length str) str front back h in
        let (done, run, rest, exact) =
          loop-Replaces (suc (length str)) (needed strstr str sub replace) [] str small
            (omega arith) (fits str) in
        (
          done,
          str_replace-some malloc str (omega (arith, some_found)) short small memory ∙ run,
          rest,
          fills str (length done) exact,
        )
  ]
