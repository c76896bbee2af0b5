-- ===== src/Args/Tests.antt =====
-- The theorems about arguments over arrays that are association lists.
use ngx_php.Prelude.{◌≡◌, refl, true, false, none, some, List, [], ◌∷◌, ◌++◌}
use ngx_php.Handler.State.{Bytes, RequestBody}
use ngx_php.Handler.Body.{flat}
use ngx_php.Args.Scan.{ngx_query_args, ngx_post_args, query_args_method, post_args_method}
use ngx_php.Args.Samples.{Entries, find_in, entries, entries-ArrayLaws}
use ngx_php.Args.Decode.{Pair, all_plain, no_nul, well_formed, render, last_value, query_args-finds}
use ngx_php.Args.Faults.{query_args-null}
use ngx_php.Args.Same.{post_args-query_args}

-- `a=1`, `b=`, `a=22`
abbrev one : Pair
one = record { name = b'a' ∷ []; value = b'1' ∷ [] }

abbrev nothing : Pair
nothing = record { name = b'b' ∷ []; value = [] }

abbrev again : Pair
again = record { name = b'a' ∷ []; value = b'2' ∷ b'2' ∷ [] }

abbrev three : List Pair
three = one ∷ nothing ∷ again ∷ []

query_args-finds_example :
    (array : Entries) × (ngx_query_args entries (render three) ≡ some array)
    × ((k : Bytes) → no_nul k ≡ true → find_in k array ≡ last_value k three none)
unfolding well_formed no_nul all_plain
query_args-finds_example = query_args-finds entries entries-ArrayLaws three refl

-- `debug&a=1`
abbrev debug : Bytes
debug = b'd' ∷ b'e' ∷ b'b' ∷ b'u' ∷ b'g' ∷ []

query_args-null_example : ngx_query_args entries (debug ++ b'&' ∷ render (one ∷ [])) ≡ none
unfolding all_plain
query_args-null_example = query_args-null entries debug (render (one ∷ [])) refl

abbrev in_memory : RequestBody
in_memory = record { temp_file = false; bufs = some (b'a' ∷ b'=' ∷ [], (b'1' ∷ []) ∷ []) }

post_args-query_args_example :
    (ngx_post_args entries false
        (some (record { temp_file = false; bufs = some (b'a' ∷ b'=' ∷ [], (b'1' ∷ []) ∷ []) }))
      ≡ ngx_query_args entries (flat ((b'a' ∷ b'=' ∷ []) ∷ (b'1' ∷ []) ∷ [])))
    × (ngx_post_args entries true (some in_memory) ≡ some [])
    × (ngx_post_args entries false none ≡ some [])
    × (ngx_post_args entries false (some (record in_memory { temp_file = true })) ≡ some [])
    × (ngx_post_args entries false (some (record in_memory { bufs = none })) ≡ some [])
    × (query_args_method entries debug ≡ ngx_query_args entries debug)
    × (post_args_method entries false (some in_memory)
        ≡ ngx_post_args entries false (some in_memory))
post_args-query_args_example =
    post_args-query_args entries false in_memory (b'a' ∷ b'=' ∷ []) ((b'1' ∷ []) ∷ []) debug
