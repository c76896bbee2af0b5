-- ===== src/Args/Same.antt =====
-- A body of several buffers has the arguments that its text would have as a query.
use ngx_php.Prelude.{◌≡◌, refl, Bool, true, false, none, some, List, [], ◌∷◌, arith}
use ngx_php.Handler.State.{Bytes, RequestBody}
use ngx_php.Handler.Body.{flat, total_length-flat, copy_all-flat}
use ngx_php.Args.Scan.{
  PhpArray, scan_bufs, body_args, ngx_query_args, ngx_post_args, query_args_method,
  post_args_method,
}

module _ (php : PhpArray) where
  scan_bufs-flat :
      (first : Bytes) (rest : List Bytes)
      → scan_bufs php first rest ≡ ngx_query_args php (flat (first ∷ rest))
  unfolding scan_bufs ngx_query_args
  scan_bufs-flat first rest =
      ground (arith, total_length-flat 0 (first ∷ rest), copy_all-flat [] (first ∷ rest))

  -- Whatever PHP's arrays are: for a body that is kept in memory, `ngx_post_args` gives what
  -- `ngx_query_args` gives for the bytes of its buffers in their order; for a body that is discarded,
  -- absent, in a file or without buffers it gives the empty array; and the methods of the class `ngx`
  -- give what the functions give.
  pub post_args-query_args :
      (discard : Bool) (body : RequestBody) (first : Bytes) (rest : List Bytes) (args : Bytes)
      → (ngx_post_args php false (some (record { temp_file = false; bufs = some (first, rest) }))
          ≡ ngx_query_args php (flat (first ∷ rest)))
        × (ngx_post_args php true (some body) ≡ some php.array_init)
        × (ngx_post_args php discard none ≡ some php.array_init)
        × (ngx_post_args php discard (some (record body { temp_file = true }))
            ≡ some php.array_init)
        × (ngx_post_args php discard (some (record body { bufs = none })) ≡ some php.array_init)
        × (query_args_method php args ≡ ngx_query_args php args)
        × (post_args_method php discard (some body) ≡ ngx_post_args php discard (some body))
  unfolding ngx_post_args body_args query_args_method post_args_method ngx_query_args
  post_args-query_args discard body first rest args =
      (scan_bufs-flat first rest, refl, ground arith, ground arith, ground arith, refl, refl)
