-- ===== src/Sapi/Write.antt =====
-- `ngx_http_php_code_ub_write` of src/ngx_http_php_core.c: what `echo` in PHP does. Memory is taken to
-- be found.
use ngx_php.Prelude.{Bool, true, false, List, [], ◌∷◌, ◌++◌, some, length, if◌then◌else◌}
use ngx_php.Prelude.Codes.{ℤ, pos}
use ngx_php.Handler.State.{Bytes, OutputType, output_content, Request}
use ngx_php.Handler.Respond.{count_length, new_link, chain_of}

-- `ctx->output_type & OUTPUT_CONTENT`
abbrev pub is_content : OutputType → Bool
is_content output_content = true
is_content _ = false

-- The answer is what the C function returns before it becomes a `size_t`.
unfoldable pub ub_write : Bytes → Request → ℤ × Request
ub_write str r =
    if r.slot
    then if is_content r.ctx.output_type
      then (let n = count_length (length str) r.content_length_n in
          (
            n,
            record r {
              slot = true;
              ctx = record (r.ctx) {
                rputs_chain = some (chain_of r.ctx.rputs_chain ++ new_link str ∷ []);
              };
              content_length_n = n;
            },
          ))
      else (r.content_length_n, r)
    else (pos 0, r)

-- A sequence of outputs, with what they return.
abbrev pub echo_all : List Bytes → Request → List ℤ × Request
echo_all [] r = ([], r)
echo_all (t ∷ ts) r = let (n, r') = ub_write t r in let (ns, r'') = echo_all ts r' in (n ∷ ns, r'')
