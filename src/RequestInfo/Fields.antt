-- ===== src/RequestInfo/Fields.antt =====
-- The functions of src/php/impl/php_ngx_request.c that read one field of a request, and their methods.
use ngx_php.Prelude.{ℕ, Option, none, some}
use ngx_php.Prelude.Codes.{pos}
use ngx_php.Prelude.Text.{codes}
use ngx_php.Handler.State.{Bytes, Method, get, head, post, put, delete, patch, other_method}
use ngx_php.Headers.State.{Zval, is_null, is_string, is_long}

-- The fields; `local_sockaddr` is what `ngx_connection_local_sockaddr` gives, and the ports are those
-- of the two ends of the connection.
pub record Info : Type 0 where
  pub method : Method
  pub document_root : Bytes
  pub server_name : Bytes
  pub http_protocol : Bytes
  pub addr_text : Bytes
  pub local_sockaddr : Option Bytes
  pub local_port : ℕ
  pub remote_port : ℕ
  pub request_body : Bytes

unfoldable pub ngx_request_method : Method → Zval
ngx_request_method get = is_string (codes "GET")
ngx_request_method post = is_string (codes "POST")
ngx_request_method put = is_string (codes "PUT")
ngx_request_method head = is_string (codes "HEAD")
ngx_request_method delete = is_string (codes "DELETE")
ngx_request_method patch = is_null
ngx_request_method other_method = is_null

unfoldable pub ngx_request_document_root : Info → Zval
ngx_request_document_root r = is_string r.document_root

unfoldable pub ngx_request_server_protocol : Info → Zval
ngx_request_server_protocol r = is_string r.http_protocol

unfoldable pub ngx_request_remote_addr : Info → Zval
ngx_request_remote_addr r = is_string r.addr_text

unfoldable pub ngx_request_server_addr : Info → Zval
ngx_request_server_addr r = elim r.local_sockaddr [ none ↦ is_null | some a ↦ is_string a ]

unfoldable pub ngx_request_remote_port : Info → Zval
ngx_request_remote_port r = is_long (pos r.local_port)

unfoldable pub ngx_request_server_port : Info → Zval
ngx_request_server_port r = is_long (pos r.local_port)

unfoldable pub ngx_request_server_name : Info → Zval
ngx_request_server_name r = is_string r.server_name

unfoldable pub ngx_request_body : Info → Zval
ngx_request_body r = is_string r.request_body
