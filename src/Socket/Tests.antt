-- ===== src/Socket/Tests.antt =====
-- The theorems about sockets at the socket of Samples.
use ngx_php.Prelude.{ℕ, ◌≡◌, refl, inl, true, false, none, some, Option, ◌++◌, arith, ◌⊎◌}
use ngx_php.Prelude.Codes.{ℤ, ngx_error}
use ngx_php.Keepalive.Samples.{lists, lists-laws, calm, full-IsSound, full-IsFresh}
use ngx_php.Socket.State.{Socket, set_upstream}
use ngx_php.Socket.Recv.{upstream_recv}
use ngx_php.Socket.Received.{HasBuffer, Gives, upstream_recv-Gives}
use ngx_php.Socket.Sent.{pending, Says}
use ngx_php.Socket.Events.{ngx_socket_send}
use ngx_php.Socket.Written.{write_events, ngx_socket_send-delivers}
use ngx_php.Socket.Finish.{socket_clear}
use ngx_php.Socket.Connect.{resolve_retval_handler, socket_connect}
use ngx_php.Socket.Joined.{Replies}
use ngx_php.Headers.State.{is_true}
use ngx_php.Keepalive.Live.{IsSound}
use ngx_php.Socket.Resolve.{Address, get_elem?, dropped, resolve_handler, resolve_handler-Replies}
use ngx_php.Socket.Functions.{ngx_socket_connect}
use ngx_php.Socket.Session.{Opened, SendsAll, connect-send}
use ngx_php.Socket.Connected.{socket_connect-Replies}
use ngx_php.Keepalive.State.{Peer}
use ngx_php.Keepalive.Samples.{calm-Compares}
use ngx_php.Socket.Functions.{ngx_socket_iskeepalive}
use ngx_php.Socket.Reused.{peer_of, clear-connect}
use ngx_php.Socket.Samples.{
  socket_to_host, upstream_to_host, socket_to_host-InUse, Wire, xyz, slow, delivered, slow-Carries,
  slow-Advances, slow-Receives, upstream, socket, hello, dial, dial-Connects, php_socket, any_port,
  resolver, answered,
}

ngx_socket_send-delivers_example :
    (rc : ℤ) × (s' s'' : Socket lists.Links Wire) × (ngx_socket_send slow 6 hello socket
      ≡ some (rc, s'))
    × Says 20 rc s'
    × (write_events slow 6 3 s' ≡ some s'')
    × (s''.wire 20 ++ pending s'' ≡ hello)
ngx_socket_send-delivers_example =
    ngx_socket_send-delivers slow delivered slow-Carries slow-Advances 6 3 20 hello upstream socket
      refl refl refl (refl, inl refl) (omega arith)

upstream_recv-Gives_example :
    (rc : ℤ) × (s' : Socket lists.Links Wire) × (upstream_recv slow 20 upstream socket
      ≡ some (rc, s'))
    × HasBuffer slow s'
    × Gives true none xyz 1024 s'.recv_buf
upstream_recv-Gives_example =
    upstream_recv-Gives slow 20 upstream socket slow-Receives refl (λ e. ground arith)

socket_connect-Replies_example :
    Replies lists dial slow (socket_connect lists dial slow calm hello socket)
socket_connect-Replies_example =
    socket_connect-Replies lists dial slow lists-laws dial-Connects calm hello (hello, 4) socket
      refl refl refl full-IsSound

connect-send_example :
    (s' : Socket lists.Links Wire) × (ngx_socket_connect lists any_port slow calm
        (some php_socket)
        hello
        80
        socket
      ≡ some (is_true, s'))
    × IsSound lists s'.pool
    × ((socket_connect lists dial slow calm hello socket ≡ some (ngx_error, s'))
        ⊎ ((fuel c : ℕ) × (s'' : Socket lists.Links Wire) × Opened slow fuel s' s''
            × SendsAll lists any_port slow delivered fuel 3 5 c xyz s''))
connect-send_example =
    connect-send lists any_port slow delivered lists-laws slow-Carries slow-Advances 80
      dial-Connects calm php_socket hello (hello, 4) xyz 3 5 socket refl refl refl refl full-IsSound

resolve_handler-Replies_example :
    ((i : ℕ) × (a : Address) × (o : Option (ℤ × Socket lists.Links Wire)) × (get_elem?
          answered.addrs i
        ≡ some a)
      × (resolve_retval_handler lists dial slow calm
            (resolver.set_port 80 a.0, a.1)
            (record upstream { resolved_ctx = false })
            (set_upstream (record upstream { resolved_ctx = false }) socket)
          ≡ o)
      × (resolve_handler lists dial slow resolver calm 80
            (record answered { failed = false })
            upstream
            socket
          ≡ dropped lists dial slow resolver o)
      × Replies lists dial slow o)
    × (resolve_handler lists dial slow resolver calm 80
          (record answered { failed = true })
          upstream
          socket
        ≡ some socket)
resolve_handler-Replies_example =
    resolve_handler-Replies lists dial slow resolver lists-laws dial-Connects calm 80 answered
      upstream socket refl full-IsSound refl refl (omega arith)

clear-connect_example :
    (s' next' : Socket lists.Links Wire) × (pc : Peer) × (socket_clear lists calm socket_to_host
      ≡ some s')
    × (ngx_socket_connect lists any_port slow calm
          (some php_socket)
          hello
          80
          (record socket { pool = s'.pool })
        ≡ some (is_true, next'))
    × (peer_of next' ≡ some pc)
    × (pc.connection ≡ some 20)
    × (ngx_socket_iskeepalive lists next' ≡ some is_true)
clear-connect_example =
    clear-connect lists lists-laws calm calm-Compares refl refl any_port slow 80 dial-Connects
      socket_to_host socket upstream_to_host 20 php_socket hello socket_to_host-InUse full-IsSound
      full-IsFresh (omega arith) (omega arith) refl refl refl refl refl
