-- ===== src/Aws/Code.antt =====
-- async-web-server/src/aws.c: one connection, its buffers and its socket. The messages are left out.
use operating_system_challen.Base.{
  ℕ, zero, suc, ◌+◌, ◌-◌, ◌^◌, ltb, leb, Bool, true, false, not, Option, none, some, [], ◌∷◌, ◌++◌,
  length, if◌then◌else◌,
}
use operating_system_challen.Aws.Buffer.{
  Text, take, drop, overlay, text_of, contains, decimal, zeros, static_word, dynamic_word,
  end_of_header, reply_start, reply_end, not_found_header,
}
use operating_system_challen.Aws.State.{
  initial, request_received, sending_404, connection_closed, ResourceType, none_resource,
  static_resource, dynamic_resource, Sent, accepted, would_block, failed, EpollOp, del, Kernel, ok,
  out_of_fuel, Cmd, pure, ◌>>=◌, ◌>>◌, get_conn, modify, free_conn, call, die_unless,
}

-- -1
abbrev pub minus_one : ℕ
minus_one = 2 ^ 32 - 1

module _ {W : Type 0} (k : Kernel W) where
  -- The header of a reply; `snprintf` with the file size.
  unfoldable pub reply_header : ℕ → Text
  unfolding decimal
  reply_header file_size = reply_start ++ decimal file_size ++ reply_end

  unfoldable pub prepare_send_reply_header : Cmd W (Unit {0})
  unfolding reply_header overlay
  prepare_send_reply_header = do
    c ← get_conn
    let header = reply_header c.file_size
    if leb k.bufsiz (length header)
        then modify (λ c. record c { state = connection_closed })
        else modify λ c. record c {
          send_buffer = overlay c.send_buffer 0 header;
          send_len = length header;
          send_pos = 0;
        }

  unfoldable pub prepare_send_404 : Cmd W (Unit {0})
  unfolding overlay zeros text_of
  prepare_send_404 = modify λ c.
      let buff = overlay (zeros k.bufsiz) 0 not_found_header in
      record c {
        send_buffer = buff;
        send_len = length (text_of buff);
        send_pos = 0;
        state = sending_404;
      }

  -- `memcpy(conn->filename, conn->request_path, strlen(conn->request_path))`
  unfoldable pub set_filename : ResourceType → Cmd W (Unit {0})
  unfolding overlay text_of
  set_filename r =
      modify
        λ c. record c { res_type = r; filename = overlay c.filename 0 (text_of c.request_path) }

  unfoldable pub get_resource_type : Cmd W ResourceType
  unfolding set_filename contains text_of
  get_resource_type = do
    c ← get_conn
    if contains (text_of c.request_path) static_word
        then set_filename static_resource
        else (if contains (text_of c.request_path) dynamic_word
            then set_filename dynamic_resource
            else modify (λ c. record c { res_type = none_resource }))
    c' ← get_conn
    pure c'.res_type

  unfoldable pub epoll_ctl : EpollOp → ℕ → Cmd W Bool
  epoll_ctl op fd = call (k.on_epoll_ctl op fd)

  -- `w_epoll_remove_ptr`, `io_destroy`, `close` and `free`
  unfoldable pub connection_remove : Cmd W (Unit {0})
  unfolding epoll_ctl
  connection_remove = do
    c ← get_conn
    removed ← epoll_ctl del c.sockfd
    die_unless removed
    (λ s. ok tt (record s { world = k.on_close c.sockfd (k.on_io_destroy c.ctx s.world) }))
    free_conn

  abbrev pub set_context : Option ℕ → Cmd W Bool
  set_context none = do free_conn; pure false
  set_context (some ctx) = do modify (λ c. record c { ctx = ctx; state = initial }); pure true

  -- What `malloc` leaves in the other fields stays there.
  unfoldable pub connection_create : ℕ → Cmd W Bool
  unfolding zeros
  connection_create sockfd = do
    (λ s. ok tt (record s { allocated = true }))
    modify λ c. record c {
      sockfd = sockfd;
      filename = zeros k.bufsiz;
      recv_buffer = zeros k.bufsiz;
      send_buffer = zeros k.bufsiz;
      request_path = zeros k.bufsiz;
    }
    ctx ← call k.on_io_setup
    set_context ctx

  -- What `receive_data` does with the answer of one `recv`; `rest` is the loop behind it.
  abbrev pub after_recv : ℕ → Option Text → (ℕ → Cmd W ℕ) → Cmd W ℕ
  after_recv total none rest = do connection_remove; pure total
  after_recv total (some []) rest = do connection_remove; pure total
  after_recv total (some (b ∷ bs)) rest = do
    modify (λ c. record c { recv_buffer = overlay c.recv_buffer total (b ∷ bs) })
    c ← get_conn
    if contains (text_of c.recv_buffer) end_of_header
        then pure (total + length (b ∷ bs))
        else rest (total + length (b ∷ bs))

  unfoldable pub receive_loop : ℕ → ℕ → Cmd W ℕ
  receive_loop zero total = λ s. out_of_fuel
  receive_loop (suc fuel) total = if not (ltb total k.bufsiz) then pure total else do
    c ← get_conn
    bytes ← call (k.on_recv c.sockfd (k.bufsiz - total))
    after_recv total bytes (receive_loop fuel)

  unfoldable pub get_peer_address : ℕ → Cmd W Bool
  get_peer_address sockfd s = ok (k.on_getpeername sockfd s.world) s

  unfoldable pub receive_data : ℕ → Cmd W (Unit {0})
  unfolding get_peer_address receive_loop
  receive_data fuel = do
    c ← get_conn
    found ← get_peer_address c.sockfd
    if not found then connection_remove else (do
      total ← receive_loop fuel 0
      modify (λ c. record c { recv_len = total; state = request_received }))

  -- The bytes that the socket took.
  abbrev pub record_sent : Text → Sent → Cmd W Sent
  record_sent bytes (accepted n) =
      λ s. ok (accepted n) (record s { output = s.output ++ take n bytes })
  record_sent bytes would_block = pure would_block
  record_sent bytes failed = pure failed

  -- The call of `send`.
  unfoldable pub send : ℕ → Text → Cmd W Sent
  send fd bytes = do sent ← call (k.on_send fd bytes); record_sent bytes sent

  -- What `connection_send_data` does with the answer of one `send`.
  abbrev pub after_send : ℕ → Sent → (ℕ → Cmd W ℕ) → Cmd W ℕ
  after_send total would_block rest = do connection_remove; pure minus_one
  after_send total failed rest = do connection_remove; pure minus_one
  after_send total (accepted zero) rest = do connection_remove; pure total
  after_send total (accepted (suc n)) rest = rest (total + suc n)

  unfoldable pub send_loop : ℕ → ℕ → Cmd W ℕ
  unfolding send
  send_loop zero total = λ s. out_of_fuel
  send_loop (suc fuel) total = do
    c ← get_conn
    if not (ltb total c.send_len) then pure total else (do
      sent ← send c.sockfd (take (c.send_len - total) (drop total c.send_buffer))
      after_send total sent (send_loop fuel))

  unfoldable pub connection_send_data : ℕ → Cmd W ℕ
  unfolding get_peer_address send_loop
  connection_send_data fuel = do
    c ← get_conn
    found ← get_peer_address c.sockfd
    if not found then (do connection_remove; pure minus_one) else send_loop fuel 0
