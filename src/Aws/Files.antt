-- ===== src/Aws/Files.antt =====
-- The files of async-web-server/src/aws.c: from `connection_open_file` to `send_file`, with the parsing
-- of the request. `fuel` bounds each loop.
use operating_system_challen.Base.{
  ℕ, zero, suc, ◌+◌, ◌-◌, ◌==◌, ltb, Bool, true, false, not, Option, none, some, List, [], ◌∷◌,
  ◌++◌, length, if◌then◌else◌,
}
use operating_system_challen.Base.Word.{sub64, add64}
use operating_system_challen.Aws.Buffer.{Text, take, drop, overlay, text_of}
use operating_system_challen.Aws.State.{
  ConnectionState, sending_data, sending_404, data_sent, connection_closed, ResourceType,
  none_resource, static_resource, dynamic_resource, Connection, Sent, accepted, would_block, failed,
  mod_out, Kernel, ok, fault, out_of_fuel, Cmd, pure, ◌>>=◌, ◌>>◌, get_conn, modify, call,
  die_unless,
}
use operating_system_challen.Aws.Code.{
  minus_one, prepare_send_reply_header, epoll_ctl, connection_remove, send, connection_send_data,
}

module _ {W : Type 0} (k : Kernel W) where
  -- `close(conn->fd)`
  unfoldable pub close_file : ℕ → Cmd W (Unit {0})
  close_file fd s = ok tt (record s { world = k.on_close fd s.world })

  abbrev pub set_state : ConnectionState → Cmd W (Unit {0})
  set_state state = modify λ c. record c { state = state }

  -- `connection_open_file` behind `open`, and behind `fstat`.
  unfoldable pub after_fstat : ℕ → Option ℕ → Cmd W ℕ
  unfolding close_file
  after_fstat fd none = do close_file fd; pure minus_one
  after_fstat fd (some size) = do modify (λ c. record c { file_size = size }); pure 0

  unfoldable pub after_open : Option ℕ → Cmd W ℕ
  unfolding after_fstat
  after_open none = do modify (λ c. record c { fd = minus_one }); pure minus_one
  after_open (some fd) = do
    modify (λ c. record c { fd = fd })
    size ← (λ s. ok (k.on_fstat fd s.world) s)
    after_fstat fd size

  unfoldable pub connection_open_file : Cmd W ℕ
  unfolding after_open text_of
  connection_open_file = do
    c ← get_conn
    opened ← call (k.on_open (text_of (drop 1 c.filename)))
    after_open opened

  -- `aws_on_path_cb`: the byte behind the path has to lie in the buffer.
  unfoldable pub on_path : Text → Cmd W (Unit {0})
  unfolding overlay
  on_path path =
      if ltb (length path) k.bufsiz
      then modify (λ c. record c {
        request_path = overlay c.request_path 0 (path ++ 0 ∷ []);
        have_path = 1;
      })
      else (λ s. fault)

  unfoldable pub run_callbacks : List Text → Cmd W (Unit {0})
  unfolding on_path
  run_callbacks [] = pure tt
  run_callbacks (path ∷ paths) = do on_path path; run_callbacks paths

  unfoldable pub parse_header : Cmd W (Unit {0})
  unfolding run_callbacks
  parse_header = do c ← get_conn; run_callbacks (k.on_execute (take c.recv_len c.recv_buffer))

  -- What `connection_send_static` does with the answer of one `sendfile`.
  abbrev pub after_sendfile : ℕ → ℕ → ℕ × Bool → (ℕ → Cmd W ConnectionState) → Cmd W ConnectionState
  after_sendfile fd offset (zero, true) rest = pure sending_data
  after_sendfile fd offset (zero, false) rest = do close_file fd; pure connection_closed
  after_sendfile fd offset (suc n, again) rest = rest (offset + suc n)

  unfoldable pub send_static_loop : ℕ → ℕ → Cmd W ConnectionState
  unfolding close_file
  send_static_loop zero offset = λ s. out_of_fuel
  send_static_loop (suc fuel) offset = do
    c ← get_conn
    if not (ltb offset c.file_size) then pure data_sent else (do
      answer ← call (k.on_sendfile c.sockfd c.fd offset (c.file_size - offset))
      after_sendfile c.fd offset answer (send_static_loop fuel))

  unfoldable pub connection_send_static : ℕ → Cmd W ConnectionState
  unfolding send_static_loop
  connection_send_static fuel = send_static_loop fuel 0

  -- How much `connection_start_async_io` reads.
  abbrev pub read_size : Connection → ℕ
  read_size c =
      let left = sub64 c.file_size c.file_pos in if ltb k.bufsiz left then k.bufsiz else left

  unfoldable pub connection_start_async_io : Cmd W (Unit {0})
  unfolding close_file epoll_ctl
  connection_start_async_io = do
    c ← get_conn
    submitted ← call (k.on_io_submit c.ctx c.fd (read_size c) c.file_pos)
    if submitted
        then modify (λ c'. record c' { async_read_len = read_size c })
        else (do set_state connection_closed; close_file c.fd)
    modified ← epoll_ctl k mod_out c.sockfd
    die_unless modified

  -- The event of `io_getevents`: `res2`, `res` and the bytes read.
  unfoldable pub after_getevents : Option (ℕ × ℕ × Text) → Cmd W (Unit {0})
  unfolding overlay
  after_getevents none = set_state connection_closed
  after_getevents (some (res2, res, bytes)) =
      if not (res2 == 0) then set_state connection_closed else (do
        modify (λ c. record c {
          send_buffer = overlay c.send_buffer 0 bytes;
          file_pos = add64 c.file_pos res;
          send_len = res;
          send_pos = 0;
        })
        c ← get_conn
        set_state (if ltb c.file_pos c.file_size then sending_data else data_sent))

  unfoldable pub connection_complete_async_io : Cmd W (Unit {0})
  unfolding after_getevents
  connection_complete_async_io = do
    c ← get_conn
    event ← call (k.on_getevents c.ctx)
    after_getevents event

  -- What `connection_send_dynamic` does with the answer of one `send`.
  abbrev pub after_dynamic : Sent → Cmd W ℕ → Cmd W ℕ
  after_dynamic would_block rest = pure 0
  after_dynamic failed rest = pure minus_one
  after_dynamic (accepted n) rest = do modify (λ c. record c { send_pos = c.send_pos + n }); rest

  -- The end of `connection_send_dynamic`, behind its loop.
  unfoldable pub all_sent : Cmd W ℕ
  unfolding connection_start_async_io
  all_sent = do
    c ← get_conn
    if c.send_pos == c.send_len
        then (if ltb c.file_pos c.file_size then connection_start_async_io else set_state data_sent)
        else pure tt
    pure 0

  unfoldable pub connection_send_dynamic : ℕ → Cmd W ℕ
  unfolding all_sent send
  connection_send_dynamic zero = λ s. out_of_fuel
  connection_send_dynamic (suc fuel) = do
    c ← get_conn
    if not (ltb c.send_pos c.send_len) then all_sent else (do
      sent ← send k c.sockfd (take (c.send_len - c.send_pos) (drop c.send_pos c.send_buffer))
      after_dynamic sent (connection_send_dynamic fuel))

  -- The `switch` of `send_file` on the kind of the resource.
  unfoldable pub send_resource : ℕ → ResourceType → Cmd W Bool
  unfolding connection_send_static connection_start_async_io connection_remove
  send_resource fuel static_resource = do
    state ← connection_send_static fuel
    set_state state
    connection_remove k
    pure true
  send_resource fuel dynamic_resource = do connection_start_async_io; pure true
  send_resource fuel none_resource = do connection_remove k; pure true

  unfoldable pub send_file : ℕ → Cmd W Bool
  unfolding connection_open_file prepare_send_reply_header connection_send_data send_resource
  send_file fuel = do
    opened ← connection_open_file
    if opened == 0
        then (do
          prepare_send_reply_header k
          _ ← connection_send_data k fuel
          c ← get_conn
          send_resource fuel c.res_type)
        else (do set_state sending_404; pure false)
