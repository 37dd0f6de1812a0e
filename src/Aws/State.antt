-- ===== src/Aws/State.antt =====
-- What the handlers of async-web-server/src/aws.c run on: one connection, whether its memory is still
-- allocated, the bytes that its socket accepted, and the kernel, whose calls are parameters.
use operating_system_challen.Base.{ℕ, Bool, true, false, Option, List, if◌then◌else◌}
use operating_system_challen.Aws.Buffer.{Text}

pub data ConnectionState : Type 0 where
  initial receiving_data request_received sending_data sending_header sending_404 : ConnectionState
  async_ongoing data_sent header_sent sent_404 connection_closed no_state : ConnectionState

pub data ResourceType : Type 0 where
  none_resource static_resource dynamic_resource : ResourceType

-- The fields of `struct connection` that the code uses; the AIO control block is built at each call.
pub record Connection : Type 0 where
  pub fd : ℕ
  pub filename : Text
  pub sockfd : ℕ
  pub ctx : ℕ
  pub file_size : ℕ
  pub recv_buffer : Text
  pub recv_len : ℕ
  pub send_buffer : Text
  pub send_len : ℕ
  pub send_pos : ℕ
  pub file_pos : ℕ
  pub async_read_len : ℕ
  pub have_path : ℕ
  pub request_path : Text
  pub res_type : ResourceType
  pub state : ConnectionState

-- A result of `send`; `would_block` is EAGAIN or EWOULDBLOCK.
pub data Sent : Type 0 where
  accepted : ℕ → Sent
  would_block failed : Sent

-- EPOLL_CTL_ADD with EPOLLIN, EPOLL_CTL_MOD with EPOLLOUT | EPOLLET, EPOLL_CTL_DEL
pub data EpollOp : Type 0 where
  add_in mod_out del : EpollOp

-- The calls on system and library; a failed call is `none` or false. `on_execute` is
-- `http_parser_execute`: the paths that it hands to the callback. `on_getevents` has `res2`, `res`
-- and what the read put into the send buffer. `on_sendfile` has the number of bytes sent, 0 for a
-- negative result too, and whether `errno` is EAGAIN or EWOULDBLOCK. `on_setfl` adds O_NONBLOCK.
pub record Kernel (W : Type 0) : Type 0 where
  pub bufsiz : ℕ
  pub on_epoll_ctl : EpollOp → (fd : ℕ) → W → Bool × W
  pub on_getpeername : (fd : ℕ) → W → Bool
  pub on_recv : (fd len : ℕ) → W → Option Text × W
  pub on_send : (fd : ℕ) → Text → W → Sent × W
  pub on_open : Text → W → Option ℕ × W
  pub on_fstat : (fd : ℕ) → W → Option ℕ
  pub on_close : (fd : ℕ) → W → W
  pub on_sendfile : (fd file offset len : ℕ) → W → (ℕ × Bool) × W
  pub on_accept : W → Option ℕ × W
  pub on_getfl : (fd : ℕ) → W → Option ℕ
  pub on_setfl : (fd flags : ℕ) → W → Bool × W
  pub on_io_setup : W → Option ℕ × W
  pub on_io_destroy : (ctx : ℕ) → W → W
  pub on_io_submit : (ctx fd len offset : ℕ) → W → Bool × W
  pub on_getevents : (ctx : ℕ) → W → Option (ℕ × ℕ × Text) × W
  pub on_execute : Text → List Text

pub record State (W : Type 0) : Type 0 where
  pub conn : Connection
  pub allocated : Bool
  pub output : Text
  pub world : W

-- `fault` is an access to a freed connection or outside of a buffer; `died` is `DIE`.
pub data Run (W A : Type 0) : Type 0 where
  ok : A → State W → Run W A
  fault : Run W A
  died : Run W A
  out_of_fuel : Run W A

abbrev pub Cmd : Type 0 → Type 0 → Type 0
Cmd W A = State W → Run W A

module _ {W : Type 0} where
  abbrev pub pure : {A : Type 0} → A → Cmd W A
  pure = ok

  abbrev pub and_then : {A B : Type 0} → Run W A → (A → Cmd W B) → Run W B
  and_then (ok a s) f = f a s
  and_then fault f = fault
  and_then died f = died
  and_then out_of_fuel f = out_of_fuel

  infixl 5 ◌>>=◌ ◌>>◌
  abbrev pub ◌>>=◌ : {A B : Type 0} → Cmd W A → (A → Cmd W B) → Cmd W B
  m >>= f = λ s. and_then (m s) f

  abbrev pub ◌>>◌ : {B : Type 0} → Cmd W (Unit {0}) → Cmd W B → Cmd W B
  m >> n = m >>= λ _. n

  -- The connection, which is read and written only while it is allocated.
  unfoldable pub get_conn : Cmd W Connection
  get_conn s = if s.allocated then ok s.conn s else fault

  unfoldable pub modify : (Connection → Connection) → Cmd W (Unit {0})
  modify f s = if s.allocated then ok tt (record s { conn = f s.conn }) else fault

  -- `free(conn)`
  unfoldable pub free_conn : Cmd W (Unit {0})
  free_conn s = if s.allocated then ok tt (record s { allocated = false }) else fault

  -- A call on the kernel.
  abbrev pub call : {A : Type 0} → (W → A × W) → Cmd W A
  call f s = let (a, w) = f s.world in ok a (record s { world = w })

  -- `DIE(!b, ...)`
  abbrev pub die_unless : Bool → Cmd W (Unit {0})
  die_unless true = ok tt
  die_unless false = λ s. died
