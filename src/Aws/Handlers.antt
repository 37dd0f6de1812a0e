-- ===== src/Aws/Handlers.antt =====
-- What the server of async-web-server/src/aws.c does with an event. `rounds` bounds the loop of
-- `handle_input`, `fuel` those of the functions that it calls.
use operating_system_challen.Base.{
  ℕ, zero, suc, ◌==◌, Bool, true, false, Option, none, some, if◌then◌else◌,
}
use operating_system_challen.Aws.State.{
  ConnectionState, initial, receiving_data, request_received, sending_data, sending_header,
  sending_404, async_ongoing, data_sent, header_sent, sent_404, connection_closed, no_state,
  ResourceType, none_resource, static_resource, dynamic_resource, add_in, Kernel, ok, out_of_fuel,
  Cmd, pure, ◌>>=◌, ◌>>◌, get_conn, call, die_unless,
}
use operating_system_challen.Aws.Code.{
  minus_one, prepare_send_404, get_resource_type, epoll_ctl, connection_remove, connection_create,
  receive_data, connection_send_data,
}
use operating_system_challen.Aws.Files.{
  set_state, parse_header, connection_complete_async_io, connection_send_dynamic, send_file,
}

module _ {W : Type 0} (k : Kernel W) where
  -- One round of the loop of `handle_input`: whether the function returns.
  abbrev pub is_file : ResourceType → Bool
  is_file none_resource = false
  is_file static_resource = true
  is_file dynamic_resource = true

  unfoldable pub answer_request : ℕ → Cmd W Bool
  unfolding parse_header get_resource_type send_file
  answer_request fuel = do
    parse_header k
    c ← get_conn
    if c.have_path == 0 then (do set_state k sending_404; pure false) else (do
      kind ← get_resource_type k
      if is_file kind then send_file k fuel else (do set_state k sending_404; pure false))

  unfoldable pub input_round : ℕ → ConnectionState → Cmd W Bool
  unfolding receive_data answer_request prepare_send_404 connection_send_data connection_remove
  input_round fuel initial = do set_state k receiving_data; receive_data k fuel; pure false
  input_round fuel request_received = answer_request fuel
  input_round fuel sending_404 = do
    prepare_send_404 k
    _ ← connection_send_data k fuel
    connection_remove k
    pure true
  input_round fuel connection_closed = do connection_remove k; pure true
  input_round fuel receiving_data = pure true
  input_round fuel sending_data = pure true
  input_round fuel sending_header = pure true
  input_round fuel async_ongoing = pure true
  input_round fuel data_sent = pure true
  input_round fuel header_sent = pure true
  input_round fuel sent_404 = pure true
  input_round fuel no_state = pure true

  unfoldable pub handle_input : (rounds fuel : ℕ) → Cmd W (Unit {0})
  unfolding input_round
  handle_input zero fuel = λ s. out_of_fuel
  handle_input (suc rounds) fuel = do
    c ← get_conn
    ends ← input_round fuel c.state
    if ends then pure tt else handle_input rounds fuel

  unfoldable pub handle_output : ℕ → Cmd W (Unit {0})
  unfolding connection_complete_async_io connection_send_dynamic
  handle_output fuel = do
    connection_complete_async_io k
    ret ← connection_send_dynamic k fuel
    if ret == minus_one then set_state k connection_closed else pure tt

  -- The tests of the event for EPOLLOUT and EPOLLIN.
  unfoldable pub handle_client : (rounds fuel : ℕ) → (is_out is_in : Bool) → Cmd W (Unit {0})
  unfolding handle_output handle_input
  handle_client rounds fuel is_out is_in = do
    if is_out then handle_output fuel else pure tt
    if is_in then handle_input rounds fuel else pure tt

  -- `handle_new_connection` behind `accept`, and behind the first `fcntl`.
  abbrev pub set_nonblock : ℕ → Option ℕ → Cmd W (Unit {0})
  set_nonblock sockfd none = die_unless false
  set_nonblock sockfd (some flags) = do
    done ← call (k.on_setfl sockfd flags)
    die_unless done
    created ← connection_create k sockfd
    die_unless created
    added ← epoll_ctl k add_in sockfd
    die_unless added

  abbrev pub after_accept : Option ℕ → Cmd W (Unit {0})
  after_accept none = die_unless false
  after_accept (some sockfd) = do
    flags ← (λ s. ok (k.on_getfl sockfd s.world) s)
    set_nonblock sockfd flags

  unfoldable pub handle_new_connection : Cmd W (Unit {0})
  handle_new_connection = do sockfd ← call k.on_accept; after_accept sockfd
