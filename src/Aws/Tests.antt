-- ===== src/Aws/Tests.antt =====
-- A connection under a small kernel with buffers of 128 bytes. Its world says whether the peer is
-- there: `send` then takes all, and `recv` finds the end of a header; else both fail.
use operating_system_challen.Base.{
  ℕ, ◌≤◌, ◌≡◌, refl, ap, Bool, true, false, Option, none, some, [], ◌∷◌, ◌++◌, length, arith, inl,
}
use operating_system_challen.Aws.Buffer.{Text, take, zeros, end_of_header, not_found_header}
use operating_system_challen.Aws.State.{
  ConnectionState, initial, request_received, none_resource, Sent, accepted, would_block, failed,
  Kernel, State, fault,
}
use operating_system_challen.Aws.Send.{
  Returns, Behaves, IsSent, length-take, connection_send_data-IsSent,
}
use operating_system_challen.Aws.Receive.{
  Breaks, HasRequest, receive_data-HasRequest, receive_data-fault,
}
use operating_system_challen.Aws.Reply.{handle_input-not_found}
use operating_system_challen.Aws.Code.{connection_send_data, receive_data}
use operating_system_challen.Aws.Handlers.{handle_input}

abbrev toy_send : Bool → Text → Sent
toy_send true bytes = accepted (length bytes)
toy_send false bytes = failed

abbrev toy_recv : Bool → ℕ → Option Text
toy_recv true len = some (take len end_of_header)
toy_recv false len = none

abbrev toy : Kernel Bool
toy = record {
  bufsiz = 128;
  on_epoll_ctl = λ op fd w. (true, w);
  on_getpeername = λ fd w. true;
  on_recv = λ fd len w. (toy_recv w len, w);
  on_send = λ fd bytes w. (toy_send w bytes, w);
  on_open = λ name w. (none, w);
  on_fstat = λ fd w. none;
  on_close = λ fd w. w;
  on_sendfile = λ fd file offset len w. ((0, false), w);
  on_accept = λ w. (some 7, w);
  on_getfl = λ fd w. some 2;
  on_setfl = λ fd flags w. (true, w);
  on_io_setup = λ w. (some 1, w);
  on_io_destroy = λ ctx w. w;
  on_io_submit = λ ctx fd len offset w. (true, w);
  on_getevents = λ ctx w. (none, w);
  on_execute = λ bytes. [];
}

-- The number in an answer of `send`, and the bytes in one of `recv`.
size_of : Sent → ℕ
size_of (accepted n) = n
size_of would_block = 0
size_of failed = 0

bytes_of : Option Text → Text
bytes_of none = []
bytes_of (some t) = t

toy_send-size : (w : Bool) (bytes : Text) → size_of (toy_send w bytes) ≤ length bytes
unfolding size_of
toy_send-size true bytes = omega arith
toy_send-size false bytes = omega arith

toy_recv-length : (w : Bool) (len : ℕ) → length (bytes_of (toy_recv w len)) ≤ len
unfolding bytes_of
toy_recv-length true len = length-take len end_of_header
toy_recv-length false len = omega arith

toy-Behaves : Behaves toy
unfolding size_of bytes_of
toy-Behaves = record {
  takes_some = λ fd n bytes w w' e.
      let f = ap (λ r. size_of r.0) e in let g = toy_send-size w bytes in omega arith;
  receives_some = λ fd len bytes w w' e.
      let f : bytes_of (toy_recv w len) ≡ bytes = ap (λ r. bytes_of r.0) e in
      let g = toy_recv-length w len in let h = ap (λ b. length b) f in omega arith;
  removes = λ fd w. refl;
}

-- A live connection in the given state, with three bytes to send.
abbrev live : ConnectionState → Bool → State Bool
live state peer = record {
  conn = record {
    fd = 3;
    filename = [];
    sockfd = 7;
    ctx = 1;
    file_size = 0;
    recv_buffer = zeros 128;
    recv_len = 4;
    send_buffer = 97 ∷ 98 ∷ 99 ∷ [];
    send_len = 3;
    send_pos = 0;
    file_pos = 0;
    async_read_len = 0;
    have_path = 0;
    request_path = [];
    res_type = none_resource;
    state = state;
  };
  allocated = true;
  output = [];
  world = peer;
}

connection_send_data-IsSent_example :
    Returns (connection_send_data toy 4 (live initial true)) (IsSent (live initial true))
connection_send_data-IsSent_example =
    connection_send_data-IsSent toy toy-Behaves 4 (live initial true) refl (omega arith)

length-zeros : length (zeros 128) ≡ 128
unfolding zeros
length-zeros = refl

receive_data-HasRequest_example :
    HasRequest toy
      (Breaks toy
        (live initial true).conn.sockfd
        (live initial true).conn.recv_buffer
        0
        (live initial true).world)
      (receive_data toy 129 (live initial true))
receive_data-HasRequest_example =
    receive_data-HasRequest toy toy-Behaves 129 (live initial true) (refl, length-zeros)
      (omega arith) refl

receive_data-fault_example : receive_data toy 5 (live initial false) ≡ fault
receive_data-fault_example =
    receive_data-fault toy toy-Behaves 4 (live initial false) false refl (omega arith) refl
      (inl refl)

handle_input-not_found_example :
    Returns
      (handle_input toy 2 2 (live request_received true))
      λ _ t. (t.allocated ≡ false) × (t.output ≡ [] ++ not_found_header)
handle_input-not_found_example =
    handle_input-not_found toy toy-Behaves 0 0 (live request_received true) true refl refl refl refl
      refl refl
