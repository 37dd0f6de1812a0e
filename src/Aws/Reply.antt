-- ===== src/Aws/Reply.antt =====
-- The reply to a request for what is not there, in `handle_input` of async-web-server/src/aws.c.
use operating_system_challen.Base.{
  ℕ, suc, ◌+◌, ◌-◌, ◌<◌, ◌==◌, ltb, ◌≡◌, refl, sym, ◌∙◌, ap, subst, Bool, true, false, [], ◌++◌,
  length, arith, if◌then◌else◌,
}
use operating_system_challen.Aws.Buffer.{Text, take, drop, overlay, zeros, not_found_header}
use operating_system_challen.Aws.State.{
  sending_404, request_received, accepted, failed, Kernel, State, ok, fault, Cmd, pure, get_conn,
  modify, and_then,
}
use operating_system_challen.Aws.Send.{
  Returns, Behaves, get_conn-ok, modify-ok, removed, connection_remove-removed,
}
use operating_system_challen.Aws.Code.{
  prepare_send_404, connection_remove, get_peer_address, send, send_loop, connection_send_data,
  minus_one,
}
use operating_system_challen.Aws.Files.{parse_header, run_callbacks}
use operating_system_challen.Aws.Handlers.{input_round, handle_input, answer_request}
use operating_system_challen.Aws.NotFound.{reply_buffer, reply_text, take-append}

module _ {W : Type 0} (k : Kernel W) (good : Behaves k) where
  -- The connection behind `prepare_send_404`.
  abbrev pub prepared : State W → State W
  prepared s = record s {
    conn = record s.conn {
      send_buffer = reply_buffer k.bufsiz;
      send_len = length not_found_header;
      send_pos = 0;
      state = sending_404;
    };
  }

  prepare_send_404-prepared :
      (s : State W) → s.allocated ≡ true → prepare_send_404 k s ≡ ok tt (prepared s)
  unfolding prepare_send_404
  prepare_send_404-prepared s a =
      modify-ok _ s a
      ∙ ap
          (λ t. ok tt (record s {
            conn = record s.conn {
              send_buffer = reply_buffer k.bufsiz;
              send_len = length t;
              send_pos = 0;
              state = sending_404;
            };
          }))
          (reply_text k.bufsiz)

  -- A message of `suc n` bytes that the socket takes at once, and one that it refuses.
  abbrev of_length : ℕ → State W → State W
  of_length n s = record s { conn = record s.conn { send_len = suc n } }

  send_data-all :
      (fuel n : ℕ) (s : State W) (w : W)
      → s.allocated ≡ true
      → k.on_getpeername s.conn.sockfd s.world ≡ true
      → k.on_send s.conn.sockfd (take (suc n) s.conn.send_buffer) s.world ≡ (accepted (suc n), w)
      → connection_send_data k (suc (suc fuel)) (of_length n s)
        ≡ ok (suc n) (record (of_length n s) {
          output = s.output ++ take (suc n) (take (suc n) s.conn.send_buffer);
          world = w;
        })
  unfolding connection_send_data get_peer_address send_loop send
  send_data-all fuel n s w a p e =
      let b : ltb 0 (suc n) ≡ true = ground arith in
      let z : suc n - 0 ≡ suc n = omega arith in
      let d : 0 + suc n ≡ suc n = omega arith in
      let f : ltb (suc n) (suc n) ≡ false = ground arith in
      let o = s.output ++ take (suc n) (take (suc n) s.conn.send_buffer) in
      rw
        (
          get_conn-ok (of_length n s) a,
          p,
          get_conn-ok (of_length n s) a,
          b,
          z,
          e,
          d,
          get_conn-ok (record (of_length n s) { output = o; world = w }) a,
          f,
        )
        refl

  send_data-refused :
      (fuel : ℕ) (s : State W) (w : W)
      → s.allocated ≡ true
      → k.on_getpeername s.conn.sockfd s.world ≡ true
      → 0 < s.conn.send_len
      → k.on_send s.conn.sockfd (take s.conn.send_len s.conn.send_buffer) s.world ≡ (failed, w)
      → connection_send_data k (suc fuel) s ≡ ok minus_one (removed k (record s { world = w }))
  unfolding connection_send_data get_peer_address send_loop send
  send_data-refused fuel s w a p more e =
      let b : ltb 0 s.conn.send_len ≡ true = ground arith in
      let z : s.conn.send_len - 0 ≡ s.conn.send_len = omega arith in
      rw
        (
          get_conn-ok s a,
          p,
          get_conn-ok s a,
          b,
          z,
          e,
          connection_remove-removed k good (record s { world = w }) a,
        )
        refl

  -- What the socket is offered.
  abbrev pub offered : Text
  offered = take 90 (reply_buffer k.bufsiz)

  offered_header : offered ≡ not_found_header
  unfolding overlay
  offered_header =
      take-append not_found_header (drop (0 + length not_found_header) (zeros k.bufsiz))

  -- The reply of a live connection whose state is `sending_404`: where the socket takes the header at
  -- once, `handle_input` returns with the header of a missing page on the socket, and the connection
  -- has been freed.
  sending_404-Returns :
      (rounds fuel : ℕ) (s : State W) (w : W)
      → s.allocated ≡ true
      → s.conn.state ≡ sending_404
      → k.on_getpeername s.conn.sockfd s.world ≡ true
      → k.on_send s.conn.sockfd not_found_header s.world ≡ (accepted 90, w)
      → Returns
          (handle_input k (suc rounds) (suc (suc fuel)) s)
          λ _ t. (t.allocated ≡ false) × (t.output ≡ s.output ++ not_found_header)
  unfolding handle_input input_round Returns modify
  sending_404-Returns rounds fuel s w a e p h =
      let f : k.on_send s.conn.sockfd offered s.world ≡ (accepted 90, w) =
        ap (λ t. k.on_send s.conn.sockfd t s.world) offered_header ∙ h in
      let done = record (prepared s) { output = s.output ++ take 90 offered; world = w } in
      rw
        (
          get_conn-ok s a,
          e,
          prepare_send_404-prepared s a,
          send_data-all fuel 89 (prepared s) w a p f,
          connection_remove-removed k good done a,
        )
        (refl, ap (λ t. s.output ++ take 90 t) offered_header)

  -- A live connection whose state is `sending_404`: where the peer's address is known, a socket can be
  -- taken off epoll, and `send` fails, `connection_send_data` frees the connection, and `handle_input`
  -- then removes it once more, which reads it behind its `free`.
  pub sending_404-fault :
      (rounds fuel : ℕ) (s : State W) (w : W)
      → s.allocated ≡ true
      → s.conn.state ≡ sending_404
      → k.on_getpeername s.conn.sockfd s.world ≡ true
      → k.on_send s.conn.sockfd not_found_header s.world ≡ (failed, w)
      → handle_input k (suc rounds) (suc fuel) s ≡ fault
  unfolding handle_input input_round connection_remove get_conn modify
  sending_404-fault rounds fuel s w a e p h =
      let f : k.on_send s.conn.sockfd offered s.world ≡ (failed, w) =
        ap (λ t. k.on_send s.conn.sockfd t s.world) offered_header ∙ h in
      rw
        (
          get_conn-ok s a,
          e,
          prepare_send_404-prepared s a,
          send_data-refused fuel (prepared s) w a p (omega arith) f,
        )
        refl

  answer_request-none :
      (fuel : ℕ) (s : State W)
      → s.allocated ≡ true
      → s.conn.have_path ≡ 0
      → k.on_execute (take s.conn.recv_len s.conn.recv_buffer) ≡ []
      → answer_request k fuel s
        ≡ ok false (record s { conn = record s.conn { state = sending_404 } })
  unfolding answer_request parse_header run_callbacks
  answer_request-none fuel s a q x =
      let z : (s.conn.have_path == 0) ≡ true = ground arith in
      rw
        (
          get_conn-ok s a,
          x,
          get_conn-ok s a,
          z,
          modify-ok (λ c. record c { state = sending_404 }) s a,
        )
        refl

  -- A live connection that has received a request in which the parser finds no path, and has none from
  -- before: where the peer's address is known, a socket can be taken off epoll, and `send` takes the
  -- header at once, `handle_input` returns after two rounds with the header of a missing page, and
  -- nothing else, put on the socket, and the connection has been freed.
  pub handle_input-not_found :
      (rounds fuel : ℕ) (s : State W) (w : W)
      → s.allocated ≡ true
      → s.conn.state ≡ request_received
      → s.conn.have_path ≡ 0
      → k.on_execute (take s.conn.recv_len s.conn.recv_buffer) ≡ []
      → k.on_getpeername s.conn.sockfd s.world ≡ true
      → k.on_send s.conn.sockfd not_found_header s.world ≡ (accepted 90, w)
      → Returns
          (handle_input k (suc (suc rounds)) (suc (suc fuel)) s)
          λ _ t. (t.allocated ≡ false) × (t.output ≡ s.output ++ not_found_header)
  unfolding handle_input input_round
  handle_input-not_found rounds fuel s w a e q x p h =
      subst
        (λ r. Returns r λ _ t. (t.allocated ≡ false) × (t.output ≡ s.output ++ not_found_header))
        (sym round) (sending_404-Returns rounds fuel sent_on w a refl p h)
    where
      sent_on : State W
      sent_on = record s { conn = record s.conn { state = sending_404 } }

      next : Bool → Cmd W (Unit {0})
      next ends = if ends then pure tt else handle_input k (suc rounds) (suc (suc fuel))

      round :
          handle_input k (suc (suc rounds)) (suc (suc fuel)) s
          ≡ handle_input k (suc rounds) (suc (suc fuel)) sent_on
      round = rw (get_conn-ok s a) (
          ap (λ c. and_then (input_round k (suc (suc fuel)) c s) next) e
          ∙ ap (λ r. and_then r next) (answer_request-none (suc (suc fuel)) s a q x))
