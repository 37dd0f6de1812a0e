-- ===== src/Aws/Send.antt =====
-- What `connection_send_data` of async-web-server/src/aws.c puts on the socket.
use operating_system_challen.Base.{
  ℕ, zero, suc, ◌+◌, ◌-◌, ◌≤◌, ◌<◌, ltb, ltb→lt, ◌≡◌, refl, sym, ◌∙◌, ap, true, false, some, [],
  ◌∷◌, ◌++◌, length, arith, if◌then◌else◌, ◌⊎◌, Bool-cases, inl, inr,
}
use mathlib.Core.List.{append_assoc, append-nil}
use operating_system_challen.Aws.Buffer.{Text, take, drop}
use operating_system_challen.Aws.State.{
  Connection, Sent, accepted, would_block, failed, del, Kernel, State, Run, ok, fault, died,
  out_of_fuel, get_conn, modify, free_conn,
}
use operating_system_challen.Aws.Code.{
  epoll_ctl, connection_remove, get_peer_address, send, send_loop, connection_send_data,
}

take-nil : (n : ℕ) → take n [] ≡ []
take-nil zero = refl
take-nil (suc n) = refl

take-take : (n left : ℕ) (b : Text) → n ≤ left → take n (take left b) ≡ take n b
take-take zero left b h = refl
take-take (suc n) zero b h = absurd (omega arith)
take-take (suc n) (suc left) [] h = refl
take-take (suc n) (suc left) (x ∷ b) h = ap (λ c. x ∷ c) (take-take n left b (omega arith))

-- The front of a buffer, and behind it the front of the rest.
take_more :
    (b : Text) (total left n : ℕ)
    → n ≤ left
    → take total b ++ take n (take left (drop total b)) ≡ take (total + n) b
take_more b zero left n h = take-take n left b h ∙ ap (λ m. take m b) (omega arith)
take_more [] (suc total) left n h =
    ap (take n) (take-nil left) ∙ take-nil n ∙ sym (take-nil (suc total + n))
take_more (x ∷ b) (suc total) left n h =
    let e : suc total + n ≡ suc (total + n) = omega arith in
    ap (λ c. x ∷ c) (take_more b total left n h) ∙ ap (λ m. take m (x ∷ b)) (sym e)

pub length-take : (n : ℕ) (b : Text) → length (take n b) ≤ n
length-take zero b = omega arith
length-take (suc n) [] = omega arith
length-take (suc n) (x ∷ b) = omega (arith, length-take n b)

module _ {W : Type 0} where
  -- A run that returns, with what its value and its state satisfy.
  unfoldable pub Returns : {A : Type 0} → Run W A → (A → State W → Type 0) → Type 0
  Returns (ok a s) P = P a s
  Returns fault P = ⊥
  Returns died P = ⊥
  Returns out_of_fuel P = ⊥

  -- What the code relies on: `send` takes no more bytes than it gets, and a socket can be taken off
  -- epoll.
  pub record Behaves (k : Kernel W) : Type 0 where
    pub takes_some :
        (fd n : ℕ) (bytes : Text) (w w' : W)
        → k.on_send fd bytes w ≡ (accepted n, w')
        → n ≤ length bytes
    pub receives_some :
        (fd len : ℕ) (bytes : Text) (w w' : W)
        → k.on_recv fd len w ≡ (some bytes, w')
        → length bytes ≤ len
    pub removes : (fd : ℕ) (w : W) → (k.on_epoll_ctl del fd w).0 ≡ true

  pub get_conn-ok : (s : State W) → s.allocated ≡ true → get_conn s ≡ ok s.conn s
  unfolding get_conn
  get_conn-ok s a = ap (λ b. if b then ok s.conn s else fault) a

  pub modify-ok :
      (f : Connection → Connection) (s : State W)
      → s.allocated ≡ true
      → modify f s ≡ ok tt (record s { conn = f s.conn })
  unfolding modify
  modify-ok f s a = ap (λ b. if b then ok tt (record s { conn = f s.conn }) else fault) a

  free_conn-ok :
      (s : State W) → s.allocated ≡ true → free_conn s ≡ ok tt (record s { allocated = false })
  unfolding free_conn
  free_conn-ok s a = ap (λ b. if b then ok tt (record s { allocated = false }) else fault) a

  -- How far `connection_send_data` came: the front of the buffer is on the socket, all of it where the
  -- connection lives on, and the fields of the connection are as they were.
  abbrev pub IsSent : State W → ℕ → State W → Type 0
  IsSent s total t =
      (m : ℕ) × (m ≤ s.conn.send_len)
      × (t.output ≡ s.output ++ take m s.conn.send_buffer)
      × (t.conn ≡ s.conn)
      × (((t.allocated ≡ true) × (m ≡ s.conn.send_len) × (total ≡ s.conn.send_len))
          ⊎ (t.allocated ≡ false))

  module _ (k : Kernel W) where
    -- The state of `connection_remove` in front of its `free`, and behind it.
    abbrev pub closed : State W → State W
    closed s = record s {
      world =
          k.on_close s.conn.sockfd
            (k.on_io_destroy s.conn.ctx (k.on_epoll_ctl del s.conn.sockfd s.world).1);
    }

    abbrev pub removed : State W → State W
    removed s = record (closed s) { allocated = false }

    module _ (good : Behaves k) where
      pub connection_remove-removed :
          (s : State W) → s.allocated ≡ true → connection_remove k s ≡ ok tt (removed s)
      unfolding connection_remove epoll_ctl
      connection_remove-removed s a =
          rw (get_conn-ok s a, good.removes s.conn.sockfd s.world, free_conn-ok (closed s) a) refl

      -- The state during the loop.
      abbrev at : State W → Text → W → State W
      at s o w = record s { output = o; world = w }

      abbrev unsent : State W → ℕ → Text
      unsent s total = take (s.conn.send_len - total) (drop total s.conn.send_buffer)

      Goes : ℕ → State W → Type 0
      Goes fuel s =
          (total : ℕ) (o : Text) (w : W)
          → total ≤ s.conn.send_len
          → o ≡ s.output ++ take total s.conn.send_buffer
          → s.conn.send_len - total < fuel
          → Returns (send_loop k fuel total (at s o w)) (IsSent s)

      round-IsSent :
          (fuel total : ℕ) (s : State W) (o : Text) (w : W)
          → s.allocated ≡ true
          → total < s.conn.send_len
          → o ≡ s.output ++ take total s.conn.send_buffer
          → s.conn.send_len - total < suc fuel
          → Goes fuel s
          → (r : Sent × W) → k.on_send s.conn.sockfd (unsent s total) w ≡ r
          → Returns (send_loop k (suc fuel) total (at s o w)) (IsSent s)
      unfolding send_loop send Returns Goes
      round-IsSent fuel total s o w a lt e more rest (would_block, w') p =
          let b : ltb total s.conn.send_len ≡ true = ground arith in
          rw (get_conn-ok (at s o w) a, b, p, connection_remove-removed (at s o w') a)
            (total, omega arith, e, refl, inr refl)
      round-IsSent fuel total s o w a lt e more rest (failed, w') p =
          let b : ltb total s.conn.send_len ≡ true = ground arith in
          rw (get_conn-ok (at s o w) a, b, p, connection_remove-removed (at s o w') a)
            (total, omega arith, e, refl, inr refl)
      round-IsSent fuel total s o w a lt e more rest (accepted zero, w') p =
          let b : ltb total s.conn.send_len ≡ true = ground arith in
          rw (get_conn-ok (at s o w) a, b, p, append-nil o, connection_remove-removed (at s o w') a)
            (total, omega arith, e, refl, inr refl)
      round-IsSent fuel total s o w a lt e more rest (accepted (suc n), w') p =
          let b : ltb total s.conn.send_len ≡ true = ground arith in
          let q = good.takes_some s.conn.sockfd (suc n) (unsent s total) w w' p in
          let l = length-take (s.conn.send_len - total) (drop total s.conn.send_buffer) in
          rw (get_conn-ok (at s o w) a, b, p)
            (rest (total + suc n) (o ++ take (suc n) (unsent s total)) w' (omega arith)
              (ap (λ x. x ++ take (suc n) (unsent s total)) e
                ∙ append_assoc s.output (take total s.conn.send_buffer) _
                ∙ ap (λ x. s.output ++ x)
                    (take_more s.conn.send_buffer total (s.conn.send_len - total) (suc n)
                      (omega arith)))
              (omega arith))

      send_loop-IsSent : (fuel : ℕ) (s : State W) → s.allocated ≡ true → Goes fuel s
      unfolding send_loop Returns Goes
      send_loop-IsSent zero s a total o w le e more = absurd (omega arith)
      send_loop-IsSent (suc fuel) s a total o w le e more =
          elim (Bool-cases (ltb total s.conn.send_len)) [
            | inl b ↦
                round-IsSent fuel total s o w a (omega (arith, ltb→lt total s.conn.send_len b)) e
                  more (send_loop-IsSent fuel s a) _ refl
            | inr b ↦
                let f : total ≡ s.conn.send_len = ground arith in
                rw (get_conn-ok (at s o w) a, b) (total, le, e, refl, inl (a, f, f))
          ]

      -- Where `send` takes no more than it gets, a socket can be taken off epoll, and the fuel is above the
      -- length of the message, `connection_send_data` of a live connection returns. What it has put on
      -- the socket is the front of the send buffer: the whole message, and its length is the result, or
      -- less, and the connection has been freed.
      pub connection_send_data-IsSent :
          (fuel : ℕ) (s : State W)
          → s.allocated ≡ true
          → s.conn.send_len < fuel
          → Returns (connection_send_data k fuel s) (IsSent s)
      unfolding connection_send_data get_peer_address Returns Goes
      connection_send_data-IsSent fuel s a more =
          elim (Bool-cases (k.on_getpeername s.conn.sockfd s.world)) [
            | inl b ↦
                rw (get_conn-ok s a, b)
                  (send_loop-IsSent fuel s a 0 s.output s.world (omega arith) (sym (append-nil _))
                    (omega arith))
            | inr b ↦
                rw (get_conn-ok s a, b, connection_remove-removed s a)
                  (0, omega arith, sym (append-nil s.output), refl, inr refl)
          ]
