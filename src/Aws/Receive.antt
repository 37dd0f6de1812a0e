-- ===== src/Aws/Receive.antt =====
-- What `receive_data` of async-web-server/src/aws.c leaves in the connection.
use operating_system_challen.Base.{
  ℕ, zero, suc, ◌+◌, ◌-◌, ◌≤◌, ◌<◌, ltb, ltb→lt, ◌≡◌, refl, ◌∙◌, ap, true, false, Option, none,
  some, [], ◌∷◌, ◌++◌, length, length-append, arith, ◌⊎◌, Bool-cases, inl, inr,
}
use operating_system_challen.Aws.Buffer.{
  Text, take, drop, overlay, text_of, contains, end_of_header,
}
use operating_system_challen.Aws.State.{
  request_received, Kernel, State, Run, ok, fault, died, out_of_fuel, modify, and_then,
}
use operating_system_challen.Aws.Send.{
  Returns, Behaves, get_conn-ok, modify-ok, connection_remove-removed,
}
use operating_system_challen.Aws.Code.{receive_loop, get_peer_address, receive_data}

length-take_of : (n : ℕ) (b : Text) → n ≤ length b → length (take n b) ≡ n
length-take_of zero b h = omega arith
length-take_of (suc n) [] h = absurd (omega arith)
length-take_of (suc n) (x ∷ b) h = ap suc (length-take_of n b (omega arith))

length-drop : (n : ℕ) (b : Text) → length (drop n b) ≡ length b - n
length-drop zero b = omega arith
length-drop (suc n) [] = omega arith
length-drop (suc n) (x ∷ b) = omega (arith, length-drop n b)

pub length-overlay :
    (buffer : Text) (at : ℕ) (bytes : Text)
    → at + length bytes ≤ length buffer
    → length (overlay buffer at bytes) ≡ length buffer
unfolding overlay
length-overlay buffer at bytes h =
    let a = length-append (take at buffer) (bytes ++ drop (at + length bytes) buffer) in
    let b = length-append bytes (drop (at + length bytes) buffer) in
    let c = length-take_of at buffer (omega arith) in
    let d = length-drop (at + length bytes) buffer in a ∙ omega arith

module _ {W : Type 0} (k : Kernel W) where
  -- A connection whose receive buffer has its size.
  abbrev pub IsLive : State W → Type 0
  IsLive s = (s.allocated ≡ true) × (length s.conn.recv_buffer ≡ k.bufsiz)

  -- A request of `n` bytes: it fits, and it has the empty line or fills the buffer.
  abbrev pub IsRequest : ℕ → State W → Type 0
  IsRequest n t =
      IsLive t
      × (n ≤ k.bufsiz)
      × ((contains (text_of t.conn.recv_buffer) end_of_header ≡ true) ⊎ (n ≡ k.bufsiz))

  -- Calls of `recv` on the socket `fd` of which each brings bytes, and none the empty line, up to one
  -- that fails or finds the connection closed by the peer: from a buffer with `total` bytes on.
  pub data Breaks (fd : ℕ) : (buffer : Text) (total : ℕ) → W → Type 0 where
    fails :
        {buffer : Text} {total : ℕ} {w : W} (w' : W)
        → total < k.bufsiz
        → k.on_recv fd (k.bufsiz - total) w ≡ (none, w')
        → Breaks fd buffer total w
    closed :
        {buffer : Text} {total : ℕ} {w : W} (w' : W)
        → total < k.bufsiz
        → k.on_recv fd (k.bufsiz - total) w ≡ (some [], w')
        → Breaks fd buffer total w
    brings :
        {buffer : Text} {total : ℕ} {w : W} (b : ℕ) (bs : Text) (w' : W)
        → total < k.bufsiz
        → k.on_recv fd (k.bufsiz - total) w ≡ (some (b ∷ bs), w')
        → contains (text_of (overlay buffer total (b ∷ bs))) end_of_header ≡ false
        → Breaks fd (overlay buffer total (b ∷ bs)) (total + length (b ∷ bs)) w'
        → Breaks fd buffer total w

  abbrev IsReceived : (broken : Type 0) → ℕ → State W → Type 0
  IsReceived broken n t = ((t.allocated ≡ false) × broken) ⊎ IsRequest n t

  IsReceived-mono :
      {broken broken' : Type 0} (r : Run W ℕ)
      → (broken → broken')
      → Returns r (IsReceived broken)
      → Returns r (IsReceived broken')
  unfolding Returns
  IsReceived-mono (ok n t) f (inl (a, h)) = inl (a, f h)
  IsReceived-mono (ok n t) f (inr h) = inr h
  IsReceived-mono fault f h = h
  IsReceived-mono died f h = h
  IsReceived-mono out_of_fuel f h = h

  -- How `receive_data` ends: with a request; with an access to the connection that it has freed,
  -- where the receiving breaks off; and in no other way.
  unfoldable pub HasRequest : (broken : Type 0) → Run W (Unit {0}) → Type 0
  HasRequest broken (ok _ t) = IsRequest t.conn.recv_len t × (t.conn.state ≡ request_received)
  HasRequest broken fault = broken
  HasRequest broken died = ⊥
  HasRequest broken out_of_fuel = ⊥

  module _ (good : Behaves k) where
    Goes : ℕ → Type 0
    Goes fuel =
        (total : ℕ) (s : State W)
        → IsLive s
        → total ≤ k.bufsiz
        → k.bufsiz - total < fuel
        → Returns (receive_loop k fuel total s)
            (IsReceived (Breaks s.conn.sockfd s.conn.recv_buffer total s.world))

    -- The state behind a `recv`.
    abbrev filled : State W → ℕ → Text → W → State W
    filled s total bytes w = record s {
      conn = record s.conn { recv_buffer = overlay s.conn.recv_buffer total bytes };
      world = w;
    }

    round-IsReceived :
        (fuel total : ℕ) (s : State W)
        → IsLive s
        → total < k.bufsiz
        → k.bufsiz - total < suc fuel
        → Goes fuel
        → (r : Option Text × W) → k.on_recv s.conn.sockfd (k.bufsiz - total) s.world ≡ r
        → Returns
            (receive_loop k (suc fuel) total s)
            (IsReceived (Breaks s.conn.sockfd s.conn.recv_buffer total s.world))
    unfolding receive_loop Returns Goes
    round-IsReceived fuel total s (a, l) lt more rest (none, w) e =
        let b : ltb total k.bufsiz ≡ true = ground arith in
        rw (b, get_conn-ok s a, e, connection_remove-removed k good (record s { world = w }) a)
          (inl (refl, fails w lt e))
    round-IsReceived fuel total s (a, l) lt more rest (some [], w) e =
        let b : ltb total k.bufsiz ≡ true = ground arith in
        rw (b, get_conn-ok s a, e, connection_remove-removed k good (record s { world = w }) a)
          (inl (refl, closed w lt e))
    round-IsReceived fuel total s (a, l) lt more rest (some (x ∷ xs), w) e =
        let b : ltb total k.bufsiz ≡ true = ground arith in
        let n = good.receives_some s.conn.sockfd (k.bufsiz - total) (x ∷ xs) s.world w e in
        let o : length (overlay s.conn.recv_buffer total (x ∷ xs)) ≡ k.bufsiz =
          length-overlay s.conn.recv_buffer total (x ∷ xs) (omega arith) ∙ l in
        rw
          (
            b,
            get_conn-ok s a,
            e,
            modify-ok (λ c. record c { recv_buffer = overlay c.recv_buffer total (x ∷ xs) })
                (record s { world = w }) a,
            get_conn-ok (filled s total (x ∷ xs) w) a,
          )
          (elim (Bool-cases
            (contains (text_of (overlay s.conn.recv_buffer total (x ∷ xs))) end_of_header)) [
              | inl c ↦ rw c (inr ((a, o), omega arith, inl c))
              | inr c ↦ rw c (
                  IsReceived-mono
                    (receive_loop k fuel (total + length (x ∷ xs)) (filled s total (x ∷ xs) w))
                    (brings x xs w lt e c)
                    (rest (total + length (x ∷ xs)) (filled s total (x ∷ xs) w) (a, o) (omega arith)
                      (omega arith)))
            ])

    receive_loop-IsReceived : (fuel : ℕ) → Goes fuel
    unfolding receive_loop Returns Goes
    receive_loop-IsReceived zero total s l le more = absurd (omega arith)
    receive_loop-IsReceived (suc fuel) total s l le more = elim (Bool-cases (ltb total k.bufsiz)) [
      | inl b ↦
          round-IsReceived fuel total s l (ltb→lt total k.bufsiz b) more
            (receive_loop-IsReceived fuel) _ refl
      | inr b ↦ let e : total ≡ k.bufsiz = ground arith in rw b (inr (l, le, inr e))
    ]

    stored :
        (broken : Type 0) (r : Run W ℕ)
        → Returns r (IsReceived broken)
        → HasRequest broken (
            and_then r λ total. modify λ c. record c { recv_len = total; state = request_received })
    unfolding Returns HasRequest modify
    stored broken (ok n t) (inl (a, nothing)) = rw a nothing
    stored broken (ok n t) (inr ((a, l), le, e)) =
        rw (modify-ok (λ c. record c { recv_len = n; state = request_received }) t a)
          (((a, l), le, e), refl)
    stored broken fault h = absurd h
    stored broken died h = absurd h
    stored broken out_of_fuel h = absurd h

    -- Where `recv` gives no more than it is asked for, the peer's address is known, a socket can be
    -- taken off epoll, and the fuel is above the size of the buffer, `receive_data` of a live
    -- connection ends. If it returns, the connection lives on, the request fits the receive buffer,
    -- and the empty line has come or the buffer is full. Else it has touched a connection that it
    -- has freed, and then after calls of `recv` that brought bytes without the empty line there was
    -- one that failed or found the connection closed by the peer.
    pub receive_data-HasRequest :
        (fuel : ℕ) (s : State W)
        → IsLive s
        → k.bufsiz < fuel
        → k.on_getpeername s.conn.sockfd s.world ≡ true
        → HasRequest (Breaks s.conn.sockfd s.conn.recv_buffer 0 s.world) (receive_data k fuel s)
    unfolding receive_data get_peer_address Goes
    receive_data-HasRequest fuel s l more p =
        rw (get_conn-ok s l.0, p)
          (stored _ (receive_loop k fuel 0 s)
            (receive_loop-IsReceived fuel 0 s l (omega arith) (omega arith)))

    -- Where the peer's address is known, a socket can be taken off epoll, and the first `recv` of a
    -- live connection whose buffer is not of size 0 fails or finds the connection closed by the
    -- peer, `receive_data` frees the connection and then writes to it.
    pub receive_data-fault :
        (fuel : ℕ) (s : State W) (w : W)
        → s.allocated ≡ true
        → 0 < k.bufsiz
        → k.on_getpeername s.conn.sockfd s.world ≡ true
        → (k.on_recv s.conn.sockfd k.bufsiz s.world ≡ (none, w))
          ⊎ (k.on_recv s.conn.sockfd k.bufsiz s.world ≡ (some [], w))
        → receive_data k (suc fuel) s ≡ fault
    unfolding receive_data get_peer_address receive_loop modify
    receive_data-fault fuel s w a more p (inl e) =
        let b : ltb 0 k.bufsiz ≡ true = ground arith in
        let z : k.bufsiz - 0 ≡ k.bufsiz = omega arith in
        rw
          (
            get_conn-ok s a,
            p,
            b,
            get_conn-ok s a,
            z,
            e,
            connection_remove-removed k good (record s { world = w }) a,
          )
          refl
    receive_data-fault fuel s w a more p (inr e) =
        let b : ltb 0 k.bufsiz ≡ true = ground arith in
        let z : k.bufsiz - 0 ≡ k.bufsiz = omega arith in
        rw
          (
            get_conn-ok s a,
            p,
            b,
            get_conn-ok s a,
            z,
            e,
            connection_remove-removed k good (record s { world = w }) a,
          )
          refl
