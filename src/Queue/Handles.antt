-- ===== src/Queue/Handles.antt =====
-- publisher.go: which connections stay open.
use ecosystem_complete.Prelude.{
  ℕ, ◌≡◌, refl, ◌⊎◌, inl, inr, ◌≢◌, String, true, false, Option, none, some, is_some, arith,
  Option-cases, Bool-cases,
}
use ecosystem_complete.Queue.{
  Client, Amqp, Failure, new_amqp, is_usable, connect, channel, close_ch, close_conn, reset,
  send_on, publish, close,
}

-- What the client documents: no call but Dial opens a connection, Dial opens at most the one that it
-- answers, Close leaves the connection closed, and a connection that says it is closed is closed.
pub record Obeys {S : Type 0} (client : Client S) : Type 0 where
  pub dial_opens :
      (url : String) (s : S) (c : ℕ)
      → client.is_open c (client.dial url s).1 ≡ true
      → (client.is_open c s ≡ true) ⊎ ((client.dial url s).0 ≡ some c)
  pub open_channel_keeps :
      (d : ℕ) (s : S) (c : ℕ)
      → client.is_open c (client.open_channel d s).1 ≡ true
      → client.is_open c s ≡ true
  pub declare_keeps :
      (h : ℕ) (q : String) (s : S) (c : ℕ)
      → client.is_open c (client.declare_queue h q s).1 ≡ true
      → client.is_open c s ≡ true
  pub publish_keeps :
      (h : ℕ) (q payload : String) (s : S) (c : ℕ)
      → client.is_open c (client.publish_message h q payload s).1 ≡ true
      → client.is_open c s ≡ true
  pub close_channel_keeps :
      (h : ℕ) (s : S) (c : ℕ)
      → client.is_open c (client.close_channel h s) ≡ true
      → client.is_open c s ≡ true
  pub close_connection_closes :
      (d : ℕ) (s : S) (c : ℕ)
      → client.is_open c (client.close_connection d s) ≡ true
      → (client.is_open c s ≡ true) × (c ≢ d)
  pub closed : (c : ℕ) (s : S) → client.is_closed c s ≡ true → client.is_open c s ≡ false

module _ {S : Type 0} (client : Client S) where
  -- No connection is open.
  abbrev pub IsIdle : S → Type 0
  IsIdle s = (c : ℕ) → client.is_open c s ≡ false

  -- No connection is open but the one that the publisher holds.
  abbrev Owns : Option ℕ → S → Type 0
  Owns conn s = (c : ℕ) → client.is_open c s ≡ true → conn ≡ some c

  -- A publisher holds a connection with its channel, or neither, and no other connection is open.
  pub record HoldsAll (a : Amqp) (s : S) : Type 0 where
    pub paired : is_some a.conn ≡ is_some a.ch
    pub owns : (c : ℕ) → client.is_open c s ≡ true → a.conn ≡ some c

module _ {S : Type 0} (client : Client S) (law : Obeys client) where
  not_open : (s : S) (c : ℕ) → (client.is_open c s ≡ true → ⊥) → client.is_open c s ≡ false
  not_open s c h = elim (Bool-cases (client.is_open c s)) [ inl e ↦ absurd (h e) | inr e ↦ e ]

  close_conn-IsIdle :
      (conn : Option ℕ) (s : S) → Owns client conn s → IsIdle client (close_conn client conn s)
  close_conn-IsIdle none s own c = not_open s c (λ e. cc (own c e))
  close_conn-IsIdle (some d) s own c =
      not_open (client.close_connection d s) c
        λ e. let (before, other) = law.close_connection_closes d s c e in other (cc (own c before))

  close_ch-Owns :
      (ch conn : Option ℕ) (s : S) → Owns client conn s → Owns client conn (close_ch client ch s)
  close_ch-Owns none conn s own = own
  close_ch-Owns (some h) conn s own = λ c e. own c (law.close_channel_keeps h s c e)

  -- reset leaves no connection open.
  reset-IsIdle : (a : Amqp) (s : S) → Owns client a.conn s → IsIdle client (reset client a s).1
  unfolding reset
  reset-IsIdle a s own =
      close_conn-IsIdle a.conn (close_ch client a.ch s) (close_ch-Owns a.ch a.conn s own)

  IsIdle-HoldsAll :
      (a : Amqp) (s : S) → is_some a.conn ≡ is_some a.ch → IsIdle client s → HoldsAll client a s
  IsIdle-HoldsAll a s p idle = record { paired = p; owns = λ c e. cc (idle c) }

  unusable-IsIdle :
      (a : Amqp) (s : S) → HoldsAll client a s → is_usable client a s ≡ false → IsIdle client s
  unusable-IsIdle a s v dead c = not_open s c λ e.
      let held : a.conn ≡ some c = v.owns c e in
      let shut : client.is_closed c s ≡ true = ground (arith, v.paired) in cc (law.closed c s shut)

  dial_owned :
      (url : String) (s : S)
      → IsIdle client s
      → Owns client (client.dial url s).0 (client.dial url s).1
  dial_owned url s idle c e = elim (law.dial_opens url s c e) [
    | inl old ↦ absurd (cc (idle c))
    | inr mine ↦ mine
  ]

  -- What a publisher that is used again meets.
  abbrev IsConnected : Option ℕ × Failure × Amqp × S → Type 0
  IsConnected (opened, _, a, s) =
      (HoldsAll client a s × (is_some opened ≡ true) × (a.ch ≡ opened))
      ⊎ ((opened ≡ none) × IsIdle client s × (is_some a.conn ≡ is_some a.ch))

  connect-IsConnected :
      (a : Amqp) (s : S)
      → is_some a.conn ≡ is_some a.ch
      → IsIdle client s
      → IsConnected (connect client a s)
  unfolding connect
  connect-IsConnected a s p idle = elim (Option-cases (client.dial a.url s).0) [
    | inl e ↦
        rw (e, connect)
          (inr (
            refl,
            (λ c. not_open (client.dial a.url s).1 c (λ o. cc (dial_owned a.url s idle c o))),
            p,
          ))
    | inr (c, e) ↦
        let owned : Owns client (some c) (client.open_channel c (client.dial a.url s).1).1 = λ d o.
          cc (dial_owned a.url s idle d (law.open_channel_keeps c (client.dial a.url s).1 d o)) in
        elim (Option-cases (client.open_channel c (client.dial a.url s).1).0) [
          | inl e' ↦ rw (e, e', connect) (inr (refl, close_conn-IsIdle (some c) _ owned, p))
          | inr (h, e') ↦
              rw (e, e', connect) (inl (record { paired = refl; owns = owned }, refl, refl))
        ]
  ]

  channel-IsConnected : (a : Amqp) (s : S) → HoldsAll client a s → IsConnected (channel client a s)
  unfolding channel
  channel-IsConnected a s v = elim (Bool-cases (is_usable client a s)) [
    | inl e ↦ rw (e, channel) (inl (v, ground arith, refl))
    | inr e ↦ rw (e, channel) (connect-IsConnected a s v.paired (unusable-IsIdle a s v e))
  ]

  -- What Publish and Close leave: a publisher that keeps its connection, or none that is open.
  abbrev pub IsSettled : Option Failure × Amqp × S → Type 0
  IsSettled (result, a, s) =
      ((result ≡ none) × HoldsAll client a s × (is_some a.conn ≡ true))
      ⊎ ((is_some result ≡ true) × IsIdle client s × (is_some a.conn ≡ is_some a.ch))

  send_on-IsSettled :
      (h : ℕ) (payload : String) (a : Amqp) (s : S)
      → HoldsAll client a s
      → a.ch ≡ some h
      → IsSettled (send_on client h payload a s)
  unfolding send_on
  send_on-IsSettled h payload a s v held =
      let s1 = (client.declare_queue h a.queue s).1 in
      let s2 = (client.publish_message h a.queue payload s1).1 in
      let own1 : Owns client a.conn s1 = λ c o. v.owns c (law.declare_keeps h a.queue s c o) in
      let own2 : Owns client a.conn s2 =
        λ c o. own1 c (law.publish_keeps h a.queue payload s1 c o) in
      elim (Bool-cases (client.declare_queue h a.queue s).0) [
        | inr e ↦ rw (e, send_on) (inr (refl, reset-IsIdle a s1 own1, unfold reset in refl))
        | inl e ↦ elim (Bool-cases (client.publish_message h a.queue payload s1).0) [
          | inr e' ↦ rw (e, e', send_on) (inr (refl, reset-IsIdle a s2 own2, unfold reset in refl))
          | inl e' ↦
              rw (e, e', send_on)
                (inl (refl, record { paired = v.paired; owns = own2 }, ground (arith, v.paired)))
        ]
      ]

  after_channel :
      (payload : String) (r : Option ℕ × Failure × Amqp × S)
      → IsConnected r
      → IsSettled (elim (r.0) as (λ _. Option Failure × Amqp × S) [
        | none ↦ (some r.1, r.2, r.3)
        | some h ↦ send_on client h payload r.2 r.3
      ])
  after_channel payload (none, f, a, s) (inl (v, e, held)) = cc e
  after_channel payload (none, f, a, s) (inr (e, idle, p)) = inr (refl, idle, p)
  after_channel payload (some h, f, a, s) (inl (v, e, held)) =
      send_on-IsSettled h payload a s v held
  after_channel payload (some h, f, a, s) (inr (e, idle, p)) = cc e

  publish-IsSettled :
      (payload : String) (a : Amqp) (s : S)
      → HoldsAll client a s
      → IsSettled (publish client payload a s)
  unfolding publish
  publish-IsSettled payload a s v =
      after_channel payload (channel client a s) (channel-IsConnected a s v)

  -- Any history of a new publisher, with connections that end by themselves in between.
  pub data Reach : Amqp → S → Type 0 where
    starts : (url queue_name : String) (s : S) → IsIdle client s → Reach (new_amqp url queue_name) s
    publishes :
        (payload : String) {a : Amqp} {s : S}
        → Reach a s
        → Reach (publish client payload a s).1 (publish client payload a s).2
    closes : {a : Amqp} {s : S} → Reach a s → Reach (close client a s).0 (close client a s).1
    loses :
        {a : Amqp} {s : S} (s' : S)
        → ((c : ℕ) → client.is_open c s' ≡ true → client.is_open c s ≡ true)
        → Reach a s
        → Reach a s'

  settled-HoldsAll : (r : Option Failure × Amqp × S) → IsSettled r → HoldsAll client r.1 r.2
  settled-HoldsAll (result, a, s) (inl (e, v, h)) = v
  settled-HoldsAll (result, a, s) (inr (e, idle, p)) = IsIdle-HoldsAll a s p idle

  -- Whatever calls fail, and whatever connections the broker ends, at every point of any history the
  -- publisher holds a connection together with its channel, or neither, and no connection is open but
  -- the one that it holds.
  pub Reach-HoldsAll : {a : Amqp} {s : S} → Reach a s → HoldsAll client a s
  unfolding new_amqp close reset
  Reach-HoldsAll (starts url queue_name s idle) = IsIdle-HoldsAll _ s refl idle
  Reach-HoldsAll (publishes payload {a} {s} r) =
      settled-HoldsAll (publish client payload a s)
        (publish-IsSettled payload a s (Reach-HoldsAll r))
  Reach-HoldsAll (closes {a} {s} r) =
      IsIdle-HoldsAll _ _ refl (reset-IsIdle a s (Reach-HoldsAll r).owns)
  Reach-HoldsAll (loses {a} {s} s' fewer r) = record {
    paired = (Reach-HoldsAll r).paired;
    owns = λ c e. (Reach-HoldsAll r).owns c (fewer c e);
  }

  -- After any history, a Publish that answers nil holds a connection and no other is open, one that
  -- answers an error leaves no connection open, and neither does Close.
  pub publish-close :
      (payload : String) (a : Amqp) (s : S)
      → Reach a s
      → IsSettled (publish client payload a s) × IsIdle client (close client a s).1
  unfolding close
  publish-close payload a s r =
      (publish-IsSettled payload a s (Reach-HoldsAll r), reset-IsIdle a s (Reach-HoldsAll r).owns)
