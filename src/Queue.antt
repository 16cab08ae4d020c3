-- ===== src/Queue.antt =====
-- api/internal/queue/publisher.go: the publisher that dials the broker when it first needs it. The AMQP
-- client is a parameter. Publish and Close hold the mutex, so each is one step.
pub mod Handles
use ecosystem_complete.Prelude.{
  ℕ, String, Bool, true, false, ◌&&◌, not, Option, none, some, is_some,
}

-- amqp091-go, over the state of the process and the broker. A connection or a channel is a number, and
-- `is_open` says which connections the broker still serves; the code does not ask that.
pub record Client (S : Type 0) : Type 0 where
  pub dial : String → S → Option ℕ × S
  pub open_channel : ℕ → S → Option ℕ × S
  pub is_closed : ℕ → S → Bool
  pub declare_queue : ℕ → String → S → Bool × S
  pub publish_message : ℕ → String → String → S → Bool × S
  pub close_channel : ℕ → S → S
  pub close_connection : ℕ → S → S
  pub is_open : ℕ → S → Bool

pub record Amqp : Type 0 where
  pub url : String
  pub queue : String
  pub conn : Option ℕ
  pub ch : Option ℕ

-- The call whose error Publish wraps.
pub data Failure : Type 0 where
  dialing opening declaring publishing : Failure

-- NewAMQP
unfoldable pub new_amqp : String → String → Amqp
new_amqp url queue_name = record { url = url; queue = queue_name; conn = none; ch = none }

module _ {S : Type 0} (client : Client S) where
  -- `a.ch != nil && !a.conn.IsClosed()`; a connection that is nil is not asked, since the two are set
  -- together.
  abbrev pub is_usable : Amqp → S → Bool
  is_usable a s = elim a.conn [ none ↦ false | some c ↦ is_some a.ch && not (client.is_closed c s) ]

  -- What channel answers: the channel or its error, the publisher, and the broker.
  abbrev pub Opened : Type 0
  Opened = Option ℕ × Failure × Amqp × S

  -- The part of channel that dials
  unfoldable pub connect : Amqp → S → Opened
  connect a s =
      let (dialed, s1) = client.dial a.url s in
      elim dialed [
        | none ↦ (none, dialing, a, s1)
        | some c ↦
            let (opened, s2) = client.open_channel c s1 in
            elim opened [
              | none ↦ (none, opening, a, client.close_connection c s2)
              | some h ↦ (some h, opening, record a { conn = some c; ch = some h }, s2)
            ]
      ]

  -- AMQP.channel
  unfoldable pub channel : Amqp → S → Opened
  unfolding connect
  channel a s = elim (is_usable a s) [ true ↦ (a.ch, opening, a, s) | false ↦ connect a s ]

  abbrev pub close_ch : Option ℕ → S → S
  close_ch none s = s
  close_ch (some h) s = client.close_channel h s

  abbrev pub close_conn : Option ℕ → S → S
  close_conn none s = s
  close_conn (some c) s = client.close_connection c s

  -- AMQP.reset
  unfoldable pub reset : Amqp → S → Amqp × S
  reset a s = (record a { conn = none; ch = none }, close_conn a.conn (close_ch a.ch s))

  -- The part of Publish that has a channel: none is nil, some the error.
  unfoldable pub send_on : ℕ → String → Amqp → S → Option Failure × Amqp × S
  unfolding reset
  send_on h payload a s =
      let (declared, s1) = client.declare_queue h a.queue s in
      elim declared [
        | false ↦ let (a', s') = reset a s1 in (some declaring, a', s')
        | true ↦
            let (published, s2) = client.publish_message h a.queue payload s1 in
            elim published [
              | false ↦ let (a', s') = reset a s2 in (some publishing, a', s')
              | true ↦ (none, a, s2)
            ]
      ]

  -- AMQP.Publish
  unfoldable pub publish : String → Amqp → S → Option Failure × Amqp × S
  unfolding channel send_on
  publish payload a s =
      let (opened, failure, a', s') = channel a s in
      elim opened [ none ↦ (some failure, a', s') | some h ↦ send_on h payload a' s' ]

  -- AMQP.Close
  unfoldable pub close : Amqp → S → Amqp × S
  unfolding reset
  close a s = reset a s
