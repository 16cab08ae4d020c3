-- ===== src/Mail/Start.antt =====
-- run of api/cmd/worker/main.go up to its loop, with what it closes in the end. The AMQP client is the
-- publisher's, with the two calls that only a consumer makes.
use ecosystem_complete.Prelude.{
  ℕ, ◌≡◌, String, Bool, true, false, Option, none, some, List, ◌==◌, if◌then◌else◌, Option-cases,
  Bool-cases, inl, inr,
}
use ecosystem_complete.Config.{lookup, value_or}
use ecosystem_complete.Runtime.{Message}
use ecosystem_complete.Queue.{Client}
use ecosystem_complete.Queue.Handles.{Obeys, IsIdle}
use ecosystem_complete.Mail.{Mailbox}
use ecosystem_complete.Mail.Worker.{Turn, Stopped, run_worker}

-- Channel.Qos and Channel.Consume, on a channel
pub record Consumer (S : Type 0) : Type 0 where
  pub qos : ℕ → S → Bool × S
  pub consume : ℕ → String → S → Bool × S

pub data Step : Type 0 where
  dialing opening declaring prefetching consuming : Step

-- What run returns: an error before its loop, or what the loop answers, none while it waits.
pub data Ended : Type 0 where
  missing_url : Ended
  failed : Step → Ended
  left : Option Stopped → Ended

module _ {S : Type 0} (client : Client S) (consumer : Consumer S) (queue : String)
    (loop : Mailbox → Option Stopped × Mailbox) where
  -- QueueDeclare, Qos, Consume, and the loop
  unfoldable pub consume_on : ℕ → S → Mailbox → Ended × S × Mailbox
  consume_on h s box =
      let (declared, s1) = client.declare_queue h queue s in
      elim declared [
        | false ↦ (failed declaring, s1, box)
        | true ↦
            let (limited, s2) = consumer.qos h s1 in
            elim limited [
              | false ↦ (failed prefetching, s2, box)
              | true ↦
                  let (consumes, s3) = consumer.consume h queue s2 in
                  elim consumes [
                    | false ↦ (failed consuming, s3, box)
                    | true ↦ let (stopped, box') = loop box in (left stopped, s3, box')
                  ]
            ]
      ]

  -- With a connection; the channel is closed in the end
  unfoldable pub run_connection : ℕ → S → Mailbox → Ended × S × Mailbox
  unfolding consume_on
  run_connection c s box =
      let (opened, s1) = client.open_channel c s in
      elim opened [
        | none ↦ (failed opening, s1, box)
        | some h ↦
            let (ended, s2, box') = consume_on h s1 box in (ended, client.close_channel h s2, box')
      ]

  -- With the broker's URL; the connection is closed in the end
  unfoldable pub run_url : String → S → Mailbox → Ended × S × Mailbox
  unfolding run_connection
  run_url url s box =
      let (dialed, s1) = client.dial url s in
      elim dialed [
        | none ↦ (failed dialing, s1, box)
        | some c ↦
            let (ended, s2, box') = run_connection c s1 box in
            (ended, client.close_connection c s2, box')
      ]

-- run, for the deliveries and signals that its loop meets
unfoldable pub start_worker :
    {S : Type 0}
    → Client S
    → Consumer S
    → (String → String)
    → (String → Option Message)
    → List Turn
    → S
    → Mailbox
    → Ended × S × Mailbox
unfolding lookup value_or run_url run_worker
start_worker client consumer getenv decode turns s box =
    if lookup getenv "RABBITMQ_URL" == ""
    then (missing_url, s, box)
    else run_url client consumer (value_or getenv "MAIL_QUEUE" "melia.mail")
        (run_worker decode (value_or getenv "MAIL_FROM" "no-reply@melia.test") turns)
        (lookup getenv "RABBITMQ_URL") s box

-- What the client documents of a consumer: its two calls open no connection.
pub record Consumes {S : Type 0} (client : Client S) (consumer : Consumer S) : Type 0 where
  pub qos_keeps :
      (h : ℕ) (s : S) (c : ℕ)
      → client.is_open c (consumer.qos h s).1 ≡ true
      → client.is_open c s ≡ true
  pub consume_keeps :
      (h : ℕ) (q : String) (s : S) (c : ℕ)
      → client.is_open c (consumer.consume h q s).1 ≡ true
      → client.is_open c s ≡ true

module _ {S : Type 0} (client : Client S) (consumer : Consumer S) (law : Obeys client)
    (consumes : Consumes client consumer) (queue : String)
    (loop : Mailbox → Option Stopped × Mailbox) (d : ℕ) where
  consume_on_keeps :
      (h : ℕ) (s : S) (box : Mailbox)
      → client.is_open d (consume_on client consumer queue loop h s box).1 ≡ true
      → client.is_open d s ≡ true
  unfolding consume_on
  consume_on_keeps h s box o =
      let s1 = (client.declare_queue h queue s).1 in
      let s2 = (consumer.qos h s1).1 in
      let declared : client.is_open d s1 ≡ true → client.is_open d s ≡ true =
        law.declare_keeps h queue s d in
      let limited : client.is_open d s2 ≡ true → client.is_open d s1 ≡ true =
        consumes.qos_keeps h s1 d in
      elim (Bool-cases (client.declare_queue h queue s).0) [
        | inr e ↦ declared (rw (e, consume_on) at o)
        | inl e ↦ elim (Bool-cases (consumer.qos h s1).0) [
          | inr e' ↦ declared (limited (rw (e, e', consume_on) at o))
          | inl e' ↦ elim (Bool-cases (consumer.consume h queue s2).0) [
            | inr e'' ↦
                declared
                  (limited (consumes.consume_keeps h queue s2 d (rw (e, e', e'', consume_on) at o)))
            | inl e'' ↦
                declared
                  (limited (consumes.consume_keeps h queue s2 d (rw (e, e', e'', consume_on) at o)))
          ]
        ]
      ]

  run_connection_keeps :
      (c : ℕ) (s : S) (box : Mailbox)
      → client.is_open d (run_connection client consumer queue loop c s box).1 ≡ true
      → client.is_open d s ≡ true
  unfolding run_connection
  run_connection_keeps c s box o = elim (Option-cases (client.open_channel c s).0) [
    | inl e ↦ law.open_channel_keeps c s d (rw (e, run_connection) at o)
    | inr (h, e) ↦
        law.open_channel_keeps c s d
          (consume_on_keeps h _ box (law.close_channel_keeps h _ d (rw (e, run_connection) at o)))
  ]

  run_url_closes :
      (url : String) (s : S) (box : Mailbox)
      → IsIdle client s
      → client.is_open d (run_url client consumer queue loop url s box).1 ≡ true
      → ⊥
  unfolding run_url
  run_url_closes url s box idle o = elim (Option-cases (client.dial url s).0) [
    | inl e ↦ elim (law.dial_opens url s d (rw (e, run_url) at o)) [
      | inl old ↦ cc (idle d)
      | inr mine ↦ cc
    ]
    | inr (c, e) ↦
        let (before, other) = law.close_connection_closes c _ d (rw (e, run_url) at o) in
        elim (law.dial_opens url s d (run_connection_keeps c _ box before)) [
          | inl old ↦ cc (idle d)
          | inr mine ↦ other (cc)
        ]
  ]

  run_url_closed :
      (url : String) (s : S) (box : Mailbox)
      → IsIdle client s
      → client.is_open d (run_url client consumer queue loop url s box).1 ≡ false
  run_url_closed url s box idle =
      elim (Bool-cases (client.is_open d (run_url client consumer queue loop url s box).1)) [
        | inr shut ↦ shut
        | inl left_open ↦ absurd (run_url_closes url s box idle left_open)
      ]

module _ {S : Type 0} (client : Client S) (consumer : Consumer S) (law : Obeys client)
    (consumes : Consumes client consumer) where
  -- However the worker ends, none of its connections stays open.
  pub start_worker-IsIdle :
      (getenv : String → String) (decode : String → Option Message) (turns : List Turn) (s : S)
      (box : Mailbox)
      → IsIdle client s
      → IsIdle client (start_worker client consumer getenv decode turns s box).1
  unfolding start_worker
  start_worker-IsIdle getenv decode turns s box idle d =
      elim (Bool-cases (lookup getenv "RABBITMQ_URL" == "")) [
        | inl e ↦ rw (e, start_worker) (idle d)
        | inr e ↦
            rw (e, start_worker)
              (run_url_closed client consumer law consumes
                (value_or getenv "MAIL_QUEUE" "melia.mail")
                (run_worker decode (value_or getenv "MAIL_FROM" "no-reply@melia.test") turns) d
                (lookup getenv "RABBITMQ_URL") s box idle)
      ]
