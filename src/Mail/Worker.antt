-- ===== src/Mail/Worker.antt =====
-- cmd/worker: what becomes of the payloads on the mail queue. The JSON decoder is a parameter.
use ecosystem_complete.Prelude.{
  ◌≡◌, refl, ◌+◌, ◌≤◌, ℕ, String, Bool, true, false, ◌&&◌, not, Option, none, some, List, [], ◌∷◌,
  ◌++◌, arith, map, is_some, count_where, Option-cases, inl, inr, if◌then◌else◌,
}
use ecosystem_complete.Runtime.{Message}
use ecosystem_complete.Mail.{SmtpCall, Attempt, Mailbox, taken_of, send, render}

-- What the broker is told of a delivery: nothing where Ack or Nack fails. A rejected delivery is not
-- queued again.
pub data Settlement : Type 0 where
  acknowledged rejected unsettled : Settlement

-- A payload that the broker delivers, what sending it meets, and whether the Ack or Nack gets through.
-- A payload that is delivered again is another delivery.
pub record Delivery : Type 0 where
  pub payload : String
  pub attempt : Attempt
  pub settles : Bool

module _ (decode : String → Option Message) (from : String) where
  -- Ack or Nack, whose error is ignored
  abbrev settle : Delivery → Settlement → Settlement
  settle d told = if d.settles then told else unsettled

  -- One round of handleDelivery
  unfoldable pub handle_one : Delivery → Mailbox → Settlement × Mailbox
  unfolding send
  handle_one d box = elim (decode d.payload) [
    | none ↦ (settle d rejected, box)
    | some m ↦
        let (sent, box') = send d.attempt from m box in
        (settle d (if sent then acknowledged else rejected), box')
  ]

  -- handleDelivery, for the deliveries until the channel is closed
  unfoldable pub handle_deliveries : List Delivery → Mailbox → List Settlement × Mailbox
  unfolding handle_one
  handle_deliveries [] box = ([], box)
  handle_deliveries (d ∷ deliveries) box =
      let (settled, box') = handle_one d box in
      let (rest, box'') = handle_deliveries deliveries box' in (settled ∷ rest, box'')

abbrev pub is_acknowledged : Settlement → Bool
is_acknowledged Settlement.acknowledged = true
is_acknowledged _ = false

abbrev pub is_unsettled : Settlement → Bool
is_unsettled Settlement.unsettled = true
is_unsettled _ = false

-- The calls of a conversation before its text, and those that follow.
abbrev pub opening_calls : List SmtpCall
opening_calls =
    SmtpCall.split_address ∷ SmtpCall.dial ∷ SmtpCall.handshake ∷ SmtpCall.mail_from
    ∷ SmtpCall.recipient ∷ SmtpCall.begin_body ∷ []

abbrev pub closing_calls : List SmtpCall
closing_calls = SmtpCall.write_body ∷ SmtpCall.close_body ∷ SmtpCall.quit ∷ []

abbrev pub none_fails : Attempt → List SmtpCall → Bool
none_fails a [] = true
none_fails a (c ∷ calls) = not (a.fails c) && none_fails a calls

module _ (decode : String → Option Message) (from : String) where
  -- The payload can be read, and the conversation gets as far as its text.
  abbrev pub is_begun : Delivery → Bool
  is_begun d = is_some (decode d.payload) && none_fails d.attempt opening_calls

  -- The payload can be read, and no call of the conversation fails.
  abbrev pub is_sent : Delivery → Bool
  is_sent d = is_begun d && none_fails d.attempt closing_calls

  -- The payload can be read, and the address and the text of its message meet a condition.
  abbrev pub meets : (String × String → Bool) → Delivery → Bool
  meets q d = elim (decode d.payload) [ none ↦ false | some m ↦ q (m.to, render from m) ]

  abbrev one_if : Bool → ℕ
  one_if b = if b then 1 else 0

  handle_one-unsettled :
      (d : Delivery) (box : Mailbox) → is_unsettled (handle_one decode from d box).0 ≡ not d.settles
  unfolding handle_one
  handle_one-unsettled d box = ground arith

  handle_one-acknowledged :
      (d : Delivery) (box : Mailbox)
      → is_acknowledged (handle_one decode from d box).0 ≡ (d.settles && is_sent d)
  unfolding handle_one send
  handle_one-acknowledged d box = ground arith

  count-append :
      (q : String × String → Bool) (box more : Mailbox)
      → count_where q (box ++ more) ≡ count_where q box + count_where q more
  unfolding count_where
  count-append q [] more = ground arith
  count-append q (entry ∷ box) more = ground (arith, count-append q box more)

  count-taken_of :
      (q : String × String → Bool) (m : Message) (text : Option String)
      → count_where q (taken_of m text) ≤ 1
  unfolding count_where
  count-taken_of q m none = omega arith
  count-taken_of q m (some text) = ground arith

  send_takes :
      (q : String × String → Bool) (a : Attempt) (m : Message) (box : Mailbox)
      → let taken = count_where q (send a from m box).1 in
        let begun = none_fails a opening_calls in
        (count_where q box + one_if (begun && none_fails a closing_calls && q (m.to, render from m))
          ≤ taken)
        × (taken ≤ count_where q box + one_if begun)
  unfolding send count_where
  send_takes q a m box = (
    ground (
      arith,
      count-append q box (taken_of m a.taken_anyway),
      count-append q box ((m.to, render from m) ∷ []),
    ),
    ground (
      arith,
      count-append q box (taken_of m a.taken_anyway),
      count-append q box ((m.to, render from m) ∷ []),
      count-taken_of q m a.taken_anyway,
    ),
  )

  handle_one_takes :
      (q : String × String → Bool) (d : Delivery) (box : Mailbox)
      → let taken = count_where q (handle_one decode from d box).1 in
        (count_where q box + one_if (is_sent d && meets q d) ≤ taken)
        × (taken ≤ count_where q box + one_if (is_begun d))
  unfolding handle_one
  handle_one_takes q d box = elim (Option-cases (decode d.payload)) [
    | inl e ↦ rw (e, handle_one) (omega arith, omega arith)
    | inr (m, e) ↦ rw (e, handle_one) (ground (arith, send_takes q d.attempt m box))
  ]

  -- Each delivery gets one answer, in order: none where the Ack or Nack does not get through, otherwise an
  -- acknowledgement exactly if the payload can be read and no call of the conversation with the mail
  -- server fails, whatever became of the deliveries before it. The server takes at least the messages
  -- that are sent in this way, each once, and at most one message for each delivery whose conversation
  -- gets as far as its text.
  pub handle_deliveries_lem :
      (deliveries : List Delivery) (box : Mailbox) (q : String × String → Bool)
      → let (answers, box') = handle_deliveries decode from deliveries box in
        (map is_unsettled answers ≡ map (λ d. not d.settles) deliveries)
        × (map is_acknowledged answers ≡ map (λ d. d.settles && is_sent d) deliveries)
        × (count_where q box + count_where (λ d. is_sent d && meets q d) deliveries
            ≤ count_where q box')
        × (count_where q box' ≤ count_where q box + count_where is_begun deliveries)
  unfolding handle_deliveries count_where
  handle_deliveries_lem [] box q = (refl, refl, omega arith, omega arith)
  handle_deliveries_lem (d ∷ deliveries) box q =
      let box' = (handle_one decode from d box).1 in
      let (unsettled_rest, acknowledged_rest, least, most) =
        handle_deliveries_lem deliveries box' q in
      let (least_one, most_one) = handle_one_takes q d box in
      (
        cc (unsettled_rest, handle_one-unsettled d box),
        cc (acknowledged_rest, handle_one-acknowledged d box),
        omega arith,
        omega arith,
      )

-- What the loop of run meets: a delivery, a broker that closes the channel, or a signal, with the
-- deliveries that still come until the broker closes the channel.
pub data Turn : Type 0 where
  delivery : Delivery → Turn
  closed : Turn
  shutdown : List Delivery → Turn

-- What run answers: nil after a shutdown, its error when the broker closes the channel.
pub data Stopped : Type 0 where
  drained channel_closed : Stopped

module _ (decode : String → Option Message) (from : String) where
  -- The loop of run; none while it still waits.
  unfoldable pub run_worker : List Turn → Mailbox → Option Stopped × Mailbox
  unfolding handle_one handle_deliveries
  run_worker [] box = (none, box)
  run_worker (delivery d ∷ turns) box = run_worker turns (handle_one decode from d box).1
  run_worker (closed ∷ turns) box = (some channel_closed, box)
  run_worker (shutdown deliveries ∷ turns) box =
      (some drained, (handle_deliveries decode from deliveries box).1)
