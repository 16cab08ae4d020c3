-- ===== src/Tests/Brokers.antt =====
-- Examples for Queue.
use ecosystem_complete.Prelude.{
  ℕ, ◌≡◌, refl, Bool, true, false, ◌&&◌, not, Option, none, some, arith, eqb, ◌==◌, if◌then◌else◌,
}
use ecosystem_complete.Queue.{Client, Amqp, Failure, new_amqp, publish, close}
use ecosystem_complete.Queue.Handles.{
  Obeys, HoldsAll, Reach, IsSettled, IsIdle, Reach-HoldsAll, publish-close,
}

-- A broker that serves one connection, and ends no channel but refuses one payload.
abbrev client : Client Bool
client = record {
  dial = λ url s. if s then (none, s) else (some 0, true);
  open_channel = λ c s. (some c, s);
  is_closed = λ c s. not s;
  declare_queue = λ h q s. (true, s);
  publish_message = λ h q payload s. (not (payload == "too long"), s);
  close_channel = λ h s. s;
  close_connection = λ c s. if eqb c 0 then false else s;
  is_open = λ c s. eqb c 0 && s;
}

client-Obeys : Obeys client
client-Obeys = record {
  dial_opens = λ url s c h. ground arith;
  open_channel_keeps = λ d s c h. h;
  declare_keeps = λ h q s c e. e;
  publish_keeps = λ h q payload s c e. e;
  close_channel_keeps = λ h s c e. e;
  close_connection_closes = λ d s c h. (ground arith, λ e. ground arith);
  closed = λ c s h. ground arith;
}

idle : (c : ℕ) → client.is_open c false ≡ false
idle c = ground arith

abbrev fresh : Amqp
fresh = new_amqp "amqp://" "melia.mail"

abbrev used : Option Failure × Amqp × Bool
used = publish client "mail" fresh false

history : Reach client client-Obeys used.1 used.2
history = Reach.publishes "mail" (Reach.starts "amqp://" "melia.mail" false idle)

Reach-HoldsAll_example : HoldsAll client used.1 used.2
Reach-HoldsAll_example = Reach-HoldsAll client client-Obeys history

publish-close_example :
    IsSettled client client-Obeys (publish client "too long" used.1 used.2)
    × IsIdle client (close client used.1 used.2).1
publish-close_example = publish-close client client-Obeys "too long" used.1 used.2 history

-- The refused payload leaves the broker without the connection.
refusal : publish client "too long" used.1 used.2 ≡ (some Failure.publishing, fresh, false)
unfolding publish new_amqp
refusal = refl
