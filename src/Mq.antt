-- ===== src/Mq.antt =====
-- The package mq/rabbitmq, over the calls of the package amqp, which act upon `W`.
pub mod Consumers
mod Examples
use golang_tools.Base.{
  ℕ, if◌then◌else◌, Bool, true, false, ◌⊎◌, inl, inr, List, [], ◌∷◌, ◌++◌, Option, none, some,
}
use mathlib.Core.Option
use golang_tools.Base.Texts.{Text}

-- ConsumersQueue: `zero` is the new value of the type to parse into, and `call_back` gets what it
-- became. `V` is what callbacks act upon.
pub record ConsumersQueue (P V : Type 0) : Type 0 where
  pub routing_key : Text
  pub zero : P
  pub call_back : P → V → V × Option ℕ

-- `Ch` is a channel. Declarations take the name of the exchange and whether it is durable.
pub record Amqp (W Ch : Type 0) : Type 0 where
  pub dial : Text → W → W × Option ℕ
  pub open_channel : W → W × (Ch × Option ℕ)
  pub exchange_declare : Ch → Text → Bool → W → W × Option ℕ
  pub queue_declare : Ch → Bool → W → W × (Text × Option ℕ)
  pub queue_bind : Ch → Text → Text → Text → W → W × Option ℕ
  pub publish : Ch → Text → Text → ℕ → List ℕ → W → W × Option ℕ

pub data MqError : Type 0 where
  not_dialed no_channel no_exchange no_queue not_bound : ℕ → MqError
  not_marshalled not_sent not_consumed closed : ℕ → MqError

-- A consumer whose goroutine was started: its channel, its queue, and what it was registered with.
pub record Consumer (Ch P V : Type 0) : Type 0 where
  pub channel : Ch
  pub queue_name : Text
  pub queue : ConsumersQueue P V

-- Producers
pub record Producers (Ch : Type 0) : Type 0 where
  pub channel : Ch
  pub exchange_name : Text
  pub persistent : ℕ

module _ {W Ch : Type 0} (amqp : Amqp W Ch) where
  open amqp use {dial, open_channel, exchange_declare, queue_declare, queue_bind, publish}

  -- The body of the loop of RegisterConsumers: each step but for the last may return its error.
  abbrev pub bound :
      {P V : Type 0}
      → Ch
      → Text
      → ConsumersQueue P V
      → W × Option ℕ
      → W × (Consumer Ch P V ⊎ MqError)
  bound ch name c (w, none) = (w, inl (record { channel = ch; queue_name = name; queue = c }))
  bound ch name c (w, some e) = (w, inr (not_bound e))

  abbrev pub queued :
      {P V : Type 0}
      → Text
      → Ch
      → ConsumersQueue P V
      → W × (Text × Option ℕ)
      → W × (Consumer Ch P V ⊎ MqError)
  queued exchange ch c (w, (name, none)) =
      bound ch name c (queue_bind ch name c.routing_key exchange w)
  queued exchange ch c (w, (name, some e)) = (w, inr (no_queue e))

  abbrev pub declared :
      {P V : Type 0}
      → Bool
      → Text
      → Ch
      → ConsumersQueue P V
      → W × Option ℕ
      → W × (Consumer Ch P V ⊎ MqError)
  declared durable exchange ch c (w, none) = queued exchange ch c (queue_declare ch durable w)
  declared durable exchange ch c (w, some e) = (w, inr (no_exchange e))

  abbrev pub opened :
      {P V : Type 0}
      → Bool
      → Text
      → ConsumersQueue P V
      → W × (Ch × Option ℕ)
      → W × (Consumer Ch P V ⊎ MqError)
  opened durable exchange c (w, (ch, none)) =
      declared durable exchange ch c (exchange_declare ch exchange durable w)
  opened durable exchange c (w, (ch, some e)) = (w, inr (no_channel e))

  unfoldable pub register_one :
      {P V : Type 0} → Bool → Text → ConsumersQueue P V → W → W × (Consumer Ch P V ⊎ MqError)
  register_one durable exchange c w = opened durable exchange c (open_channel w)

  -- The loop of RegisterConsumers: the consumers that were started, and the error.
  unfoldable pub register_all :
      {P V : Type 0}
      → Bool
      → Text
      → List (ConsumersQueue P V)
      → W
      → W × (List (Consumer Ch P V) × Option MqError)
  register_all durable exchange [] w = (w, ([], none))
  register_all durable exchange (c ∷ cs) w =
      let (w', res) = register_one durable exchange c w in
      elim res [
        | inr e ↦ (w', ([], some e))
        | inl started ↦
            (let (w2, (more, err)) = register_all durable exchange cs w' in
              (w2, (started ∷ more, err)))
      ]

  unfoldable pub register_consumers :
      {P V : Type 0}
      → Text
      → Bool
      → Text
      → List (ConsumersQueue P V)
      → W
      → W × (List (Consumer Ch P V) × Option MqError)
  register_consumers url durable exchange cs w =
      let (w', err) = dial url w in
      elim err [
        | none ↦ register_all durable exchange cs w'
        | some e ↦ (w', ([], some (not_dialed e)))
      ]

  abbrev pub produces : Text → Bool → Ch → W × Option ℕ → W × (Producers Ch ⊎ MqError)
  produces exchange durable ch (w, none) = (
    w,
    inl (record {
      channel = ch;
      exchange_name = exchange;
      persistent = (if durable then 2 else 1);
    }),
  )
  produces exchange durable ch (w, some e) = (w, inr (no_exchange e))

  abbrev pub connected : Text → Bool → W × (Ch × Option ℕ) → W × (Producers Ch ⊎ MqError)
  connected exchange durable (w, (ch, none)) =
      produces exchange durable ch (exchange_declare ch exchange durable w)
  connected exchange durable (w, (ch, some e)) = (w, inr (no_channel e))

  -- InitProducers; amqp.Persistent is 2 and amqp.Transient is 1.
  unfoldable pub init_producers : Text → Text → Bool → W → W × (Producers Ch ⊎ MqError)
  init_producers url exchange durable w =
      let (w', err) = dial url w in
      elim err [
        | none ↦ connected exchange durable (open_channel w')
        | some e ↦ (w', inr (not_dialed e))
      ]

  abbrev pub sent : W × Option ℕ → W × Option MqError
  sent (w, none) = (w, none)
  sent (w, some e) = (w, some (not_sent e))

  -- Publish; `marshal` is json.Marshal.
  unfoldable pub publish_payload :
      {P : Type 0} → (P → List ℕ ⊎ ℕ) → Producers Ch → Text → P → W → W × Option MqError
  publish_payload marshal p routing_key payload w = elim (marshal payload) [
    | inr e ↦ (w, some (not_marshalled e))
    | inl body ↦ sent (publish p.channel p.exchange_name routing_key p.persistent body w)
  ]

-- The goroutine of consume on the bodies that are delivered. `unmarshal` is json.Unmarshal into a value,
-- which it may leave half changed when it fails; its error and that of the callback are printed only.
unfoldable pub consume_all :
    {P V : Type 0} → (List ℕ → P → P × Option ℕ) → ConsumersQueue P V → List (List ℕ) → V → V
consume_all unmarshal c [] v = v
consume_all unmarshal c (body ∷ bodies) v =
    let (value, err) = unmarshal body c.zero in
    let (v', err') = c.call_back value v in consume_all unmarshal c bodies v'

-- consume, up to its return: Consume of the channel, which may fail, then NotifyClose, and the start of the
-- goroutine above. `closing` is a close that waits at errChannel already when the select looks; otherwise
-- the default is taken at once. The result is whether the goroutine was started, and the error.
unfoldable pub consume :
    {W Ch P V : Type 0}
    → (Ch → Text → W → W × Option ℕ)
    → (Ch → W → W)
    → Option ℕ
    → Consumer Ch P V
    → W
    → W × (Bool × Option MqError)
consume start notify_close closing c w =
    let (w', err) = start c.channel c.queue_name w in
    elim err [
      | some e ↦ (w', (false, some (not_consumed e)))
      | none ↦ (notify_close c.channel w', (true, Option.map closed closing))
    ]

-- The goroutines of RegisterConsumers, `go consume(ch, q.Name, c)`: those that go on with messages. What
-- consume returns is dropped.
unfoldable pub consume_each :
    {W Ch P V : Type 0}
    → (Ch → Text → W → W × Option ℕ)
    → (Ch → W → W)
    → List (Consumer Ch P V × Option ℕ)
    → W
    → W × List (Consumer Ch P V)
consume_each start notify_close [] w = (w, [])
consume_each start notify_close ((c, closing) ∷ cs) w =
    let (w', (begun, err)) = consume start notify_close closing c w in
    let (w2, more) = consume_each start notify_close cs w' in
    (w2, (if begun then c ∷ more else more))
