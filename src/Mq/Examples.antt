-- ===== src/Mq/Examples.antt =====
-- The theorems about consumers at concrete inputs.
use golang_tools.Base.{ℕ, ◌+◌, ◌≡◌, refl, ◌==◌, if◌then◌else◌, List, [], ◌∷◌, Option, none, some}
use golang_tools.Mq.{ConsumersQueue, Amqp, consume_all}
use golang_tools.Mq.{Consumer}
use golang_tools.Mq.Consumers.{noting}

-- A broker that counts channels and binds one queue only.
abbrev broker : Amqp ℕ ℕ
broker = record {
  dial = λ url w. (w, none);
  open_channel = λ w. (w + 1, (w, none));
  exchange_declare = λ ch name durable w. (w, none);
  queue_declare = λ ch durable w. (w, (ch ∷ [], none));
  queue_bind = λ ch queue key exchange w. (w, (if w == 1 then none else some 404));
  publish = λ ch exchange key mode body w. (w, none);
}

abbrev queue : ConsumersQueue ℕ (List ℕ)
queue = noting [] 0

-- A payload is a number, and its text a list of one byte.
abbrev first_byte : List ℕ → ℕ → ℕ × Option ℕ
first_byte [] zero_value = (zero_value, some 1)
first_byte (b ∷ bs) zero_value = (b, none)

-- The callback notes the payloads; of a body that is no JSON it gets the zero value.
consume_run :
    consume_all first_byte (noting [] 0) ((7 ∷ []) ∷ [] ∷ (8 ∷ []) ∷ []) [] ≡ 7 ∷ 0 ∷ 8 ∷ []
unfolding consume_all
consume_run = refl

-- The first consumer.
abbrev started : Consumer ℕ ℕ (List ℕ)
started = record { channel = 0; queue_name = 0 ∷ []; queue = queue }
