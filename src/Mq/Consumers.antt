-- ===== src/Mq/Consumers.antt =====
-- Which consumers are started, and which messages reach their callbacks.
use golang_tools.Base.{
  ℕ, ◌≡◌, ◌∙◌, sym, Bool, inl, List, [], ◌∷◌, ◌++◌, map, append-nil, append_assoc, Option, none,
}
use golang_tools.Base.Texts.{Text}
use golang_tools.Mq.{ConsumersQueue, Amqp, Consumer, register_one, consume_all}

module _ {W Ch P V : Type 0} (amqp : Amqp W Ch) (durable : Bool) (exchange : Text) where
  -- The consumers of a list are started one after the other, from the first state to the second.
  abbrev pub Started : List (ConsumersQueue P V) → List (Consumer Ch P V) → W → W → Type 0
  Started [] [] w w' = w ≡ w'
  Started [] (s ∷ ss) w w' = ⊥
  Started (c ∷ cs) [] w w' = ⊥
  Started (c ∷ cs) (s ∷ ss) w w' =
      ((register_one amqp durable exchange c w).1 ≡ inl s)
      × Started cs ss (register_one amqp durable exchange c w).0 w'

-- A callback that notes what it is called with.
abbrev pub noting : {P : Type 0} → Text → P → ConsumersQueue P (List P)
noting key zero = record {
  routing_key = key;
  zero = zero;
  call_back = λ p ps. (ps ++ (p ∷ []), none);
}

module _ {P : Type 0} (unmarshal : List ℕ → P → P × Option ℕ) where
  -- The callback is called once for each message, in the order in which they come, with what
  -- json.Unmarshal has left: for a message that it cannot parse as well.
  pub consume_all-map :
      (key : Text) (zero : P) (bodies : List (List ℕ)) (ps : List P)
      → consume_all unmarshal (noting key zero) bodies ps
        ≡ ps ++ map (λ body. (unmarshal body zero).0) bodies
  unfolding consume_all
  consume_all-map key zero [] ps = sym (append-nil ps)
  consume_all-map key zero (body ∷ bodies) ps =
      let p = (unmarshal body zero).0 in
      consume_all-map key zero bodies (ps ++ (p ∷ []))
      ∙ append_assoc ps (p ∷ []) (map (λ b. (unmarshal b zero).0) bodies)
