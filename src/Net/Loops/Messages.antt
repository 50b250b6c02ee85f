-- ===== src/Net/Loops/Messages.antt =====
-- The messages that are still to come on a connection.
use golang_tools.Base.{
  ℕ, zero, suc, ◌<◌, ◌≡◌, refl, ap, ◌∙◌, sym, arith, List, [], ◌∷◌, none, some, Option-cases, inl,
  inr,
}
use golang_tools.Net.{ClientMsg}
use golang_tools.Net.Loops.{Codec}

module _ {In Frame : Type 0} (codec : Codec In Frame) where
  -- At most so many.
  unfoldable pub first_messages : ℕ → In → List ClientMsg
  first_messages zero i = []
  first_messages (suc n) i = elim (codec.next i) [
    | none ↦ []
    | some (m, rest) ↦ m ∷ first_messages n rest
  ]

  -- All, since each uses up some of what is to come.
  unfoldable pub messages : In → List ClientMsg
  messages i = first_messages (suc (codec.size i)) i

  first_messages-none : (n : ℕ) (i : In) → codec.next i ≡ none → first_messages n i ≡ []
  unfolding first_messages
  first_messages-none zero i h = refl
  first_messages-none (suc n) i h =
      ap (λ o. elim o [ none ↦ [] | some (m, rest) ↦ m ∷ first_messages n rest ]) h

  first_messages-some :
      (n : ℕ) (i rest : In) (m : ClientMsg)
      → codec.next i ≡ some (m, rest)
      → first_messages (suc n) i ≡ m ∷ first_messages n rest
  unfolding first_messages
  first_messages-some n i rest m h =
      ap (λ o. elim o [ none ↦ [] | some (m', rest') ↦ m' ∷ first_messages n rest' ]) h

  first_messages_enough :
      (n k : ℕ) (i : In)
      → codec.size i < n
      → codec.size i < k
      → first_messages n i ≡ first_messages k i
  first_messages_enough zero k i hn hk = absurd (omega arith)
  first_messages_enough (suc n) zero i hn hk = absurd (omega arith)
  first_messages_enough (suc n) (suc k) i hn hk = elim (Option-cases (codec.next i)) [
    | inl over ↦ first_messages-none (suc n) i over ∙ sym (first_messages-none (suc k) i over)
    | inr ((m, rest), e) ↦
        (let less = codec.size_next i rest m e in
          first_messages-some n i rest m e
          ∙ ap (◌∷◌ m) (first_messages_enough n k rest (omega (arith, less)) (omega (arith, less)))
          ∙ sym (first_messages-some k i rest m e))
  ]

  pub messages-none : (i : In) → codec.next i ≡ none → messages i ≡ []
  unfolding messages
  messages-none i h = first_messages-none (suc (codec.size i)) i h

  pub messages-some :
      (i rest : In) (m : ClientMsg) → codec.next i ≡ some (m, rest) → messages i ≡ m ∷ messages rest
  unfolding messages
  messages-some i rest m h =
      let less = codec.size_next i rest m h in
      first_messages-some (codec.size i) i rest m h
      ∙ ap (◌∷◌ m) (
          first_messages_enough (codec.size i) (suc (codec.size rest)) rest (omega (arith, less))
            (omega arith))
