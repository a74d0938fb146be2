-- ===== src/Conversations/Edits.antt =====
-- The lines of the conversations after one message has been given another content.
use ai_inference_platform.Prelude.{
  ℕ, suc, ◌≡◌, refl, true, false, ◌&&◌, some, List, [], ◌∷◌, arith, Text, select, find,
  update_where, ◌==◌, if◌then◌else◌, Bool-cases, inl, inr, All,
}
use ai_inference_platform.Models.{ChatMessage}
use ai_inference_platform.Conversations.{in_conversation}
use ai_inference_platform.Conversations.Messages.{CountsFrom}
use ai_inference_platform.Conversations.Views.{
  IsKeyed, lines, reword_at, found_only, found_late, select-reworded,
}

module _ (x : ℕ) (content : Text) where
  abbrev edited : List ChatMessage → List ChatMessage
  edited ms = update_where (λ m. m.id == x) (λ m. record m { content = content }) ms

  lines-elsewhere :
      (id c : ℕ) (ms : List ChatMessage)
      → (id == c) ≡ false
      → All (λ m. m.id ≡ x → in_conversation c m ≡ true) ms
      → lines id (edited ms) ≡ lines id ms
  lines-elsewhere id c [] apart h = refl
  lines-elsewhere id c (m ∷ ms) apart (only, h) =
      let rest = lines-elsewhere id c ms apart h in
      elim (Bool-cases (m.id == x)) [
        | inl this ↦
            let its = only (ground arith) in
            let not_here : in_conversation id m ≡ false = ground arith in rw (this, not_here) rest
        | inr other ↦ elim (Bool-cases (in_conversation id m)) [
          | inl here ↦ rw (other, here, rest) refl
          | inr there ↦ rw (other, there) rest
        ]
      ]

  lines-reworded :
      (c n : ℕ) (ms : List ChatMessage) (msg : ChatMessage)
      → IsKeyed ms
      → find (λ m. m.id == x && in_conversation c m) ms ≡ some msg
      → CountsFrom n (select (in_conversation c) ms)
      → lines c (edited ms) ≡ reword_at n msg.position content (lines c ms)
  lines-reworded c n [] msg keyed found h = absurd (ground (arith, found))
  lines-reworded c n (m ∷ ms) msg (only, keyed) found h = elim (Bool-cases (in_conversation c m)) [
    | inl here ↦
        let h' : CountsFrom n (m ∷ select (in_conversation c) ms) = rw here at h in
        elim (Bool-cases (m.id == x)) [
          | inl this ↦
              let is_it : m ≡ msg = ground arith in
              let place : (n == msg.position) ≡ true = ground (arith, is_it) in
              let same_id : m.id ≡ x = ground arith in
              let others = select-reworded x content ms (rw same_id at only) in
              rw (this, here, place, others) refl
          | inr other ↦
              let found' : find (λ k. k.id == x && in_conversation c k) ms ≡ some msg =
                rw other at found in
              let later = found_late c x (suc n) ms msg found' h'.1 in
              let passed : (n == msg.position) ≡ false = ground (arith, later) in
              let rest = lines-reworded c (suc n) ms msg keyed found' h'.1 in
              rw (other, here, passed, rest) refl
        ]
    | inr there ↦
        let h' : CountsFrom n (select (in_conversation c) ms) = rw there at h in
        let found' : find (λ k. k.id == x && in_conversation c k) ms ≡ some msg = ground arith in
        let rest = lines-reworded c n ms msg keyed found' h' in
        elim (Bool-cases (m.id == x)) [
          | inl this ↦ rw (this, there) rest
          | inr other ↦ rw (other, there) rest
        ]
  ]

  -- The conversation of the message gets a line with another content; the others stay as they are.
  pub lines-edited :
      (id c : ℕ) (ms : List ChatMessage) (msg : ChatMessage)
      → IsKeyed ms
      → find (λ m. m.id == x && in_conversation c m) ms ≡ some msg
      → CountsFrom 0 (select (in_conversation c) ms)
      → lines id (update_where (λ m. m.id == x) (λ m. record m { content = content }) ms)
        ≡ (if id == c then reword_at 0 msg.position content (lines id ms) else lines id ms)
  lines-edited id c ms msg keyed found h = elim (Bool-cases (id == c)) [
    | inl this ↦
        let same : id ≡ c = ground arith in
        rw (this, same) (lines-reworded c 0 ms msg keyed found h)
    | inr other ↦ rw other (lines-elsewhere id c ms other (found_only c x ms msg keyed found))
  ]
