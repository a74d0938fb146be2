-- ===== src/Conversations/Messages.antt =====
-- Lists of messages whose positions count up, and what the endpoints leave of them.
use mathlib.Core.List.{append-nil}
use ai_inference_platform.Prelude.{
  ==_iff, ℕ, suc, ◌+◌, ◌≤◌, ◌≡◌, refl, not, List, [], ◌∷◌, ◌++◌, arith, Text, select, select-append,
  update_where, length, leb, ◌==◌, if◌then◌else◌, Bool-cases, inl, inr,
}
use ai_inference_platform.Models.{Db, ChatMessage}
use ai_inference_platform.Conversations.{in_conversation, from_position, messages_of}

-- Positions that count up from a number.
abbrev pub CountsFrom : ℕ → List ChatMessage → Type 0
CountsFrom n [] = Unit
CountsFrom n (m ∷ ms) = (m.position ≡ n) × CountsFrom (suc n) ms

-- In every conversation the first message has position 0, and each later one the next position.
pub record IsOrdered (db : Db) : Type 0 where
  pub counts : (id : ℕ) → CountsFrom 0 (messages_of id db)

CountsFrom-append :
    (n : ℕ) (ms : List ChatMessage) (m : ChatMessage)
    → CountsFrom n ms
    → m.position ≡ n + length ms
    → CountsFrom n (ms ++ m ∷ [])
CountsFrom-append n [] m h e = (omega arith, tt)
CountsFrom-append n (k ∷ ms) m h e = (h.0, CountsFrom-append (suc n) ms m h.1 (omega arith))

CountsFrom-late :
    (n p : ℕ) (ms : List ChatMessage)
    → CountsFrom n ms
    → p ≤ n
    → select (λ m. not (leb p m.position)) ms ≡ []
CountsFrom-late n p [] h e = refl
CountsFrom-late n p (m ∷ ms) h e = ground (arith, CountsFrom-late (suc n) p ms h.1 (omega arith))

-- What lies before a position is the beginning of the list.
CountsFrom-truncate :
    (n p : ℕ) (ms : List ChatMessage)
    → CountsFrom n ms
    → CountsFrom n (select (λ m. not (leb p m.position)) ms)
CountsFrom-truncate n p [] h = tt
CountsFrom-truncate n p (m ∷ ms) h = elim (Bool-cases (leb p m.position)) [
  | inl late ↦ rw (late, CountsFrom-late (suc n) p ms h.1 (ground arith)) tt
  | inr early ↦ rw early (h.0, CountsFrom-truncate (suc n) p ms h.1)
]

-- The messages of a conversation after some of one conversation are deleted.
pub select-from_position :
    (id conv p : ℕ) (ms : List ChatMessage)
    → select (in_conversation id) (select (λ m. not (from_position conv p m)) ms) ≡ (
        if id == conv
        then select (λ m. not (leb p m.position)) (select (in_conversation id) ms)
        else select (in_conversation id) ms)
select-from_position id conv p [] = ground arith
select-from_position id conv p (m ∷ ms) = ground (arith, select-from_position id conv p ms)

pub select-in_conversation :
    (id conv : ℕ) (ms : List ChatMessage)
    → select (in_conversation id) (select (λ m. not (in_conversation conv m)) ms)
      ≡ (if id == conv then [] else select (in_conversation id) ms)
select-in_conversation id conv [] = ground arith
select-in_conversation id conv (m ∷ ms) = ground (arith, select-in_conversation id conv ms)

CountsFrom-content :
    (n id msg : ℕ) (content : Text) (ms : List ChatMessage)
    → CountsFrom n (select (in_conversation id) ms)
    → CountsFrom n (
        select
          (in_conversation id)
          (update_where (λ m. m.id == msg) (λ m. record m { content = content }) ms))
CountsFrom-content n id msg content [] h = tt
CountsFrom-content n id msg content (m ∷ ms) h = elim (Bool-cases (in_conversation id m)) [
  | inl here ↦
      let h' : CountsFrom n (m ∷ select (in_conversation id) ms) = rw here at h in
      let rest = CountsFrom-content (suc n) id msg content ms h'.1 in
      elim (Bool-cases (m.id == msg)) [
        | inl this ↦ rw (this, here) (h'.0, rest)
        | inr other ↦ rw (other, here) (h'.0, rest)
      ]
  | inr there ↦
      let h' : CountsFrom n (select (in_conversation id) ms) = rw there at h in
      let rest = CountsFrom-content n id msg content ms h' in
      elim (Bool-cases (m.id == msg)) [
        | inl this ↦ rw (this, there) rest
        | inr other ↦ rw (other, there) rest
      ]
]

-- The ways in which an endpoint leaves the messages.
pub data Left (before after : List ChatMessage) : Type 0 where
  same : after ≡ before → Left before after
  appended :
      (m : ChatMessage)
      → m.position ≡ length (select (in_conversation m.conversation_id) before)
      → after ≡ before ++ m ∷ []
      → Left before after
  edited :
      (msg : ℕ) (content : Text)
      → after ≡ update_where (λ m. m.id == msg) (λ m. record m { content = content }) before
      → Left before after
  truncated :
      (conv p : ℕ) → after ≡ select (λ m. not (from_position conv p m)) before → Left before after
  removed :
      (conv : ℕ) → after ≡ select (λ m. not (in_conversation conv m)) before → Left before after

abbrev Counts : List ChatMessage → Type 0
Counts ms = (id : ℕ) → CountsFrom 0 (select (in_conversation id) ms)

pub Counts-Left :
    (before after : List ChatMessage) → Left before after → Counts before → Counts after
Counts-Left before after (same e) h id = rw e (h id)
Counts-Left before after (appended m next e) h id =
    rw (e, select-append (in_conversation id) before (m ∷ []))
      (elim (Bool-cases (in_conversation id m)) [
        | inl here ↦ rw here (
            CountsFrom-append 0 (select (in_conversation id) before) m (h id)
              (rw (next, (==_iff m.conversation_id id).0 here) (omega arith)))
        | inr there ↦ rw (there, append-nil) (h id)
      ])
Counts-Left before after (edited msg content e) h id =
    rw e (CountsFrom-content 0 id msg content before (h id))
Counts-Left before after (truncated conv p e) h id =
    rw (e, select-from_position id conv p before)
      (elim (Bool-cases (id == conv)) [
        | inl this ↦ rw this (CountsFrom-truncate 0 p (select (in_conversation id) before) (h id))
        | inr other ↦ rw other (h id)
      ])
Counts-Left before after (removed conv e) h id =
    rw (e, select-in_conversation id conv before)
      (elim (Bool-cases (id == conv)) [ inl this ↦ rw this tt | inr other ↦ rw other (h id) ])
