-- ===== src/Conversations/Views.antt =====
-- A conversation as its lines, a role and a content each, and what the writes make of the lines.
use mathlib.Core.List.{append-nil}
use ai_inference_platform.Prelude.{
  ℕ, zero, suc, ◌-◌, ◌≤◌, ◌≡◌, ◌≢◌, refl, sym, ◌∙◌, true, false, not, ◌&&◌, some, List, [], ◌∷◌,
  ◌++◌, map, arith, Text, take, select, select-append, find, update_where, leb, ◌==◌, if◌then◌else◌,
  Bool-cases, inl, inr, All,
}
use ai_inference_platform.Models.{ChatMessage}
use ai_inference_platform.Conversations.{in_conversation}
use ai_inference_platform.Conversations.Messages.{CountsFrom}

abbrev pub Chat : Type 0
Chat = List (Text × Text)

abbrev pub line : ChatMessage → Text × Text
line m = (m.role, m.content)

abbrev pub lines : ℕ → List ChatMessage → Chat
lines id ms = map line (select (in_conversation id) ms)

-- The line at a place gets another content.
abbrev pub reword_at : (here place : ℕ) → (content : Text) → Chat → Chat
reword_at here place content [] = []
reword_at here place content (l ∷ ls) =
    let rest = reword_at (suc here) place content ls in
    if here == place then (l.0, content) ∷ ls else l ∷ rest

-- The ids of messages are those of a primary key.
abbrev pub IsKeyed : List ChatMessage → Type 0
IsKeyed [] = Unit
IsKeyed (m ∷ ms) = All (λ k. k.id ≢ m.id) ms × IsKeyed ms

map-append : (xs ys : List ChatMessage) → map line (xs ++ ys) ≡ map line xs ++ map line ys
map-append [] ys = refl
map-append (x ∷ xs) ys = ground (arith, map-append xs ys)

pub lines-append :
    (id : ℕ) (ms : List ChatMessage) (m : ChatMessage)
    → lines id (ms ++ m ∷ [])
      ≡ (if id == m.conversation_id then lines id ms ++ line m ∷ [] else lines id ms)
lines-append id ms m =
    rw
      (
        select-append (in_conversation id) ms (m ∷ []),
        map-append (select (in_conversation id) ms) (select (in_conversation id) (m ∷ [])),
      )
      (elim (Bool-cases (m.conversation_id == id)) [
        | inl here ↦
            let here' : id == m.conversation_id ≡ true = ground arith in rw (here, here') refl
        | inr there ↦
            let there' : id == m.conversation_id ≡ false = ground arith in
            rw (there, there') (append-nil (lines id ms))
      ])

take-nil : (n : ℕ) → take {A = Text × Text} n [] ≡ []
take-nil zero = refl
take-nil (suc n) = refl

CountsFrom-late :
    (n p : ℕ) (ms : List ChatMessage)
    → CountsFrom n ms
    → p ≤ n
    → select (λ m. not (leb p m.position)) ms ≡ []
CountsFrom-late n p [] h e = refl
CountsFrom-late n p (m ∷ ms) h e = ground (arith, CountsFrom-late (suc n) p ms h.1 (omega arith))

pub CountsFrom-take :
    (n p : ℕ) (ms : List ChatMessage)
    → CountsFrom n ms
    → map line (select (λ m. not (leb p m.position)) ms) ≡ take (p - n) (map line ms)
CountsFrom-take n p [] h = sym (take-nil (p - n))
CountsFrom-take n p (m ∷ ms) (at, h) = elim (Bool-cases (leb p m.position)) [
  | inl late ↦
      let none_left : p - n ≡ 0 = ground arith in
      rw (late, none_left, CountsFrom-late (suc n) p ms h (ground arith)) refl
  | inr early ↦
      let one_more : p - n ≡ suc (p - suc n) = ground arith in
      rw (early, one_more, CountsFrom-take (suc n) p ms h) refl
]

pub select-reworded :
    (x : ℕ) (content : Text) (ms : List ChatMessage)
    → All (λ m. m.id ≢ x) ms
    → update_where (λ m. m.id == x) (λ m. record m { content = content }) ms ≡ ms
select-reworded x content [] h = refl
select-reworded x content (m ∷ ms) (other, h) =
    ground (arith, other, select-reworded x content ms h)

find-other :
    (c x y : ℕ) (ms : List ChatMessage) (msg : ChatMessage)
    → find (λ m. m.id == x && in_conversation c m) ms ≡ some msg
    → All (λ k. k.id ≢ y) ms
    → x ≢ y
find-other c x y [] msg found h = absurd (ground (arith, found))
find-other c x y (m ∷ ms) msg found (other, h) =
    elim (Bool-cases (m.id == x && in_conversation c m)) [
      | inl here ↦ λ e. other (ground arith)
      | inr there ↦ find-other c x y ms msg (rw there at found) h
    ]

no_other :
    (c x y : ℕ) (ms : List ChatMessage)
    → x ≡ y
    → All (λ k. k.id ≢ y) ms
    → All (λ m. m.id ≡ x → in_conversation c m ≡ true) ms
no_other c x y [] e h = tt
no_other c x y (m ∷ ms) e (other, h) = (λ same. absurd (other (same ∙ e)), no_other c x y ms e h)

-- A message of a conversation that is found by its id is the only one with that id.
pub found_only :
    (c x : ℕ) (ms : List ChatMessage) (msg : ChatMessage)
    → IsKeyed ms
    → find (λ m. m.id == x && in_conversation c m) ms ≡ some msg
    → All (λ m. m.id ≡ x → in_conversation c m ≡ true) ms
found_only c x [] msg keyed found = tt
found_only c x (m ∷ ms) msg (only, keyed) found =
    elim (Bool-cases (m.id == x && in_conversation c m)) [
      | inl here ↦ (λ e. ground arith, no_other c x m.id ms (ground arith) only)
      | inr there ↦
          let found' : find (λ k. k.id == x && in_conversation c k) ms ≡ some msg =
            rw there at found in
          let apart = find-other c x m.id ms msg found' only in
          (λ e. absurd (apart (sym e)), found_only c x ms msg keyed found')
    ]

pub found_late :
    (c x n : ℕ) (ms : List ChatMessage) (msg : ChatMessage)
    → find (λ m. m.id == x && in_conversation c m) ms ≡ some msg
    → CountsFrom n (select (in_conversation c) ms)
    → n ≤ msg.position
found_late c x n [] msg found h = absurd (ground (arith, found))
found_late c x n (m ∷ ms) msg found h = elim (Bool-cases (in_conversation c m)) [
  | inl here ↦
      let h' : CountsFrom n (m ∷ select (in_conversation c) ms) = rw here at h in
      elim (Bool-cases (m.id == x)) [
        | inl this ↦ ground arith
        | inr other ↦
            let later = found_late c x (suc n) ms msg (rw other at found) h'.1 in
            omega (arith, later)
      ]
  | inr there ↦
      let h' : CountsFrom n (select (in_conversation c) ms) = rw there at h in
      found_late c x n ms msg (ground arith) h'
]
