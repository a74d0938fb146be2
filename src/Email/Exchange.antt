-- ===== src/Email/Exchange.antt =====
-- Which mail exchanger a domain's answers lead to.
use mathlib.Core.List.{Mem, mem-cons_self, mem-cons_of_mem}
use ai_inference_platform.Prelude.{
  ℕ, ◌≤◌, ◌≡◌, inl, inr, refl, some, List, [], ◌∷◌, Text, arith, All, leb, Bool-cases,
}
use ai_inference_platform.Email.{Answer, insert, sort, first_host, mx_records, resolve_mx_host}

-- No record of the list has a lower preference.
abbrev pub IsLeast : ℕ → List (ℕ × Text) → Type 0
IsLeast p rs = All (λ r. p ≤ r.0) rs

IsLeast-weaken : (p q : ℕ) (rs : List (ℕ × Text)) → p ≤ q → IsLeast q rs → IsLeast p rs
IsLeast-weaken p q [] le h = tt
IsLeast-weaken p q (r ∷ rs) le (one, h) = (omega (arith, le, one), IsLeast-weaken p q rs le h)

-- The head of one list is a record of the other with the lowest preference, if the other has any.
abbrev pub HeadIsBest : List (ℕ × Text) → List (ℕ × Text) → Type 0
HeadIsBest [] rs = rs ≡ []
HeadIsBest (h ∷ hs) rs = Mem h rs × IsLeast h.0 rs

HeadIsBest-insert :
    (r : ℕ × Text) (sorted rs : List (ℕ × Text))
    → HeadIsBest sorted rs
    → HeadIsBest (insert r sorted) (r ∷ rs)
unfolding insert
HeadIsBest-insert r [] rs h = rw h (mem-cons_self, (omega arith, tt))
HeadIsBest-insert r (s ∷ ss) rs (found, least) = elim (Bool-cases (leb r.0 s.0)) [
  | inl le ↦
      let lower : r.0 ≤ s.0 = ground arith in
      rw le (mem-cons_self, (omega arith, IsLeast-weaken r.0 s.0 rs lower least))
  | inr gt ↦
      let higher : s.0 ≤ r.0 = ground arith in rw gt (mem-cons_of_mem r found, (higher, least))
]

HeadIsBest-sort : (rs : List (ℕ × Text)) → HeadIsBest (sort rs) rs
unfolding sort
HeadIsBest-sort [] = refl
HeadIsBest-sort (r ∷ rs) = HeadIsBest-insert r (sort rs) rs (HeadIsBest-sort rs)

first_host-IsBest :
    (sorted rs : List (ℕ × Text)) (host : Text)
    → HeadIsBest sorted rs
    → first_host sorted ≡ some host
    → (p : ℕ) × (Mem (p, host) rs × IsLeast p rs)
first_host-IsBest [] rs host h e = absurd (ground (arith, e))
first_host-IsBest ((p, h) ∷ hs) rs host (found, least) e =
    let same : h ≡ host = ground arith in (p, (rw same at found, least))

-- The host that is resolved is that of a mail exchanger among the answers, and no exchanger has a
-- lower preference.
pub resolve_mx_host-IsBest :
    (answers : List Answer) (host : Text)
    → resolve_mx_host (some answers) ≡ some host
    → (p : ℕ) × (Mem (p, host) (mx_records answers) × IsLeast p (mx_records answers))
unfolding resolve_mx_host
resolve_mx_host-IsBest answers host e =
    first_host-IsBest (sort (mx_records answers)) (mx_records answers) host
      (HeadIsBest-sort (mx_records answers)) e
