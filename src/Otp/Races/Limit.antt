-- ===== src/Otp/Races/Limit.antt =====
-- That as many codes as the sessions in flight allow are given.
use ai_inference_platform.Prelude.{
  ℕ, zero, suc, ◌+◌, ◌≤◌, ◌<◌, ◌≡◌, ◌∙◌, refl, ap, true, false, List, [], ◌∷◌, ◌++◌, length, arith,
  ◌==◌,
}
use ai_inference_platform.Models.{Otp}
use ai_inference_platform.RefreshTokens.{any}
use ai_inference_platform.Otp.{minutes, recent}
use ai_inference_platform.Otp.Requests.{window, is_for_iff}
use ai_inference_platform.Otp.Races.{
  Race, Event, begins, commits, pick, step, run, AreFew, is_in, held, held-append, is_stored,
}

-- So many commits, each of the session that began last.
abbrev closings : ℕ → List Event
closings zero = []
closings (suc n) = commits 0 ∷ closings n

-- An id beyond those of the rows.
abbrev beyond : List Otp → ℕ
beyond [] = 0
beyond (r ∷ rs) = suc r.id + beyond rs

module _ (first : ℕ) where
  -- No row has one of so many ids from the first on.
  abbrev AreFree : ℕ → List Otp → Type 0
  AreFree n otps = (j : ℕ) → j < n → is_stored (first + j) otps ≡ false

  stored-append :
      (id : ℕ) (r : Otp) (otps : List Otp)
      → is_stored id otps ≡ false
      → (r.id == id) ≡ false
      → is_stored id (otps ++ r ∷ []) ≡ false
  unfolding any
  stored-append id r [] free other = ground (arith, other)
  stored-append id r (a ∷ otps) free other = ground (arith, free, other, stored-append id r otps)

  not_stored : (id : ℕ) (otps : List Otp) → beyond otps ≤ id → is_stored id otps ≡ false
  unfolding any
  not_stored id [] far = refl
  not_stored id (r ∷ otps) far = ground (arith, not_stored id otps (omega (arith, far)))

  module _ (checked : ℕ) (o : Otp) (fair : checked ≤ o.created_at) where
    -- The row of a session: as the given one, with an id of its own.
    abbrev named : ℕ → Otp
    named n = record o { id = first + n }

    abbrev rows : ℕ → List Otp
    rows zero = []
    rows (suc n) = named n ∷ rows n

    abbrev openings : (m n : ℕ) → List Event
    openings m zero = []
    openings m (suc n) = begins checked (named m) ∷ openings (suc m) n

    abbrev appended : ℕ → List Otp → List Otp
    appended zero otps = otps
    appended (suc n) otps = appended n (otps ++ named n ∷ [])

    begin_one :
        (m : ℕ) (otps : List Otp)
        → length (recent o.email o.purpose checked otps) ≤ 2
        → step (begins checked (named m)) (record { otps = otps; pending = rows m })
          ≡ record { otps = otps; pending = rows (suc m) }
    unfolding step
    begin_one m otps few = ground (arith, few)

    run-openings :
        (n m : ℕ) (otps : List Otp) (es : List Event)
        → length (recent o.email o.purpose checked otps) ≤ 2
        → run (openings m n ++ es) (record { otps = otps; pending = rows m })
          ≡ run es (record { otps = otps; pending = rows (n + m) })
    unfolding run
    run-openings zero m otps es few =
        ap (λ (j : ℕ). run es (record { otps = otps; pending = rows j })) (omega arith)
    run-openings (suc n) m otps es few =
        ap (λ (r : Race). run (openings (suc m) n ++ es) r) (begin_one m otps few)
        ∙ (run-openings n (suc m) otps es few
            ∙ ap (λ (j : ℕ). run es (record { otps = otps; pending = rows j })) (omega arith))

    AreFree-append :
        (n : ℕ) (otps : List Otp) → AreFree (suc n) otps → AreFree n (otps ++ named n ∷ [])
    AreFree-append n otps free j less =
        stored-append (first + j) (named n) otps (free j (omega (arith, less)))
          (ground (arith, less))

    close_one :
        (n : ℕ) (otps : List Otp)
        → AreFree (suc n) otps
        → step (commits 0) (record { otps = otps; pending = rows (suc n) })
          ≡ record { otps = otps ++ named n ∷ []; pending = rows n }
    unfolding step pick
    close_one n otps free = rw (free n (omega arith)) refl

    run-closings :
        (n : ℕ) (otps : List Otp)
        → AreFree n otps
        → (run (closings n) (record { otps = otps; pending = rows n })).otps ≡ appended n otps
    unfolding run
    run-closings zero otps free = refl
    run-closings (suc n) otps free =
        ap (λ (r : Race). (run (closings n) r).otps) (close_one n otps free)
        ∙ run-closings n (otps ++ named n ∷ []) (AreFree-append n otps free)

    length-rows : (n : ℕ) → length (rows n) ≡ n
    length-rows zero = omega arith
    length-rows (suc n) = omega (arith, length-rows n)

    AreFew-closings :
        (k n : ℕ) (otps : List Otp)
        → n ≤ k
        → AreFree n otps
        → AreFew k (closings n) (record { otps = otps; pending = rows n })
    unfolding AreFew
    AreFew-closings k zero otps le free = omega arith
    AreFew-closings k (suc n) otps le free = (
      omega (arith, le, length-rows n),
      tt,
      rw (close_one n otps free) (
          AreFew-closings k n (otps ++ named n ∷ []) (omega (arith, le))
            (AreFree-append n otps free)),
    )

    AreFew-openings :
        (k n m : ℕ) (otps : List Otp)
        → length (recent o.email o.purpose checked otps) ≤ 2
        → n + m ≡ k
        → AreFree k otps
        → AreFew k (openings m n ++ closings k) (record { otps = otps; pending = rows m })
    unfolding AreFew
    AreFew-openings k zero m otps few full free =
        let same : m ≡ k = omega (arith, full) in
        rw same (AreFew-closings k k otps (omega arith) free)
    AreFew-openings k (suc n) m otps few full free = (
      omega (arith, full, length-rows m),
      fair,
      rw (begin_one m otps few) (AreFew-openings k n (suc m) otps few (omega (arith, full)) free),
    )

    held-appended :
        (from n : ℕ) (otps : List Otp)
        → from ≤ o.created_at
        → o.created_at ≤ from + minutes 15
        → held o.email o.purpose from (appended n otps) ≡ held o.email o.purpose from otps + n
    held-appended from zero otps after before = omega arith
    held-appended from (suc n) otps after before =
        let mine = (is_for_iff o.email o.purpose (named n)).1 (refl, refl) in
        let inside : is_in o.email o.purpose from (named n) ≡ true =
          ground (arith, mine, after, before) in
        let more = held-appended from n (otps ++ named n ∷ []) after before in
        let one = held-append o.email o.purpose from (named n) otps in
        ground (arith, more, one, inside)

-- The bound is reached: where a check passes, k sessions that make theirs before the first of them
-- commits store k rows, each with an id of its own, however many of them are too many.
pub race_reaches_the_bound :
    (k checked : ℕ) (o : Otp) (from : ℕ) (otps : List Otp)
    → checked ≤ o.created_at
    → from ≤ o.created_at
    → o.created_at ≤ from + minutes 15
    → length (recent o.email o.purpose checked otps) ≤ 2
    → (es : List Event) × (AreFew k es (record { otps = otps; pending = [] })
        × (length
              (window o.email o.purpose from (run es (record { otps = otps; pending = [] })).otps)
            ≡ length (window o.email o.purpose from otps) + k))
race_reaches_the_bound k checked o from otps fair after before few =
    let first = beyond otps in
    let es = openings first checked o fair 0 k ++ closings k in
    let free : AreFree first k otps = λ j less. not_stored first (first + j) otps (omega arith) in
    let begun = run-openings first checked o fair k 0 otps (closings k) few in
    let all : (run es (record { otps = otps; pending = [] })).otps
        ≡ appended first checked o fair k otps =
      ap (λ (r : Race). r.otps) begun
      ∙ (ap
            (λ (j : ℕ).
              (run (closings k)
                (record { otps = otps; pending = rows first checked o fair j })).otps)
            (omega arith)
          ∙ run-closings first checked o fair k otps free) in
    (
      es,
      (
        AreFew-openings first checked o fair k k 0 otps few (omega arith) free,
        rw all (held-appended first checked o fair from k otps after before),
      ),
    )
