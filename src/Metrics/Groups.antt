-- ===== src/Metrics/Groups.antt =====
-- `GROUP BY` and `count(distinct …)`, and that groups take every row once.
use ai_inference_platform.Prelude.{
  ℕ, ◌+◌, ◌≤◌, ◌<◌, length-select-le, ◌≡◌, sym, ap, ◌∙◌, All, refl, Bool, true, false, not, List,
  [], ◌∷◌, map, length, select, arith, ◌==◌, if◌then◌else◌, Bool-cases, inl, inr,
}
use ai_inference_platform.Admin.Reports.{total}
use ai_inference_platform.RefreshTokens.{any}

-- Each number once.
unfoldable pub distinct : List ℕ → List ℕ
unfolding any
distinct [] = []
distinct (n ∷ ns) = let rest = distinct ns in if any (λ m. m == n) rest then rest else n ∷ rest

pub record Group (A : Type 0) : Type 0 where
  pub key : ℕ
  pub rows : List A

-- A row for each key that occurs.
unfoldable pub group_by : {A : Type 0} → (A → ℕ) → List A → List (Group A)
unfolding distinct
group_by key rows =
    map (λ k. record { key = k; rows = select (λ r. key r == k) rows }) (distinct (map key rows))

abbrev pub has : ℕ → List ℕ → Bool
has n = any (λ m. m == n)

abbrev IsDistinct : List ℕ → Type 0
IsDistinct [] = Unit
IsDistinct (n ∷ ns) = (has n ns ≡ false) × IsDistinct ns

distinct-IsDistinct : (ns : List ℕ) → IsDistinct (distinct ns)
unfolding distinct any
distinct-IsDistinct [] = tt
distinct-IsDistinct (n ∷ ns) = ground (arith, distinct-IsDistinct ns)

pub has-distinct : (n : ℕ) (ns : List ℕ) → has n (distinct ns) ≡ has n ns
unfolding distinct any
has-distinct n [] = refl
has-distinct n (m ∷ ns) = ground (arith, has-distinct n ns, has-distinct m ns)

-- A summand that only one key has.
total-absent :
    (n v : ℕ) (g : ℕ → ℕ) (ks : List ℕ)
    → has n ks ≡ false
    → total (λ k. (if n == k then v else 0) + g k) ks ≡ total g ks
unfolding any
total-absent n v g [] h = refl
total-absent n v g (k ∷ ks) h = ground (arith, h, total-absent n v g ks)

total-once :
    (n v : ℕ) (g : ℕ → ℕ) (ks : List ℕ)
    → IsDistinct ks
    → has n ks ≡ true
    → total (λ k. (if n == k then v else 0) + g k) ks ≡ v + total g ks
unfolding any
total-once n v g [] d h = absurd (ground (arith, h))
total-once n v g (k ∷ ks) (fresh, d) h = elim (Bool-cases (n == k)) [
  | inl same ↦
      let same' : n ≡ k = ground (arith, same) in
      ground (arith, same, total-absent n v g ks (rw same' fresh))
  | inr other ↦ ground (arith, h, other, total-once n v g ks d)
]

pub total_cong :
    {A : Type 0} (f g : A → ℕ) (xs : List A) → ((x : A) → f x ≡ g x) → total f xs ≡ total g xs
total_cong f g [] h = refl
total_cong f g (x ∷ xs) h = omega (arith, h x, total_cong f g xs h)

total-zero : (ks : List ℕ) → total (λ (k : ℕ). 0) ks ≡ 0
total-zero [] = refl
total-zero (k ∷ ks) = omega (arith, total-zero ks)

module _ {A : Type 0} (key : A → ℕ) (f : A → ℕ) where
  abbrev of_key : List A → ℕ → ℕ
  of_key rows k = total f (select (λ r. key r == k) rows)

  of_key-cons :
      (r : A) (rows : List A) (k : ℕ)
      → of_key (r ∷ rows) k ≡ (if key r == k then f r else 0) + of_key rows k
  of_key-cons r rows k = ground arith

  -- Where every key of the rows is in a list without repetition, the groups add up to the rows.
  total-of_key :
      (ks : List ℕ) (rows : List A)
      → IsDistinct ks
      → All (λ r. has (key r) ks ≡ true) rows
      → total (of_key rows) ks ≡ total f rows
  total-of_key ks [] d h = total-zero ks
  total-of_key ks (r ∷ rows) d (here, h) =
      total_cong (of_key (r ∷ rows)) (λ k. (if key r == k then f r else 0) + of_key rows k) ks
        (of_key-cons r rows)
      ∙ (total-once (key r) (f r) (of_key rows) ks d here
          ∙ ap (λ (n : ℕ). f r + n) (total-of_key ks rows d h))

  All-has :
      (ks : List ℕ) (rows : List A)
      → ((n : ℕ) → has n (map key rows) ≡ true → has n ks ≡ true)
      → All (λ r. has (key r) ks ≡ true) rows
  unfolding any
  All-has ks [] h = tt
  All-has ks (r ∷ rows) h =
      (h (key r) (ground arith), All-has ks rows (λ n p. h n (ground (arith, p))))

  pub total-distinct :
      (rows : List A)
      → total (λ k. total f (select (λ r. key r == k) rows)) (distinct (map key rows))
        ≡ total f rows
  total-distinct rows =
      total-of_key (distinct (map key rows)) rows (distinct-IsDistinct (map key rows))
        (All-has (distinct (map key rows)) rows (λ n p. has-distinct n (map key rows) ∙ p))

pub total_cong_in :
    (f g : ℕ → ℕ) (ks : List ℕ) → ((k : ℕ) → has k ks ≡ true → f k ≡ g k) → total f ks ≡ total g ks
unfolding any
total_cong_in f g [] h = refl
total_cong_in f g (k ∷ ks) h =
    let here = h k (ground arith) in
    omega (arith, here, total_cong_in f g ks (λ n p. h n (ground (arith, p))))

pub length-total : {A : Type 0} (xs : List A) → total (λ (x : A). 1) xs ≡ length xs
length-total [] = refl
length-total (x ∷ xs) = omega (arith, length-total xs)

-- A count of different numbers below another one.
without : ℕ → List ℕ → List ℕ
without n = select (λ m. not (m == n))

length-without : (n : ℕ) (ns : List ℕ) → has n ns ≡ true → length (without n ns) < length ns
unfolding without any
length-without n [] h = absurd (ground (arith, h))
length-without n (m ∷ ns) h = elim (Bool-cases (m == n)) [
  | inl same ↦ ground (arith, same, length-select-le (λ m. not (m == n)) ns)
  | inr other ↦ ground (arith, h, other, length-without n ns)
]

has-without : (n m : ℕ) (ns : List ℕ) → (m == n) ≡ false → has m (without n ns) ≡ has m ns
unfolding without any
has-without n m [] h = refl
has-without n m (k ∷ ns) h = ground (arith, h, has-without n m ns)

length-IsDistinct :
    (ms ns : List ℕ)
    → IsDistinct ms
    → ((n : ℕ) → has n ms ≡ true → has n ns ≡ true)
    → length ms ≤ length ns
length-IsDistinct [] ns d h = omega arith
length-IsDistinct (m ∷ ms) ns (fresh, d) h =
    let smaller = length-IsDistinct ms (without m ns) d (λ k p. elim (Bool-cases (k == m)) [
      | inl same ↦
          let same' : k ≡ m = ground (arith, same) in absurd (ground (arith, fresh, rw same' at p))
      | inr other ↦ has-without m k ns other ∙ h k (unfold any in ground (arith, p))
    ]) in
    omega (arith, smaller, length-without m ns (h m (unfold any in ground arith)))

pub length-distinct_mono :
    (ms ns : List ℕ)
    → ((n : ℕ) → has n ms ≡ true → has n ns ≡ true)
    → length (distinct ms) ≤ length (distinct ns)
length-distinct_mono ms ns h =
    length-IsDistinct (distinct ms) (distinct ns) (distinct-IsDistinct ms)
      (λ n p. has-distinct n ns ∙ h n (sym (has-distinct n ms) ∙ p))

pub length-distinct-le : (ns : List ℕ) → length (distinct ns) ≤ length ns
unfolding distinct any
length-distinct-le [] = omega arith
length-distinct-le (n ∷ ns) = ground (arith, length-distinct-le ns)
