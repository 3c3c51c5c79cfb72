-- ===== src/Cache/Search.antt =====
-- The two loops of `gk_cacheLoad` over the lines of a set.
use mathlib.Core.Path.{subst}
use gklib.Base.{
  ℕ, zero, suc, ◌+◌, ◌≤◌, ◌<◌, ◌≡◌, refl, ◌∙◌, ◌⊎◌, inl, inr, Bool, true, false, ◌&&◌, not, none,
  some, length, get_or, arith, ltb, ◌==◌, if◌then◌else◌, Bool-cases, ==_iff, ltb→lt,
}
use gklib.Base.Arrays.{get_elem?-get_or}
use gklib.Cache.{Cache, find_hit, find_place}

-- A place is in use and holds a line.
abbrev pub holds : Cache → ℕ → ℕ → Bool
holds c line j = not (get_or c.latimes j 0 == 0) && (get_or c.clines j 0 == line)

-- The places of a set are inside both arrays.
abbrev pub Inside : Cache → ℕ → Type 0
Inside c end = (end ≤ length c.latimes) × (end ≤ length c.clines)

find_hit-step :
    (c : Cache) (line n i : ℕ)
    → Inside c (suc i)
    → find_hit c line (suc n) i
      ≡ (if holds c line i then some (some i) else find_hit c line n (suc i))
unfolding find_hit
find_hit-step c line n i (t, l) =
    rw (get_elem?-get_or c.latimes i 0 (omega arith), get_elem?-get_or c.clines i 0 (omega arith))
      refl

find_hit-end : (c : Cache) (line i : ℕ) → find_hit c line zero i ≡ some none
unfolding find_hit
find_hit-end c line i = refl

-- The search finds a place that holds the line, or no place does.
abbrev pub Looked : Cache → ℕ → ℕ → ℕ → Type 0
Looked c line n i =
    ((find_hit c line n i ≡ some none) × ((j : ℕ) → i ≤ j → j < i + n → holds c line j ≡ false))
    ⊎ ((j : ℕ) × ((find_hit c line n i ≡ some (some j))
          × ((i ≤ j) × ((j < i + n) × (holds c line j ≡ true)))))

later_place : (i j : ℕ) → i ≤ j → (i == j) ≡ false → suc i ≤ j
later_place i j a s = ground arith

pub find_hit-Looked : (c : Cache) (line n i : ℕ) → Inside c (i + n) → Looked c line n i
find_hit-Looked c line zero i inside = inl (find_hit-end c line i, λ j a b. absurd (omega arith))
find_hit-Looked c line (suc n) i (t, l) =
    let step = find_hit-step c line n i (omega arith, omega arith) in
    elim (Bool-cases (holds c line i)) [
      | inl h ↦ inr (i, (step ∙ rw h refl, (omega arith, (omega arith, h))))
      | inr h ↦ elim (find_hit-Looked c line n (suc i) (omega arith, omega arith)) [
        | inl (e, none_of) ↦ inl (
          step ∙ rw h e,
          λ j a b. elim (Bool-cases (i == j)) [
            | inl s ↦ subst (λ x. holds c line x ≡ false) ((==_iff i j).0 s) h
            | inr s ↦ none_of j (later_place i j a s) (omega arith)
          ],
        )
        | inr (j, (e, (a, (b, h')))) ↦ inr (j, (step ∙ rw h e, (omega arith, (omega arith, h'))))
      ]
    ]

find_place-step :
    (c : Cache) (lru n i : ℕ)
    → i < length c.latimes
    → lru < length c.latimes
    → find_place c lru (suc n) i ≡ (
        if get_or c.latimes i 0 == 0
        then some i
        else if ltb (get_or c.latimes i 0) (get_or c.latimes lru 0)
        then find_place c i n (suc i)
        else find_place c lru n (suc i))
unfolding find_place
find_place-step c lru n i a b =
    rw (get_elem?-get_or c.latimes i 0 a, get_elem?-get_or c.latimes lru 0 b) refl

-- The place chosen is `lru` or from the range, and no place of these was used before it.
pub record Chosen (c : Cache) (lru n i : ℕ) : Type 0 where
  pub place : ℕ
  pub run : find_place c lru n i ≡ some place
  pub from : (place ≡ lru) ⊎ ((i ≤ place) × (place < i + n))
  pub least_start : get_or c.latimes place 0 ≤ get_or c.latimes lru 0
  pub least : (j : ℕ) → i ≤ j → j < i + n → get_or c.latimes place 0 ≤ get_or c.latimes j 0

find_place-end : (c : Cache) (lru i : ℕ) → find_place c lru zero i ≡ some lru
unfolding find_place
find_place-end c lru i = refl

zero_time : (t : ℕ) → (t == 0) ≡ true → t ≡ 0
zero_time t e = ground arith

not_less : (a b : ℕ) → ltb a b ≡ false → b ≤ a
not_less a b e = ground arith

-- A bound at `i` and at all later places.
with_first :
    (c : Cache) (p n i : ℕ)
    → get_or c.latimes p 0 ≤ get_or c.latimes i 0
    → ((j : ℕ) → suc i ≤ j → j < suc i + n → get_or c.latimes p 0 ≤ get_or c.latimes j 0)
    → (j : ℕ) → i ≤ j
    → j < i + suc n
    → get_or c.latimes p 0 ≤ get_or c.latimes j 0
with_first c p n i first rest j a b = elim (Bool-cases (i == j)) [
  | inl s ↦ subst (λ x. get_or c.latimes p 0 ≤ get_or c.latimes x 0) ((==_iff i j).0 s) first
  | inr s ↦ rest j (later_place i j a s) (omega arith)
]

pub find_place-Chosen :
    (c : Cache) (lru n i : ℕ) → lru < length c.latimes → i + n ≤ length c.latimes → Chosen c lru n i
find_place-Chosen c lru zero i a b = record {
  place = lru;
  run = find_place-end c lru i;
  from = inl refl;
  least_start = omega arith;
  least = λ j x y. absurd (omega arith);
}
find_place-Chosen c lru (suc n) i a b =
    let step = find_place-step c lru n i (omega arith) a in
    elim (Bool-cases (get_or c.latimes i 0 == 0)) [
      | inl z ↦ record {
        place = i;
        run = step ∙ rw z refl;
        from = inr (omega arith, omega arith);
        least_start = omega (arith, zero_time (get_or c.latimes i 0) z);
        least = λ j x y. omega (arith, zero_time (get_or c.latimes i 0) z);
      }
      | inr z ↦ elim (Bool-cases (ltb (get_or c.latimes i 0) (get_or c.latimes lru 0))) [
        | inl s ↦
            let r = find_place-Chosen c i n (suc i) (omega arith) (omega arith) in
            record {
              place = r.place;
              run = step ∙ rw (z, s) r.run;
              from = inr (elim r.from [
                | inl e ↦ (omega (arith, e), omega (arith, e))
                | inr (x, y) ↦ (omega arith, omega arith)
              ]);
              least_start =
                  omega (
                    arith,
                    r.least_start,
                    ltb→lt (get_or c.latimes i 0) (get_or c.latimes lru 0) s,
                  );
              least = with_first c r.place n i r.least_start r.least;
            }
        | inr s ↦
            let r = find_place-Chosen c lru n (suc i) a (omega arith) in
            record {
              place = r.place;
              run = step ∙ rw (z, s) r.run;
              from = elim r.from [ inl e ↦ inl e | inr (x, y) ↦ inr (omega arith, omega arith) ];
              least_start = r.least_start;
              least =
                  with_first c r.place n i
                    (omega (
                      arith,
                      r.least_start,
                      not_less (get_or c.latimes i 0) (get_or c.latimes lru 0) s,
                    ))
                    r.least;
            }
      ]
    ]
