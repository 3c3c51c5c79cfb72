-- ===== src/Sparse/Starts.antt =====
-- MAKECSR: from counts to the places where the rows start.
use gklib.Base.{
  ℕ, zero, suc, ◌+◌, ◌-◌, ◌≤◌, ◌<◌, ◌≡◌, refl, ap, ◌∙◌, inl, inr, some, List, length, get_or, set,
  ◌==◌, arith, length-set, Bool-cases,
}
use gklib.Base.Arrays.{◌>>=◌, write-eq-some, get_elem?-get_or, get_or-set}
use gklib.Sparse.{shift_csr, add_previous, make_csr, for_range}
use gklib.Sparse.Loops.{for_range-zero, for_range-suc}
use gklib.Sparse.Pointers.{shift_csr-Opened}

-- The sum of the first `k` counts.
abbrev pub sum_below : (ℕ → ℕ) → ℕ → ℕ
sum_below c zero = 0
sum_below c (suc k) = sum_below c k + c k

-- The sums up to `i` are made, the counts from `i` on are as they were.
abbrev Summing : (ℕ → ℕ) → ℕ → ℕ → List ℕ → Type 0
Summing c n i a =
    ((k : ℕ) → k < i → get_or a k 0 ≡ sum_below c (suc k))
    × ((k : ℕ) → i ≤ k → k < n → get_or a k 0 ≡ c k)

add_previous-eq :
    (i : ℕ) (a : List ℕ)
    → suc i < length a
    → add_previous (suc i) a ≡ some (set a (suc i) (get_or a (suc i) 0 + get_or a i 0))
unfolding add_previous
add_previous-eq i a h =
    let e : suc i - 1 ≡ i = omega arith in
    rw
      (
        e,
        get_elem?-get_or a (suc i) 0 h,
        get_elem?-get_or a i 0 (omega arith),
        write-eq-some a (suc i) (get_or a (suc i) 0 + get_or a i 0) h,
      )
      refl

record Summed (c : ℕ → ℕ) (n r i : ℕ) (a : List ℕ) : Type 0 where
  after : List ℕ
  run : for_range r i add_previous a ≡ some after
  size : length after ≡ length a
  at : (k : ℕ) → k < n → get_or after k 0 ≡ sum_below c (suc k)

Summing-step :
    (c : ℕ → ℕ) (n i : ℕ) (a : List ℕ)
    → suc i < n
    → n < length a
    → Summing c n (suc i) a
    → Summing c n (suc (suc i)) (set a (suc i) (get_or a (suc i) 0 + get_or a i 0))
Summing-step c n i a l h (done, left) = (
  λ k m. elim (Bool-cases (suc i == k)) [
    | inl e ↦ ground (
      arith,
      e,
      done i,
      left (suc i),
      get_or-set a (suc i) k (get_or a (suc i) 0 + get_or a i 0) 0,
    )
    | inr e ↦
        ground (arith, e, done k, get_or-set a (suc i) k (get_or a (suc i) 0 + get_or a i 0) 0)
  ],
  λ k m q. ground (arith, left k, get_or-set a (suc i) k (get_or a (suc i) 0 + get_or a i 0) 0),
)

sums-Summed :
    (c : ℕ → ℕ) (n r i : ℕ) (a : List ℕ)
    → suc i + r ≡ n
    → n < length a
    → Summing c n (suc i) a
    → Summed c n r (suc i) a
sums-Summed c n zero i a e h s = record {
  after = a;
  run = for_range-zero (suc i) add_previous a;
  size = refl;
  at = λ k l. s.0 k (omega (arith, e));
}
sums-Summed c n (suc r) i a e h s =
    let a' = set a (suc i) (get_or a (suc i) 0 + get_or a i 0) in
    let same : length a' ≡ length a = length-set a (suc i) (get_or a (suc i) 0 + get_or a i 0) in
    let rest =
      sums-Summed c n r (suc i) a' (omega (arith, e)) (omega (arith, same))
        (Summing-step c n i a (omega (arith, e)) h s) in
    record {
      after = rest.after;
      run =
          for_range-suc r (suc i) add_previous a
          ∙ ap (λ o. o >>= λ s'. for_range r (suc (suc i)) add_previous s')
              (add_previous-eq i a (omega (arith, e)))
          ∙ rest.run;
      size = rest.size ∙ same;
      at = rest.at;
    }

-- Every place up to `n` holds the sum of the counts before it.
pub record Made (c : ℕ → ℕ) (n : ℕ) (a : List ℕ) : Type 0 where
  pub after : List ℕ
  pub run : make_csr n a ≡ some after
  pub size : length after ≡ length a
  pub at : (k : ℕ) → k ≤ n → get_or after k 0 ≡ sum_below c k

make_csr-eq :
    (n : ℕ) (a b : List ℕ)
    → for_range (n - 1) 1 add_previous a ≡ some b
    → make_csr n a ≡ shift_csr n b
unfolding make_csr
make_csr-eq n a b e = rw e refl

sums_of :
    (c : ℕ → ℕ) (n : ℕ) (a : List ℕ)
    → n < length a
    → ((k : ℕ) → k < n → get_or a k 0 ≡ c k)
    → Summed c n (n - 1) 1 a
sums_of c zero a h counts = record {
  after = a;
  run = for_range-zero 1 add_previous a;
  size = refl;
  at = λ k l. absurd (omega arith);
}
sums_of c (suc n) a h counts =
    let e : suc n - 1 ≡ n = omega arith in
    rw e (
      sums-Summed c (suc n) n 0 a (omega arith) h (
        λ k l. let z : k ≡ 0 = omega arith in rw z (omega (arith, counts 0 (omega arith))),
        λ k l m. counts k m,
      ))

opened_sum :
    (c : ℕ → ℕ) (n : ℕ) (a : List ℕ)
    → get_or a 0 0 ≡ 0
    → ((k : ℕ) → k < n → get_or a (suc k) 0 ≡ sum_below c (suc k))
    → (k : ℕ) → k ≤ n
    → get_or a k 0 ≡ sum_below c k
opened_sum c n a z s zero l = z
opened_sum c n a z s (suc k) l = s k (omega arith)

pub make_csr-Made :
    (c : ℕ → ℕ) (n : ℕ) (a : List ℕ)
    → n < length a
    → ((k : ℕ) → k < n → get_or a k 0 ≡ c k)
    → Made c n a
make_csr-Made c n a h counts =
    let s = sums_of c n a h counts in
    let o = shift_csr-Opened n s.after (omega (arith, s.size)) in
    record {
      after = o.after;
      run = make_csr-eq n a s.after s.run ∙ o.run;
      size = o.size ∙ s.size;
      at = opened_sum c n o.after o.first (λ k l. o.moved k l ∙ s.at k l);
    }
