-- ===== src/Sparse/Views.antt =====
-- What a view must be, as `gk_csr_ValidateSparseView` checks it, and what its reverse is.
use gklib.Base.{
  ℕ, zero, suc, ◌+◌, ◌-◌, ◌≤◌, ◌<◌, ◌≡◌, refl, sym, ap, ◌∙◌, Option, none, some, List, [], ◌∷◌,
  ◌++◌, map, length, get_or, arith, length-append,
}
use gklib.Sparse.{View}
use gklib.Sparse.Loops.{Entry, row_entries, entries}
use gklib.Sparse.Segments.{stretch}
use gklib.Sparse.Counts.{count, below, chosen, AllBelow, below-suc, below-zero}
use gklib.Sparse.Pointers.{Opened}

-- The values, where there are any, reach as far as the entries.
abbrev pub HasValues : {V : Type 0} → ℕ → Option (List V) → Type 0
HasValues n none = Unit {0}
HasValues n (some v) = n ≤ length v

pub record IsView {V : Type 0} (nf nr : ℕ) (f : View V) : Type 0 where
  pub width : length f.ptr ≡ suc nf
  pub start : get_or f.ptr 0 0 ≡ 0
  pub rising : (k : ℕ) → k < nf → get_or f.ptr k 0 ≤ get_or f.ptr (suc k) 0
  pub ends : get_or f.ptr nf 0 ≤ length f.ind
  pub minors : (j : ℕ) → j < get_or f.ptr nf 0 → get_or f.ind j 0 < nr
  pub values : HasValues (get_or f.ptr nf 0) f.val

abbrev pub minor_of : Entry → ℕ
minor_of e = e.minor

abbrev pub major_of : Entry → ℕ
major_of e = e.major

-- Row `k` of an array with its pointers.
abbrev pub row : {A : Type 0} → List ℕ → List A → ℕ → List A
row ptr ind k = stretch (get_or ptr k 0) (get_or ptr (suc k) 0 - get_or ptr k 0) ind

-- An array is indexed by a key: the pointers say how many entries have a smaller key, and row `k` has
-- the values of the entries with key `k`, each once, in their order.
pub record Indexed {E A : Type 0} (key : E → ℕ) (g : E → A) (n : ℕ) (es : List E) (ptr : List ℕ)
    (ind : List A) : Type 0 where
  pub width : length ptr ≡ suc n
  pub starts : (k : ℕ) → k ≤ n → get_or ptr k 0 ≡ below key k es
  pub rows : (k : ℕ) → k < n → row ptr ind k ≡ map g (chosen key k es)

module _ {E A : Type 0} (key : E → ℕ) (g : E → A) (n : ℕ) (es : List E) where
  opened_start :
      (ptr after : List ℕ)
      → get_or after 0 0 ≡ 0
      → ((k : ℕ) → k < n → get_or after (suc k) 0 ≡ get_or ptr k 0)
      → ((k : ℕ) → k < n → get_or ptr k 0 ≡ below key k es + count key k es)
      → (k : ℕ) → k ≤ n
      → get_or after k 0 ≡ below key k es
  opened_start ptr after z moved next zero l = z ∙ sym (below-zero key es)
  opened_start ptr after z moved next (suc k) l =
      omega (arith, moved k (omega arith), next k (omega arith), below-suc key k es)

  -- SHIFTCSR after all entries are placed.
  pub shifted-Indexed :
      (ptr : List ℕ) (ind : List A)
      → length ptr ≡ suc n
      → ((k : ℕ) → k < n → get_or ptr k 0 ≡ below key k es + count key k es)
      → ((k : ℕ) → k < n → stretch (below key k es) (count key k es) ind ≡ map g (chosen key k es))
      → (o : Opened n ptr) → Indexed key g n es o.after ind
  shifted-Indexed ptr ind wide next filled o =
      let starts = opened_start ptr o.after o.first o.moved next in
      record {
        width = o.size ∙ wide;
        starts = starts;
        rows = λ k l.
            let size : below key (suc k) es - below key k es ≡ count key k es =
              omega (arith, below-suc key k es) in
            rw (starts k (omega arith), starts (suc k) l, size) (filled k l);
      }

-- The rows of a valid view follow one another.
rising-le :
    {V : Type 0} {nf nr : ℕ} (f : View V) (w : IsView nf nr f) (k d : ℕ)
    → k + d ≤ nf
    → get_or f.ptr k 0 ≤ get_or f.ptr (k + d) 0
rising-le f w k zero h = let e : k + 0 ≡ k = omega arith in rw e (omega arith)
rising-le f w k (suc d) h =
    let e : k + suc d ≡ suc (k + d) = omega arith in
    rw e (omega (arith, rising-le f w k d (omega arith), w.rising (k + d) (omega arith)))

pub ptr-le-end :
    {V : Type 0} {nf nr : ℕ} (f : View V) (w : IsView nf nr f) (k : ℕ)
    → k ≤ nf
    → get_or f.ptr k 0 ≤ get_or f.ptr nf 0
ptr-le-end {nf = nf} f w k h =
    let e : k + (nf - k) ≡ nf = omega arith in rw e at (rising-le f w k (nf - k) (omega arith))

pub length-row : (ind : List ℕ) (i lo n : ℕ) → length (row_entries ind i lo n) ≡ n
length-row ind i lo zero = refl
length-row ind i lo (suc n) = ap suc (length-row ind i (suc lo) n)

pub length-entries :
    {V : Type 0} {nf nr : ℕ} (f : View V) (w : IsView nf nr f) (i n : ℕ)
    → i + n ≡ nf
    → length (entries f.ptr f.ind i n) + get_or f.ptr i 0 ≡ get_or f.ptr nf 0
length-entries {nf = nf} f w i zero e = let e' : i ≡ nf = omega (arith, e) in rw e' (omega arith)
length-entries f w i (suc n) e = omega (
  arith,
  length-append (row_entries f.ind i (get_or f.ptr i 0) (get_or f.ptr (suc i) 0 - get_or f.ptr i 0))
      (entries f.ptr f.ind (suc i) n),
  length-row f.ind i (get_or f.ptr i 0) (get_or f.ptr (suc i) 0 - get_or f.ptr i 0),
  length-entries f w (suc i) n (omega (arith, e)),
  w.rising i (omega (arith, e)),
)

AllBelow-append :
    {E : Type 0} (key : E → ℕ) (n : ℕ) (xs ys : List E)
    → AllBelow key n xs
    → AllBelow key n ys
    → AllBelow key n (xs ++ ys)
AllBelow-append key n [] ys h k = k
AllBelow-append key n (x ∷ xs) ys (l, h) k = (l, AllBelow-append key n xs ys h k)

pub row-AllBelow :
    (ind : List ℕ) (nr total i lo n : ℕ)
    → ((j : ℕ) → j < total → get_or ind j 0 < nr)
    → lo + n ≤ total
    → AllBelow minor_of nr (row_entries ind i lo n)
row-AllBelow ind nr total i lo zero h l = tt
row-AllBelow ind nr total i lo (suc n) h l =
    (h lo (omega arith), row-AllBelow ind nr total i (suc lo) n h (omega arith))

pub entries-AllBelow :
    {V : Type 0} {nf nr : ℕ} (f : View V) (w : IsView nf nr f) (i n : ℕ)
    → i + n ≡ nf
    → AllBelow minor_of nr (entries f.ptr f.ind i n)
entries-AllBelow f w i zero e = tt
entries-AllBelow {nf = nf} {nr = nr} f w i (suc n) e =
    AllBelow-append minor_of nr _ (entries f.ptr f.ind (suc i) n)
      (row-AllBelow f.ind nr (get_or f.ptr nf 0) i (get_or f.ptr i 0)
        (get_or f.ptr (suc i) 0 - get_or f.ptr i 0) w.minors
        (omega
          (arith, ptr-le-end f w (suc i) (omega (arith, e)), ptr-le-end f w i (omega (arith, e)))))
      (entries-AllBelow f w (suc i) n (omega (arith, e)))
