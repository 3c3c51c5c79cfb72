-- ===== src/Sparse/Loops.antt =====
-- The loops over the entries of a view as loops over a list of entries.
use gklib.Base.{
  ℕ, zero, suc, ◌+◌, ◌-◌, ◌≤◌, ◌<◌, ◌≡◌, refl, sym, ap, ◌∙◌, Option, none, some, List, [], ◌∷◌,
  ◌++◌, length, get_elem?, get_or, arith,
}
use gklib.Base.Arrays.{◌>>=◌, get_elem?-get_or}
use gklib.Sparse.{for_range, for_entries}

-- An entry of a view: its place in the arrays, its own row and the number that stands there.
pub record Entry : Type 0 where
  pub minor : ℕ
  pub major : ℕ
  pub place : ℕ

pub bind_cong :
    {A B : Type 0} (o : Option A) (f g : A → Option B)
    → ((a : A) → f a ≡ g a)
    → (o >>= f) ≡ (o >>= g)
bind_cong none f g h = refl
bind_cong (some a) f g h = h a

>>=-assoc :
    {A B C : Type 0} (o : Option A) (f : A → Option B) (g : B → Option C)
    → (o >>= f >>= g) ≡ (o >>= λ a. f a >>= g)
>>=-assoc none f g = refl
>>=-assoc (some a) f g = refl

module _ {E S : Type 0} (f : E → S → Option S) where
  abbrev pub each : List E → S → Option S
  each [] s = some s
  each (e ∷ es) s = f e s >>= each es

  pub each-append : (xs ys : List E) (s : S) → each (xs ++ ys) s ≡ (each xs s >>= each ys)
  each-append [] ys s = refl
  each-append (x ∷ xs) ys s =
      bind_cong (f x s) _ _ (λ s'. each-append xs ys s')
      ∙ sym (>>=-assoc (f x s) (each xs) (each ys))

abbrev pub entry : List ℕ → ℕ → ℕ → Entry
entry ind i j = record { minor = get_or ind j 0; major = i; place = j }

-- The entries of a row, and of a view.
abbrev pub row_entries : List ℕ → ℕ → ℕ → ℕ → List Entry
row_entries ind i lo zero = []
row_entries ind i lo (suc n) = entry ind i lo ∷ row_entries ind i (suc lo) n

abbrev pub entries : List ℕ → List ℕ → ℕ → ℕ → List Entry
entries ptr ind i zero = []
entries ptr ind i (suc n) =
    row_entries ind i (get_or ptr i 0) (get_or ptr (suc i) 0 - get_or ptr i 0)
    ++ entries ptr ind (suc i) n

-- The reads of a body are the entry's.
abbrev pub Reads :
    {S : Type 0} → ℕ → List ℕ → (ℕ → ℕ → S → Option S) → (Entry → S → Option S) → Type 0
Reads {S} total ind body f = (i j : ℕ) (s : S) → j < total → body i j s ≡ f (entry ind i j) s

pub for_range-zero :
    {S : Type 0} (i : ℕ) (body : ℕ → S → Option S) (s : S) → for_range zero i body s ≡ some s
unfolding for_range
for_range-zero i body s = refl

pub for_range-suc :
    {S : Type 0} (n i : ℕ) (body : ℕ → S → Option S) (s : S)
    → for_range (suc n) i body s ≡ (body i s >>= λ s'. for_range n (suc i) body s')
unfolding for_range
for_range-suc n i body s = refl

module _ {S : Type 0} (total : ℕ) (ind : List ℕ) (body : ℕ → ℕ → S → Option S)
    (f : Entry → S → Option S) (reads : Reads total ind body f) where
  pub row-each :
      (i lo n : ℕ) (s : S)
      → lo + n ≤ total
      → for_range n lo (body i) s ≡ each f (row_entries ind i lo n) s
  row-each i lo zero s h = for_range-zero lo (body i) s
  row-each i lo (suc n) s h =
      for_range-suc n lo (body i) s
      ∙ ap (λ o. o >>= λ s'. for_range n (suc lo) (body i) s') (reads i lo s (omega arith))
      ∙ bind_cong (f (entry ind i lo) s) _ _ (λ s'. row-each i (suc lo) n s' (omega arith))

  -- The body of the outer loop.
  abbrev pub row_body : List ℕ → ℕ → S → Option S
  row_body ptr i s = do
    lo ← get_elem? ptr i
    hi ← get_elem? ptr (suc i)
    for_range (hi - lo) lo (body i) s

  row_body-each :
      (ptr : List ℕ) (i : ℕ) (s : S)
      → suc i < length ptr
      → get_or ptr i 0 ≤ total
      → get_or ptr (suc i) 0 ≤ total
      → row_body ptr i s
        ≡ each f (row_entries ind i (get_or ptr i 0) (get_or ptr (suc i) 0 - get_or ptr i 0)) s
  row_body-each ptr i s h a b =
      rw (get_elem?-get_or ptr i 0 (omega arith), get_elem?-get_or ptr (suc i) 0 h)
        (row-each i (get_or ptr i 0) (get_or ptr (suc i) 0 - get_or ptr i 0) s (omega arith))

  rows-each :
      (ptr : List ℕ) (i n : ℕ) (s : S)
      → i + n < length ptr
      → ((k : ℕ) → k ≤ i + n → get_or ptr k 0 ≤ total)
      → for_range n i (row_body ptr) s ≡ each f (entries ptr ind i n) s
  rows-each ptr i zero s h low = for_range-zero i (row_body ptr) s
  rows-each ptr i (suc n) s h low =
      let row = row_entries ind i (get_or ptr i 0) (get_or ptr (suc i) 0 - get_or ptr i 0) in
      for_range-suc n i (row_body ptr) s
      ∙ ap (λ o. o >>= λ s'. for_range n (suc i) (row_body ptr) s')
          (row_body-each ptr i s (omega arith) (low i (omega arith)) (low (suc i) (omega arith)))
      ∙ bind_cong (each f row s) _ _
          (λ s'. rows-each ptr (suc i) n s' (omega arith) (λ k l. low k (omega arith)))
      ∙ sym (each-append f row (entries ptr ind (suc i) n) s)

  pub for_entries-each :
      (ptr : List ℕ) (nf : ℕ) (s : S)
      → nf < length ptr
      → ((k : ℕ) → k ≤ nf → get_or ptr k 0 ≤ total)
      → for_entries nf ptr body s ≡ each f (entries ptr ind 0 nf) s
  unfolding for_entries
  for_entries-each ptr nf s h low = rows-each ptr 0 nf s (omega arith) (λ k l. low k (omega arith))
