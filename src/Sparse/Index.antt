-- ===== src/Sparse/Index.antt =====
-- The stages of `gk_csr_CreateIndex` on a valid view.
use gklib.Base.{
  ℕ, zero, suc, ◌≤◌, ◌<◌, ◌≡◌, refl, sym, ◌∙◌, Option, some, List, [], ◌∷◌, length, get_elem?,
  get_or, replicate, arith, length-replicate, get_or-replicate,
}
use gklib.Base.Arrays.{◌>>=◌, get_elem?-get_or}
use gklib.Sparse.{View, bump, make_csr, for_entries}
use gklib.Sparse.Loops.{Entry, each, entries, Reads, for_entries-each}
use gklib.Sparse.Counts.{count, below, AllBelow, below-zero, below-suc}
use gklib.Sparse.Pointers.{bumps-Counted, Opened}
use gklib.Sparse.Starts.{sum_below, make_csr-Made}
use gklib.Sparse.Place.{Filled}
use gklib.Sparse.Views.{
  IsView, minor_of, Indexed, shifted-Indexed, ptr-le-end, length-entries, entries-AllBelow,
}

-- The sums of the counts.
pub sum_below-below :
    {E : Type 0} (key : E → ℕ) (es : List E) (k : ℕ)
    → sum_below (λ j. count key j es) k ≡ below key k es
sum_below-below key es zero = sym (below-zero key es)
sum_below-below key es (suc k) = omega (arith, sum_below-below key es k, below-suc key k es)

pub AllBelow-mono :
    (a b : ℕ) (es : List Entry) → a ≤ b → AllBelow minor_of a es → AllBelow minor_of b es
AllBelow-mono a b [] h l = tt
AllBelow-mono a b (e ∷ es) h (l, ls) = (omega arith, AllBelow-mono a b es h ls)

module _ {V : Type 0} {nf nr : ℕ} (f : View V) (w : IsView nf nr f) where
  abbrev pub all_entries : List Entry
  all_entries = entries f.ptr f.ind 0 nf

  low : (k : ℕ) → k ≤ nf → get_or f.ptr k 0 ≤ get_or f.ptr nf 0
  low k h = ptr-le-end f w k h

  -- A loop over the entries whose body reads what the entry holds.
  pub entry_loop :
      {S : Type 0} (body : ℕ → ℕ → S → Option S) (g : Entry → S → Option S) (s : S)
      → Reads (get_or f.ptr nf 0) f.ind body g
      → for_entries nf f.ptr body s ≡ each g all_entries s
  entry_loop body g s reads =
      for_entries-each (get_or f.ptr nf 0) f.ind body g reads f.ptr nf s (omega (arith, w.width))
        low

  pub read_minor : (j : ℕ) → j < get_or f.ptr nf 0 → get_elem? f.ind j ≡ some (get_or f.ind j 0)
  read_minor j h = get_elem?-get_or f.ind j 0 (omega (arith, w.ends))

  pub size : length all_entries ≡ get_or f.ptr nf 0
  size = omega (arith, length-entries f w 0 nf (omega arith), w.start)

  pub bounded : AllBelow minor_of nr all_entries
  bounded = entries-AllBelow f w 0 nf (omega arith)

  -- The pointers after counting and MAKECSR.
  pub record Started : Type 0 where
    pub counted : List ℕ
    pub rptr : List ℕ
    pub count_run :
        for_entries nf f.ptr (λ i j p. get_elem? f.ind j >>= (λ k. bump k p)) (replicate (suc nr) 0)
        ≡ some counted
    pub start_run : make_csr nr counted ≡ some rptr
    pub width : length rptr ≡ suc nr
    pub starts : (k : ℕ) → k ≤ nr → get_or rptr k 0 ≡ below minor_of k all_entries

  pub started : Started
  started =
      let zeros : List ℕ = replicate (suc nr) 0 in
      let wide : length zeros ≡ suc nr = length-replicate (suc nr) 0 in
      let c =
        bumps-Counted minor_of all_entries zeros
          (rw wide (AllBelow-mono nr (suc nr) all_entries (omega arith) bounded)) in
      let m =
        make_csr-Made (λ k. count minor_of k all_entries) nr c.after (omega (arith, c.size, wide))
          (λ k l. omega (arith, c.at k, get_or-replicate {A = ℕ} (suc nr) k 0)) in
      record {
        counted = c.after;
        rptr = m.after;
        count_run =
            entry_loop _ (λ e p. bump (minor_of e) p) zeros (λ i j p h. rw (read_minor j h) refl)
            ∙ c.run;
        start_run = m.run;
        width = m.size ∙ c.size ∙ wide;
        starts = λ k l. m.at k l ∙ sum_below-below minor_of all_entries k;
      }

  -- No entry is placed before the loops that place.
  pub nothing_placed :
      {A : Type 0} (g : Entry → A) (rptr : List ℕ) (ind : List A)
      → length rptr ≡ suc nr
      → ((k : ℕ) → k ≤ nr → get_or rptr k 0 ≡ below minor_of k all_entries)
      → length ind ≡ get_or f.ptr nf 0
      → Filled minor_of g nr all_entries [] rptr ind
  nothing_placed g rptr ind wide starts room = record {
    width = wide;
    room = omega (arith, room, size);
    next = λ k l. omega (arith, starts k (omega arith));
    rows = λ k l. refl;
  }

  -- An array that is placed, and its pointers after SHIFTCSR.
  pub finished :
      {A : Type 0} (g : Entry → A) (rptr : List ℕ) (ind : List A)
      → Filled minor_of g nr all_entries all_entries rptr ind
      → (o : Opened nr rptr) → Indexed minor_of g nr all_entries o.after ind
  finished g rptr ind filled o =
      shifted-Indexed minor_of g nr all_entries rptr ind filled.width filled.next filled.rows o
