-- ===== src/Sparse/Reverse.antt =====
-- `gk_csr_CreateIndex` of src/csr.c, from a view to its reverse.
use gklib.Base.{
  ℕ, suc, ◌*◌, ◌≤◌, ◌<◌, ◌≡◌, refl, ◌∙◌, inl, inr, Option, none, some, List, [], length, get_elem?,
  get_or, replicate, ltb, if◌then◌else◌, arith, Bool-cases,
}
use gklib.Base.Arrays.{◌>>=◌, get_elem?-get_or}
use gklib.Sparse.{
  View, bump, put, put_both, make_csr, for_entries, place_majors, place_values, place_both,
  in_two_passes, in_one_pass, create_index,
}
use gklib.Sparse.Loops.{Entry, each, entries}
use gklib.Sparse.Counts.{below}
use gklib.Sparse.Pointers.{Opened, shift_csr-Opened}
use gklib.Sparse.Place.{Placed, place_from}
use gklib.Sparse.Place.Both.{both_from}
use gklib.Sparse.Views.{IsView, minor_of, major_of, Indexed, shifted-Indexed}
use gklib.Sparse.Passes.{bare, valued, two_bare, one_bare, two_valued, one_valued}
use gklib.Sparse.Index.{
  all_entries, entry_loop, read_minor, bounded, started, nothing_placed, finished,
}

module _ {V : Type 0} {nf nr : ℕ} (f : View V) (w : IsView nf nr f) where
  place_majors-each :
      (rptr rind : List ℕ)
      → place_majors nf f rptr rind
        ≡ each (λ e s. put (minor_of e) (major_of e) s) (all_entries f w) (rptr, rind)
  unfolding place_majors
  place_majors-each rptr rind =
      entry_loop f w _ _ (rptr, rind) (λ i j s h. rw (read_minor f w j h) refl)

  -- The loop that places the majors.
  pub majors :
      (rptr rind : List ℕ)
      → length rptr ≡ suc nr
      → ((k : ℕ) → k ≤ nr → get_or rptr k 0 ≡ below minor_of k (all_entries f w))
      → length rind ≡ get_or f.ptr nf 0
      → Placed minor_of major_of nr (all_entries f w) [] (all_entries f w) rptr rind
  majors rptr rind wide starts room =
      place_from minor_of major_of nr (all_entries f w) [] (all_entries f w) rptr rind refl
        (bounded f w) (nothing_placed f w major_of rptr rind wide starts room)

module _ {V : Type 0} {nf nr : ℕ} (f : View V) (w : IsView nf nr f) (fval : List V) (d : V)
    (long : get_or f.ptr nf 0 ≤ length fval) where
  abbrev pub value_of : Entry → V
  value_of e = get_or fval e.place d

  read_value : (j : ℕ) → j < get_or f.ptr nf 0 → get_elem? fval j ≡ some (get_or fval j d)
  read_value j h = get_elem?-get_or fval j d (omega (arith, long))

  place_values-each :
      (rptr : List ℕ) (rval : List V)
      → place_values nf f fval rptr rval
        ≡ each (λ e s. put (minor_of e) (value_of e) s) (all_entries f w) (rptr, rval)
  unfolding place_values
  place_values-each rptr rval =
      entry_loop f w _ _ (rptr, rval) (λ i j s h. rw (read_minor f w j h, read_value j h) refl)

  place_both-each :
      (rptr rind : List ℕ) (rval : List V)
      → place_both nf f fval rptr rind rval
        ≡ each
            (λ e s. put_both (minor_of e) (major_of e) (value_of e) s)
            (all_entries f w)
            (rptr, (rind, rval))
  unfolding place_both
  place_both-each rptr rind rval =
      entry_loop f w _ _ (rptr, (rind, rval))
        (λ i j s h. rw (read_minor f w j h, read_value j h) refl)

  -- The loop that places the values.
  values :
      (rptr : List ℕ) (rval : List V)
      → length rptr ≡ suc nr
      → ((k : ℕ) → k ≤ nr → get_or rptr k 0 ≡ below minor_of k (all_entries f w))
      → length rval ≡ get_or f.ptr nf 0
      → Placed minor_of value_of nr (all_entries f w) [] (all_entries f w) rptr rval
  values rptr rval wide starts room =
      place_from minor_of value_of nr (all_entries f w) [] (all_entries f w) rptr rval refl
        (bounded f w) (nothing_placed f w value_of rptr rval wide starts room)

-- The values of the reverse, where the view has any; `d` is never read.
abbrev pub ValuesIndexed :
    {V : Type 0} → V → ℕ → List Entry → List ℕ → Option (List V) → Option (List V) → Type 0
ValuesIndexed d nr es rptr none none = Unit {0}
ValuesIndexed d nr es rptr (some fval) (some rval) =
    Indexed minor_of (λ e. get_or fval e.place d) nr es rptr rval
ValuesIndexed d nr es rptr none (some rval) = ⊥
ValuesIndexed d nr es rptr (some fval) none = ⊥

-- The reverse of a view: row `k` has the row numbers, and the values, of the entries whose index is
-- `k`, each once, in the order of the rows.
pub record Reversed {V : Type 0} (d : V) (nf nr : ℕ) (f r : View V) : Type 0 where
  pub rows : Indexed minor_of major_of nr (entries f.ptr f.ind 0 nf) r.ptr r.ind
  pub values : ValuesIndexed d nr (entries f.ptr f.ind 0 nf) r.ptr f.val r.val

-- A computation that gives the reverse.
abbrev pub Gives : {V : Type 0} → V → ℕ → ℕ → View V → Option (View V) → Type 0
Gives {V} d nf nr f o = (r : View V) × ((o ≡ some r) × Reversed d nf nr f r)

opened : {nr : ℕ} (after : List ℕ) → length after ≡ suc nr → Opened nr after
opened {nr = nr} after h = shift_csr-Opened nr after (omega (arith, h))

module _ {V : Type 0} {nf nr : ℕ} (d : V) (rptr rind : List ℕ) (rval : List V) where
  -- The pointers are made, and the arrays have room.
  record Ready (f : View V) (w : IsView nf nr f) : Type 0 where
    width : length rptr ≡ suc nr
    starts : (k : ℕ) → k ≤ nr → get_or rptr k 0 ≡ below minor_of k (all_entries f w)
    room : length rind ≡ get_or f.ptr nf 0
    room_val : length rval ≡ get_or f.ptr nf 0

  two_passes-Gives :
      (ptr ind : List ℕ) (val : Option (List V))
      (w : IsView nf nr (record { ptr = ptr; ind = ind; val = val }))
      → Ready (record { ptr = ptr; ind = ind; val = val }) w
      → Gives d nf nr
          (record { ptr = ptr; ind = ind; val = val })
          (in_two_passes nf nr (record { ptr = ptr; ind = ind; val = val }) rptr rind rval)
  two_passes-Gives ptr ind none w s =
      let f = bare nf nr ptr ind rptr rind rval in
      let m = majors f w rptr rind s.width s.starts s.room in
      let o = opened m.ptr_after m.filled.width in
      (
        _,
        (
          two_bare nf nr ptr ind rptr rind rval m.ptr_after m.ind_after o.after
              (place_majors-each f w rptr rind ∙ m.run) o.run,
          record { rows = finished f w major_of m.ptr_after m.ind_after m.filled o; values = tt },
        ),
      )
  two_passes-Gives ptr ind (some fval) w s =
      let f = valued nf nr ptr ind rptr rind rval fval in
      let m = majors f w rptr rind s.width s.starts s.room in
      let o = opened m.ptr_after m.filled.width in
      let i = finished f w major_of m.ptr_after m.ind_after m.filled o in
      let v = values f w fval d w.values o.after rval i.width i.starts s.room_val in
      let o' = opened v.ptr_after v.filled.width in
      let i' = finished f w (value_of f w fval d w.values) v.ptr_after v.ind_after v.filled o' in
      (
        _,
        (
          two_valued nf nr ptr ind rptr rind rval fval m.ptr_after m.ind_after o.after v.ptr_after
              v.ind_after o'.after (place_majors-each f w rptr rind ∙ m.run) o.run
              (place_values-each f w fval d w.values o.after rval ∙ v.run) o'.run,
          record {
            rows =
                shifted-Indexed minor_of major_of nr (all_entries f w) v.ptr_after m.ind_after
                  v.filled.width v.filled.next m.filled.rows o';
            values = i';
          },
        ),
      )

  one_pass-Gives :
      (ptr ind : List ℕ) (val : Option (List V))
      (w : IsView nf nr (record { ptr = ptr; ind = ind; val = val }))
      → Ready (record { ptr = ptr; ind = ind; val = val }) w
      → Gives d nf nr
          (record { ptr = ptr; ind = ind; val = val })
          (in_one_pass nf nr (record { ptr = ptr; ind = ind; val = val }) rptr rind rval)
  unfolding majors values
  one_pass-Gives ptr ind none w s =
      let f = bare nf nr ptr ind rptr rind rval in
      let m = majors f w rptr rind s.width s.starts s.room in
      let o = opened m.ptr_after m.filled.width in
      (
        _,
        (
          one_bare nf nr ptr ind rptr rind rval m.ptr_after m.ind_after o.after
              (place_majors-each f w rptr rind ∙ m.run) o.run,
          record { rows = finished f w major_of m.ptr_after m.ind_after m.filled o; values = tt },
        ),
      )
  one_pass-Gives ptr ind (some fval) w s =
      let f = valued nf nr ptr ind rptr rind rval fval in
      let g = value_of f w fval d w.values in
      let m = majors f w rptr rind s.width s.starts s.room in
      let v = values f w fval d w.values rptr rval s.width s.starts s.room_val in
      let o = opened m.ptr_after m.filled.width in
      (
        _,
        (
          one_valued nf nr ptr ind rptr rind rval fval m.ptr_after m.ind_after v.ind_after o.after
              (place_both-each f w fval d w.values rptr rind rval
                ∙ both_from minor_of major_of g nr (all_entries f w) [] (all_entries f w) rptr rind
                    rval refl (bounded f w)
                    (nothing_placed f w major_of rptr rind s.width s.starts s.room)
                    (nothing_placed f w g rptr rval s.width s.starts s.room_val))
              o.run,
          record {
            rows = finished f w major_of m.ptr_after m.ind_after m.filled o;
            values =
                shifted-Indexed minor_of g nr (all_entries f w) m.ptr_after v.ind_after
                  m.filled.width m.filled.next v.filled.rows o;
          },
        ),
      )

create_index-eq :
    {V : Type 0} (nf nr : ℕ) (f : View V) (rind : List ℕ) (rval : List V) (counted rptr : List ℕ)
    (total : ℕ)
    → for_entries nf f.ptr (λ i j p. get_elem? f.ind j >>= (λ k. bump k p)) (replicate (suc nr) 0)
      ≡ some counted
    → make_csr nr counted ≡ some rptr
    → get_elem? rptr nr ≡ some total
    → create_index nf nr f rind rval ≡ (
        if ltb (6 * nr) total
        then in_two_passes nf nr f rptr rind rval
        else in_one_pass nf nr f rptr rind rval)
unfolding create_index
create_index-eq nf nr f rind rval counted rptr total e1 e2 e3 = rw (e1, e2, e3) refl

-- For a valid view, and fresh arrays with room for its entries, `gk_csr_CreateIndex` reads and writes
-- no place outside its arrays and returns the reverse view, whether it places the indices and the
-- values in two passes or in one: its pointers say how many entries have a smaller index, and its row
-- `k` has the row number, and the value if there are values, of each entry whose index is `k`, once,
-- in the order of the rows.
pub create_index-Reversed :
    {V : Type 0} (d : V) (nf nr : ℕ) (f : View V) (rind : List ℕ) (rval : List V)
    (w : IsView nf nr f)
    → length rind ≡ get_or f.ptr nf 0
    → length rval ≡ get_or f.ptr nf 0
    → Gives d nf nr f (create_index nf nr f rind rval)
create_index-Reversed d nf nr f rind rval w room room_val =
    let s = started f w in
    let ready : Ready d s.rptr rind rval f w = record {
      width = s.width;
      starts = s.starts;
      room = room;
      room_val = room_val;
    } in
    let total = get_or s.rptr nr 0 in
    let e =
      create_index-eq nf nr f rind rval s.counted s.rptr total s.count_run s.start_run
        (get_elem?-get_or s.rptr nr 0 (omega (arith, s.width))) in
    elim (Bool-cases (ltb (6 * nr) total)) [
      | inl t ↦ rw (e, t) (two_passes-Gives d s.rptr rind rval f.ptr f.ind f.val w ready)
      | inr t ↦ rw (e, t) (one_pass-Gives d s.rptr rind rval f.ptr f.ind f.val w ready)
    ]
