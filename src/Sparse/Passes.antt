-- ===== src/Sparse/Passes.antt =====
-- What the two branches of `gk_csr_CreateIndex` return, with and without values.
use gklib.Base.{ℕ, ◌≡◌, refl, none, some, List}
use gklib.Sparse.{
  View, shift_csr, place_majors, place_values, place_both, in_two_passes, in_one_pass,
}

module _ {V : Type 0} (nf nr : ℕ) (ptr ind : List ℕ) (rptr rind : List ℕ) (rval : List V) where
  -- The forward view, without and with values.
  abbrev pub bare : View V
  bare = record { ptr = ptr; ind = ind; val = none }

  abbrev pub valued : List V → View V
  valued fval = record { ptr = ptr; ind = ind; val = some fval }

  pub two_bare :
      (ends rind' p : List ℕ)
      → place_majors nf bare rptr rind ≡ some (ends, rind')
      → shift_csr nr ends ≡ some p
      → in_two_passes nf nr bare rptr rind rval ≡ some (record { ptr = p; ind = rind'; val = none })
  unfolding in_two_passes
  two_bare ends rind' p e1 e2 = rw (e1, e2) refl

  pub one_bare :
      (ends rind' p : List ℕ)
      → place_majors nf bare rptr rind ≡ some (ends, rind')
      → shift_csr nr ends ≡ some p
      → in_one_pass nf nr bare rptr rind rval ≡ some (record { ptr = p; ind = rind'; val = none })
  unfolding in_one_pass
  one_bare ends rind' p e1 e2 = rw (e1, e2) refl

  pub two_valued :
      (fval : List V) (ends rind' p ends' : List ℕ) (rval' : List V) (p' : List ℕ)
      → place_majors nf (valued fval) rptr rind ≡ some (ends, rind')
      → shift_csr nr ends ≡ some p
      → place_values nf (valued fval) fval p rval ≡ some (ends', rval')
      → shift_csr nr ends' ≡ some p'
      → in_two_passes nf nr (valued fval) rptr rind rval
        ≡ some (record { ptr = p'; ind = rind'; val = some rval' })
  unfolding in_two_passes
  two_valued fval ends rind' p ends' rval' p' e1 e2 e3 e4 = rw (e1, e2, e3, e4) refl

  pub one_valued :
      (fval : List V) (ends rind' : List ℕ) (rval' : List V) (p : List ℕ)
      → place_both nf (valued fval) fval rptr rind rval ≡ some (ends, (rind', rval'))
      → shift_csr nr ends ≡ some p
      → in_one_pass nf nr (valued fval) rptr rind rval
        ≡ some (record { ptr = p; ind = rind'; val = some rval' })
  unfolding in_one_pass
  one_valued fval ends rind' rval' p e1 e2 = rw (e1, e2) refl
