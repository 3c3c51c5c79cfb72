-- ===== src/Csr/Reverse.antt =====
-- gk_csr_CreateIndex on a side that gk_csr_ValidateSparseView accepts.
use mathlib.Core.Path.{subst}
use gklib.Base.{
  ℕ, zero, suc, ◌≤◌, ◌<◌, ◌≡◌, refl, sym, ap, ◌∙◌, inl, inr, Option, some, List, [], ◌∷◌, map,
  length, get_or, arith,
}
use gklib.Csr.{ℤ, pos, negsuc, Checked, passed, failed, stray, validate_sparse_view}
use gklib.Csr.Valid.{at, Step, InRange, IsSparse, HasRoom}
use gklib.Csr.Verdict.{Decides}
use gklib.Csr.SparseView.{validate_sparse_view-Decides}
use gklib.Sparse.{View, create_index}
use gklib.Sparse.Views.{HasValues, IsView}
use gklib.Sparse.Reverse.{Gives, create_index-Reversed}

-- An integer that is not negative as its number.
abbrev pub natural : ℤ → ℕ
natural (pos a) = a
natural (negsuc a) = 0

abbrev pub naturals : List ℤ → List ℕ
naturals = map natural

get_or-naturals : (a : List ℤ) (k : ℕ) → get_or (naturals a) k 0 ≡ natural (at a k)
get_or-naturals [] k = refl
get_or-naturals (x ∷ a) zero = refl
get_or-naturals (x ∷ a) (suc k) = get_or-naturals a k

length-naturals : (a : List ℤ) → length (naturals a) ≡ length a
length-naturals [] = refl
length-naturals (x ∷ a) = ap suc (length-naturals a)

step_le : (a b : ℤ) → Step a b → natural a ≤ natural b
step_le (pos a) (pos b) s = s
step_le (pos a) (negsuc b) s = absurd s
step_le (negsuc a) b s = absurd s

range_lt : (n : ℕ) (a : ℤ) → InRange n a → natural a < n
range_lt n (pos a) r = r
range_lt n (negsuc a) r = absurd r

-- The side as the view that gk_csr_CreateIndex reads.
abbrev pub view_of : {V : Type 0} → List ℤ → List ℤ → Option (List V) → View V
view_of ptr ind val = record { ptr = naturals ptr; ind = naturals ind; val = val }

-- What a passed check returns, after 0 for one that fails.
abbrev outcome : Checked ℕ → ℕ
outcome (passed n) = suc n
outcome (failed e) = 0
outcome stray = 0

-- A passed check is the check of a valid side.
passed_valid : {P : ℕ → Type 0} (c : Checked ℕ) (n : ℕ) → Decides c P → c ≡ passed n → P n
passed_valid {P} c n (inl (b, (e, p))) h =
    let same : suc n ≡ suc b = ap outcome (sym h ∙ e) in
    let e' : b ≡ n = omega (arith, same) in subst P e' p
passed_valid c n (inr (err, (e, never))) h =
    let clash : suc n ≡ 0 = ap outcome (sym h ∙ e) in absurd (omega (arith, clash))

module _ {V : Type 0} (nf nr : ℕ) (ptr ind : List ℤ) (val : Option (List V)) (n : ℕ)
    (s : IsSparse nf nr ptr (some ind) val n) where
  ends : get_or (naturals ptr) nf 0 ≡ n
  ends = get_or-naturals ptr nf ∙ ap natural s.last

  sparse-IsView :
      length ptr ≡ suc nf → n ≤ length ind → HasValues n val → IsView nf nr (view_of ptr ind val)
  sparse-IsView wide reach filled = record {
    width = length-naturals ptr ∙ wide;
    start = get_or-naturals ptr 0 ∙ ap natural s.first;
    rising = λ k l.
        rw (get_or-naturals ptr k, get_or-naturals ptr (suc k))
          (step_le (at ptr k) (at ptr (suc k)) (s.rising k l));
    ends = rw (ends, length-naturals ind) reach;
    minors = λ j l.
        rw (get_or-naturals ind j) (range_lt nr (at ind j) (s.inside j (omega (arith, l, ends))));
    values = rw (ends) filled;
  }

-- If `gk_csr_ValidateSparseView` accepts one side of a matrix, whose arrays have just the room that
-- its numbers say, then `gk_csr_CreateIndex` with fresh arrays for the counted entries stays inside
-- all arrays and returns the reverse of that side.
pub create_index-validated :
    {V : Type 0} (d : V) (nf nr : ℕ) (ptr ind : List ℤ) (val : Option (List V)) (n : ℕ)
    (rind : List ℕ) (rval : List V)
    → HasRoom nf ptr (some ind)
    → validate_sparse_view nf nr (some ptr) (some ind) val ≡ passed n
    → length ptr ≡ suc nf
    → HasValues n val
    → length rind ≡ n
    → length rval ≡ n
    → Gives d nf nr (view_of ptr ind val) (create_index nf nr (view_of ptr ind val) rind rval)
create_index-validated d nf nr ptr ind val n rind rval room accepted wide filled fresh fresh_val =
    let s =
      passed_valid (validate_sparse_view nf nr (some ptr) (some ind) val) n
        (validate_sparse_view-Decides nf nr ptr (some ind) val room) accepted in
    create_index-Reversed d nf nr (view_of ptr ind val) rind rval
      (sparse-IsView nf nr ptr ind val n s wide (room.1 n s.last) filled)
      (fresh ∙ sym (ends nf nr ptr ind val n s)) (fresh_val ∙ sym (ends nf nr ptr ind val n s))
