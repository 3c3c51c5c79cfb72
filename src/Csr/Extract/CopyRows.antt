-- ===== src/Csr/Extract/CopyRows.antt =====
-- The copies of gk_csr_ExtractSubmatrix.
use gklib.Base.{ℕ, suc, ◌+◌, ◌/◌, ◌≤◌, Option, List, arith}
use gklib.Base.Size.{size_max}
use gklib.Csr.{ℤ, pos}
use gklib.Csr.Extract.{Grants, Rows, copy_rows}
use gklib.Csr.Extract.Copies.{Copies, give-Copies, bind-Copies, part, Covers, copy_if-Copies}

module _ {V : Type 0} (m : Rows V) (rstart nrows first nnz : ℕ) where
  -- The arrays reach as far as the copies.
  pub record CoversRows : Type 0 where
    pub rowptr : Covers (rstart + suc nrows) m.rowptr
    pub rowind : Covers (first + nnz) m.rowind
    pub rowval : Covers (first + nnz) m.rowval
    pub rowids : Covers (rstart + nrows) m.rowids
    pub rlabels : Covers (rstart + nrows) m.rlabels
    pub rmap : Covers (rstart + nrows) m.rmap
    pub rnorms : Covers (rstart + nrows) m.rnorms
    pub rsums : Covers (rstart + nrows) m.rsums
    pub rsizes : Covers (rstart + nrows) m.rsizes
    pub rvols : Covers (rstart + nrows) m.rvols
    pub rwgts : Covers (rstart + nrows) m.rwgts
    pub few : suc nrows ≤ size_max / 8
    pub small : nnz ≤ size_max / 4

  -- A matrix with as many rows, and its arrays.
  abbrev made :
      Option (List ℤ)
      → Option (List ℤ)
      → Option (List V)
      → Option (List ℤ)
      → Option (List ℤ)
      → Option (List ℤ)
      → Option (List V)
      → Option (List V)
      → Option (List V)
      → Option (List V)
      → Option (List V)
      → Rows V
  made rowptr rowind rowval rowids rlabels rmap rnorms rsums rsizes rvols rwgts = record {
    nrows = pos nrows;
    ncols = m.ncols;
    rowptr = rowptr;
    rowind = rowind;
    rowval = rowval;
    rowids = rowids;
    rlabels = rlabels;
    rmap = rmap;
    rnorms = rnorms;
    rsums = rsums;
    rsizes = rsizes;
    rvols = rvols;
    rwgts = rwgts;
  }

  -- The rows that are copied, with the pointers as they stand.
  abbrev pub part_rows : Rows V
  part_rows = record {
    nrows = pos nrows;
    ncols = m.ncols;
    rowptr = part m.rowptr rstart (suc nrows);
    rowind = part m.rowind first nnz;
    rowval = part m.rowval first nnz;
    rowids = part m.rowids rstart nrows;
    rlabels = part m.rlabels rstart nrows;
    rmap = part m.rmap rstart nrows;
    rnorms = part m.rnorms rstart nrows;
    rsums = part m.rsums rstart nrows;
    rsizes = part m.rsizes rstart nrows;
    rvols = part m.rvols rstart nrows;
    rwgts = part m.rwgts rstart nrows;
  }

  pub copy_rows-Copies :
      (grants : Grants)
      → CoversRows
      → Copies grants (copy_rows grants m rstart nrows first nnz) part_rows
  unfolding copy_rows
  copy_rows-Copies grants c =
      let few : nrows ≤ size_max / 4 = omega (arith, c.few) in
      let p1 = part m.rowptr rstart (suc nrows) in
      let p2 = part m.rowind first nnz in
      let p3 = part m.rowval first nnz in
      let p4 = part m.rowids rstart nrows in
      let p5 = part m.rlabels rstart nrows in
      let p6 = part m.rmap rstart nrows in
      let p7 = part m.rnorms rstart nrows in
      let p8 = part m.rsums rstart nrows in
      let p9 = part m.rsizes rstart nrows in
      let p10 = part m.rvols rstart nrows in
      let p11 = part m.rwgts rstart nrows in
      bind-Copies {f = λ x. made x p2 p3 p4 p5 p6 p7 p8 p9 p10 p11} grants _ _
        (copy_if-Copies grants m.rowptr rstart (suc nrows) 8 c.rowptr c.few)
        (λ x1.
          bind-Copies {f = λ x. made x1 x p3 p4 p5 p6 p7 p8 p9 p10 p11} grants _ _
            (copy_if-Copies grants m.rowind first nnz 4 c.rowind c.small)
            (λ x2.
              bind-Copies {f = λ x. made x1 x2 x p4 p5 p6 p7 p8 p9 p10 p11} grants _ _
                (copy_if-Copies grants m.rowval first nnz 4 c.rowval c.small)
                (λ x3.
                  bind-Copies {f = λ x. made x1 x2 x3 x p5 p6 p7 p8 p9 p10 p11} grants _ _
                    (copy_if-Copies grants m.rowids rstart nrows 4 c.rowids few)
                    (λ x4.
                      bind-Copies {f = λ x. made x1 x2 x3 x4 x p6 p7 p8 p9 p10 p11} grants _ _
                        (copy_if-Copies grants m.rlabels rstart nrows 4 c.rlabels few)
                        (λ x5.
                          bind-Copies {f = λ x. made x1 x2 x3 x4 x5 x p7 p8 p9 p10 p11} grants _ _
                            (copy_if-Copies grants m.rmap rstart nrows 4 c.rmap few)
                            (λ x6.
                              bind-Copies {f = λ x. made x1 x2 x3 x4 x5 x6 x p8 p9 p10 p11} grants _
                                _ (copy_if-Copies grants m.rnorms rstart nrows 4 c.rnorms few)
                                (λ x7.
                                  bind-Copies {f = λ x. made x1 x2 x3 x4 x5 x6 x7 x p9 p10 p11}
                                    grants _ _
                                    (copy_if-Copies grants m.rsums rstart nrows 4 c.rsums few)
                                    (λ x8.
                                      bind-Copies {f = λ x. made x1 x2 x3 x4 x5 x6 x7 x8 x p10 p11}
                                        grants _ _
                                        (copy_if-Copies grants m.rsizes rstart nrows 4 c.rsizes few)
                                        (λ x9.
                                          bind-Copies
                                            {f = λ x. made x1 x2 x3 x4 x5 x6 x7 x8 x9 x p11} grants
                                            _ _
                                            (copy_if-Copies grants m.rvols rstart nrows 4 c.rvols
                                              few)
                                            (λ x10.
                                              bind-Copies
                                                {f = λ x. made x1 x2 x3 x4 x5 x6 x7 x8 x9 x10 x}
                                                grants _ _
                                                (copy_if-Copies grants m.rwgts rstart nrows 4
                                                  c.rwgts few)
                                                (λ x11. give-Copies grants (
                                                  made x1 x2 x3 x4 x5 x6 x7 x8 x9 x10
                                                    x11))))))))))))
