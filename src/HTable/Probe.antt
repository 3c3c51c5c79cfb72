-- ===== src/HTable/Probe.antt =====
-- The two loops of a probe, as a walk along the turned array.
use mathlib.Core.Path.{subst}
use gklib.Base.{
  ℕ, suc, ◌-◌, ◌≤◌, ◌≡◌, refl, sym, ap, ◌∙◌, Option, none, some, List, [], ◌∷◌, ◌++◌, arith, length,
  take, drop, length-append, length-take, length-drop, take-append-drop, take-append, drop-append,
  get_elem?-append, set-append, set,
}
use mathlib.Core.List.{append_assoc, append-nil}
use gklib.Base.Outcome.{Outcome, ok, raised, Signal, Errno}
use gklib.HTable.{Ikv, Step, next, ret, store, stop, scan, then_loop, probe}
use gklib.HTable.Scan.{rotate, length-Put, First, First-Put, Passed}

-- How a walk along `l` ends, where `wrap` gives the whole array from the part that is walked.
pub data Scanned (body : Ikv → Step) (l : List Ikv) (wrap : List Ikv → List Ikv)
    : Outcome (List Ikv) (Option ℕ) → Type 0 where
  missed : {a : List Ikv} → Passed body l → a ≡ wrap l → Scanned body l wrap (ok none a)
  returned :
      {a : List Ikv} (e : Ikv) (r : ℕ)
      → body e ≡ ret r
      → First body e e l l
      → a ≡ wrap l
      → Scanned body l wrap (ok (some r) a)
  stored :
      {a : List Ikv} (e e' : Ikv) (r : ℕ) (m : List Ikv)
      → body e ≡ store e' r
      → First body e e' l m
      → a ≡ wrap m
      → Scanned body l wrap (ok (some r) a)
  stopped :
      {a : List Ikv} (e : Ikv) (s : Signal) (n : Errno)
      → body e ≡ stop s n
      → First body e e l l
      → a ≡ wrap l
      → Scanned body l wrap (raised s n a)

module _ (body : Ikv → Step) where
  Scanned-next :
      {e : Ikv} {l : List Ikv} {wrap wrap' : List Ikv → List Ikv}
      {o : Outcome (List Ikv) (Option ℕ)}
      → body e ≡ next
      → ((m : List Ikv) → wrap m ≡ wrap' (e ∷ m))
      → Scanned body l wrap o
      → Scanned body (e ∷ l) wrap' o
  Scanned-next {l = l} h w (missed p q) = missed (h, p) (q ∙ w l)
  Scanned-next {l = l} h w (returned x r b f q) = returned x r b (First.there _ h f) (q ∙ w l)
  Scanned-next h w (stored x y r m b f q) = stored x y r (_ ∷ m) b (First.there _ h f) (q ∙ w m)
  Scanned-next {l = l} h w (stopped x s n b f q) = stopped x s n b (First.there _ h f) (q ∙ w l)

  abbrev inside : List Ikv → List Ikv → List Ikv → List Ikv
  inside p s m = p ++ (m ++ s)

  inside-next : (p s m : List Ikv) (e : Ikv) → inside (p ++ e ∷ []) s m ≡ inside p s (e ∷ m)
  inside-next p s m e = append_assoc p (e ∷ []) (m ++ s)

  scan-Scanned :
      (l p s a : List Ikv) (i : ℕ)
      → i ≡ length p
      → a ≡ inside p s l
      → Scanned body l (inside p s) (scan body (length l) i a)
  unfolding scan
  scan-Scanned [] p s a i ei ea = missed tt ea
  scan-Scanned (e ∷ l) p s a i ei ea =
      let rest : body e ≡ next
          → Scanned body (e ∷ l) (inside p s) (scan body (length l) (suc i) a) =
        λ h.
          Scanned-next h (λ m. inside-next p s m e)
            (scan-Scanned l (p ++ e ∷ []) s a (suc i) (omega (arith, length-append p (e ∷ [])))
              (ea ∙ sym (inside-next p s l e))) in
      let here = rw (← ea) at (get_elem?-append p (l ++ s) e i ei) in
      rw (here, scan) (act (body e) refl rest)
    where
      act :
          (b : Step)
          → body e ≡ b
          → (body e ≡ next → Scanned body (e ∷ l) (inside p s) (scan body (length l) (suc i) a))
          → Scanned body (e ∷ l) (inside p s) (elim b [
            | next ↦ scan body (length l) (suc i) a
            | ret r ↦ ok (some r) a
            | store e' r ↦ ok (some r) (set a i e')
            | stop x n ↦ raised x n a
          ])
      act next h rest = rest h
      act (ret r) h rest = returned e r h (First.here l) ea
      act (store e' r) h rest =
          stored e e' r (e' ∷ l) h (First.here l) (rw ea (set-append p (l ++ s) e e' i ei))
      act (stop x n) h rest = stopped e x n h (First.here l) ea

First-append :
    {body : Ikv → Step} {e e' : Ikv} {l m : List Ikv} (s : List Ikv)
    → First body e e' l m
    → First body e e' (l ++ s) (m ++ s)
First-append s (First.here l) = First.here (l ++ s)
First-append s (First.there z h f) = First.there z h (First-append s f)

module _ (body : Ikv → Step) where
  Scanned-Passed :
      (l s : List Ikv) {wrap w : List Ikv → List Ikv} {o : Outcome (List Ikv) (Option ℕ)}
      → Passed body l
      → ((m : List Ikv) → w m ≡ wrap (l ++ m))
      → Scanned body s w o
      → Scanned body (l ++ s) wrap o
  Scanned-Passed [] s p h (missed q e) = missed q (e ∙ h s)
  Scanned-Passed [] s p h (returned x r b f q) = returned x r b f (q ∙ h s)
  Scanned-Passed [] s p h (stored x y r m b f q) = stored x y r m b f (q ∙ h m)
  Scanned-Passed [] s p h (stopped x t n b f q) = stopped x t n b f (q ∙ h s)
  Scanned-Passed (e ∷ l) s {wrap = wrap} p h c =
      Scanned-next body {wrap = λ m. wrap (e ∷ m)} p.0 (λ m. refl) (Scanned-Passed l s p.1 h c)

  -- A walk along `l ++ s` from the loops over `l` and `s`.
  Scanned-then :
      (l s : List Ikv) (loop : List Ikv → Outcome (List Ikv) (Option ℕ))
      {wrap w₁ w₂ : List Ikv → List Ikv} {o : Outcome (List Ikv) (Option ℕ)}
      → ((m : List Ikv) → length m ≡ length l → w₁ m ≡ wrap (m ++ s))
      → ((m : List Ikv) → w₂ m ≡ wrap (l ++ m))
      → Scanned body l w₁ o
      → Scanned body s w₂ (loop (w₁ l))
      → Scanned body (l ++ s) wrap (then_loop o loop)
  Scanned-then l s loop h₁ h₂ (missed p q) second = rw q (Scanned-Passed l s p h₂ second)
  Scanned-then l s loop h₁ h₂ (returned e r b f q) second =
      returned e r b (First-append s f) (q ∙ h₁ l refl)
  Scanned-then l s loop h₁ h₂ (stored e e' r m b f q) second =
      stored e e' r (m ++ s) b (First-append s f) (q ∙ h₁ m (length-Put (First-Put f)))
  Scanned-then l s loop h₁ h₂ (stopped e x n b f q) second =
      stopped e x n b (First-append s f) (q ∙ h₁ l refl)

  -- The probe that starts at `first` walks the array from there on, round to its start.
  pub probe-Scanned :
      (first n : ℕ) (a : List Ikv)
      → n ≡ length a
      → first ≤ n
      → Scanned body (rotate first a) (rotate (n - first)) (probe body first n a)
  unfolding probe
  probe-Scanned first n a en h =
      let A = take first a in
      let B = drop first a in
      let whole : A ++ B ≡ a = take-append-drop first a in
      let lA : first ≡ length A = omega (arith, length-take first a) in
      let lB : n - first ≡ length B = omega (arith, length-drop first a) in
      let one : Scanned body B (inside body A []) (scan body (n - first) first a) = rw lB (
        scan-Scanned body B A [] a first lA
          (sym whole ∙ ap (λ (l : List Ikv). A ++ l) (sym (append-nil B)))) in
      let two : Scanned body A (inside body [] B) (scan body first 0 (inside body A [] B)) =
        subst (λ (k : ℕ). Scanned body A (inside body [] B) (scan body k 0 (inside body A [] B)))
          (sym lA)
          (scan-Scanned body A [] B _ 0 refl (ap (λ (l : List Ikv). A ++ l) (append-nil B))) in
      let turned : (m s : List Ikv) → n - first ≡ length m → rotate (n - first) (m ++ s) ≡ s ++ m =
        λ m s e. rw (e, drop-append, take-append) in
      Scanned-then B A (scan body first 0)
        (λ m e. ap (λ (l : List Ikv). A ++ l) (append-nil m) ∙ sym (turned m A (lB ∙ sym e)))
        (λ m. sym (turned B m lB)) one two
