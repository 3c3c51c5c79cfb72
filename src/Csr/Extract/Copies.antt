-- ===== src/Csr/Extract/Copies.antt =====
-- Sequences of copies, with the flag that a refused allocation sets.
use gklib.Base.{
  ℕ, ◌+◌, ◌*◌, ◌/◌, ◌≤◌, ◌≡◌, refl, sym, ap, ◌∙◌, ◌⊎◌, inl, inr, true, false, Option, none, some,
  List, length, arith, Bool-cases, Option-cases, num, ltb, leb, take, drop,
}
use gklib.Base.Outcome.{Errno}
use gklib.Base.Size.{size_max}
use gklib.Csr.Extract.{
  Alloc, Run, and_run, ◌>>=◌, give, Grants, malloc_no_signal, slice, copy_no_signal, copy_if,
}

pub true-false : true ≡ false → ⊥
true-false e = let h : 1 ≡ 0 = ap num e in omega (arith, h)

-- Some call of the allocator is refused.
abbrev pub Refused : Grants → Type 0
Refused grants = (n : ℕ) × ((b : ℕ) × ((e : Errno) × (grants n b ≡ some e)))

-- What the flag at the end of a computation says, where `a` is what it copies: if it is not set, it
-- was not set before and the result is `a`; if it is, it was set before or a call was refused.
abbrev pub Flagged : {A : Type 0} → Grants → Alloc → Alloc → A → A → Type 0
Flagged grants s s' x a =
    (s'.gave_up ≡ false → (s.gave_up ≡ false) × (x ≡ a))
    × (s'.gave_up ≡ true → (s.gave_up ≡ true) ⊎ Refused grants)

-- The computation ends in any state.
abbrev pub Copies : {A : Type 0} → Grants → Run A → A → Type 0
Copies {A} grants m a =
    (s : Alloc) → (r : Alloc × A) × ((m s ≡ some r) × Flagged grants s r.0 r.1 a)

pub give-Copies : {A : Type 0} (grants : Grants) (a : A) → Copies grants (give a) a
give-Copies grants a s = ((s, a), (refl, ((λ h. (h, refl)), λ h. inl h)))

bind_step :
    {A B : Type 0} (m : Run A) (k : A → Run B) (s : Alloc) (r : Alloc × A)
    → m s ≡ some r
    → (m >>= k) s ≡ k r.1 r.0
bind_step m k s r e = ap (λ o. and_run o k) e

pub bind-Copies :
    {A B : Type 0} {f : A → B} {a : A} (grants : Grants) (m : Run A) (k : A → Run B)
    → Copies grants m a
    → ((x : A) → Copies grants (k x) (f x))
    → Copies grants (m >>= k) (f a)
bind-Copies {f = f} grants m k c d s =
    let r = c s in
    let q = d r.0.1 r.0.0 in
    (
      q.0,
      (
        bind_step m k s r.0 r.1.0 ∙ q.1.0,
        (
          (λ h.
              let before = q.1.1.0 h in
              let first = r.1.1.0 before.0 in (first.0, before.1 ∙ ap f first.1)),
          λ h. elim (q.1.1.1 h) [ inl t ↦ r.1.1.1 t | inr refused ↦ inr refused ],
        ),
      ),
    )

-- A flag that was not set before: a call is refused.
pub Refused-by :
    (grants : Grants) (s : Alloc)
    → s.gave_up ≡ false
    → (s.gave_up ≡ true) ⊎ Refused grants
    → Refused grants
Refused-by grants s clear (inl t) = absurd (true-false (sym t ∙ clear))
Refused-by grants s clear (inr refused) = refused

-- The flag after `gk_csr_MallocNoSignal`.
pub malloc_no_signal-Flagged :
    (grants : Grants) (bytes : ℕ) (s : Alloc)
    → ((malloc_no_signal grants bytes s).1 ≡ true
        → (malloc_no_signal grants bytes s).0.gave_up ≡ s.gave_up)
      × ((malloc_no_signal grants bytes s).1 ≡ false
          → ((malloc_no_signal grants bytes s).0.gave_up ≡ true)
            × ((s.gave_up ≡ true) ⊎ Refused grants))
unfolding malloc_no_signal
malloc_no_signal-Flagged grants bytes s = elim (Bool-cases s.gave_up) [
  | inl t ↦ rw t ((λ h. refl), λ h. (refl, inl refl))
  | inr t ↦ elim (Option-cases (grants s.calls bytes)) [
    | inl g ↦ rw (t, g) ((λ h. t), λ h. absurd (true-false h))
    | inr (e, g) ↦
        rw (t, g) ((λ h. absurd (true-false (sym h))), λ h. (refl, inr (s.calls, (bytes, (e, g)))))
  ]
]

length_fits :
    {A : Type 0} (a : List A) (from count : ℕ)
    → from + count ≤ length a
    → slice a from count ≡ some (take count (drop from a))
length_fits a from count h =
    let e : leb (from + count) (length a) ≡ true = ground (arith, h) in rw e refl

-- A copy that stays inside its array and does not overflow.
copy_no_signal-Copies :
    {A : Type 0} (grants : Grants) (a : List A) (from count size : ℕ)
    → from + count ≤ length a
    → count ≤ size_max / size
    → Copies grants (copy_no_signal grants a from count size) (some (take count (drop from a)))
unfolding copy_no_signal
copy_no_signal-Copies grants a from count size h l s =
    let e : ltb (size_max / size) count ≡ false = ground (arith, l) in
    let r = malloc_no_signal grants (count * size) s in
    let flag = malloc_no_signal-Flagged grants (count * size) s in
    rw (e, length_fits a from count h)
      (elim (Bool-cases r.1) [
        | inl t ↦ (
          (r.0, some (take count (drop from a))),
          (rw t refl, ((λ g. (sym (flag.0 t) ∙ g, refl)), λ g. inl (sym (flag.0 t) ∙ g))),
        )
        | inr t ↦
            let lost = flag.1 t in
            ((r.0, none), (rw t refl, ((λ g. absurd (true-false (sym lost.0 ∙ g))), λ g. lost.1)))
      ])

-- An array that may be null, from `from` on.
abbrev pub part : {A : Type 0} → Option (List A) → ℕ → ℕ → Option (List A)
part none from count = none
part (some a) from count = some (take count (drop from a))

abbrev pub Covers : {A : Type 0} → ℕ → Option (List A) → Type 0
Covers n none = Unit {0}
Covers n (some a) = n ≤ length a

pub copy_if-Copies :
    {A : Type 0} (grants : Grants) (a : Option (List A)) (from count size : ℕ)
    → Covers (from + count) a
    → count ≤ size_max / size
    → Copies grants (copy_if grants a from count size) (part a from count)
unfolding copy_if
copy_if-Copies grants none from count size h l = give-Copies grants none
copy_if-Copies grants (some a) from count size h l =
    copy_no_signal-Copies grants a from count size h l
