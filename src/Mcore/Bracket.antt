-- ===== src/Mcore/Bracket.antt =====
-- `gk_mcorePush` and `gk_mcorePop` around the calls of a frame.
use gklib.Base.{◌≤◌, ◌≡◌, refl, inl, inr, List, [], ◌∷◌, length, arith, Bool-cases}
use gklib.Mcore.{
  MopType, mopt_mark, mopt_core, mopt_heap, mopt_other, Mop, Mcore, Heap, can_add, add, push,
  ensure_capacity,
}
use gklib.Mcore.State.{
  core_bytes, heap_bytes, AllSit, Framed, Known, IsMcore, Ends, and_then-Ends, ensure_capacity-Ends,
  add_reserved-room, regrown-IsMcore, mark_mop, mark-IsMcore,
}
use gklib.Mcore.Malloc.{Refused}
use gklib.Mcore.Frames.{unframe_at, unframe, popped}

-- What the records below the last mark inherit.
record Kept (ms rest : List Mop) : Type 0 where
  seated : AllSit (core_bytes rest) rest
  framed : Framed rest
  known : Known rest
  less_core : core_bytes rest ≤ core_bytes ms
  less_heap : heap_bytes rest ≤ heap_bytes ms
  shorter : length rest ≤ length ms

Kept-at :
    (m : Mop) (kind : MopType) (ms : List Mop)
    → m.kind ≡ kind
    → Framed (m ∷ ms)
    → Known ms
    → Kept ms (unframe ms)
    → Kept (m ∷ ms) (unframe_at kind ms (unframe ms))
Kept-at m mopt_mark ms e (f, fs) k r = record {
  seated = f e;
  framed = fs;
  known = k;
  less_core = omega arith;
  less_heap = omega arith;
  shorter = omega arith;
}
Kept-at m mopt_core ms e f k r = record {
  seated = r.seated;
  framed = r.framed;
  known = r.known;
  less_core = omega (arith, r.less_core);
  less_heap = omega (arith, r.less_heap);
  shorter = omega (arith, r.shorter);
}
Kept-at m mopt_heap ms e f k r = record {
  seated = r.seated;
  framed = r.framed;
  known = r.known;
  less_core = omega (arith, r.less_core);
  less_heap = omega (arith, r.less_heap);
  shorter = omega (arith, r.shorter);
}
Kept-at m mopt_other ms e f k r = record {
  seated = r.seated;
  framed = r.framed;
  known = r.known;
  less_core = omega (arith, r.less_core);
  less_heap = omega (arith, r.less_heap);
  shorter = omega (arith, r.shorter);
}

unframe-Kept : (ms : List Mop) → Framed ms → Known ms → Kept ms (unframe ms)
unframe-Kept [] f k = record {
  seated = tt;
  framed = tt;
  known = tt;
  less_core = omega arith;
  less_heap = omega arith;
  shorter = omega arith;
}
unframe-Kept (m ∷ ms) f k = Kept-at m m.kind ms refl f k.1 (unframe-Kept ms f.1 k.1)

pub popped-IsMcore : (c : Mcore) → IsMcore c → IsMcore (popped c (unframe c.mops))
popped-IsMcore c w =
    let r = unframe-Kept c.mops w.framed w.known in
    record {
      small = w.small;
      position = refl;
      core_current = refl;
      heap_current = refl;
      inside = omega (arith, r.less_core, w.position, w.inside);
      counted = omega (arith, r.less_heap, w.heap_current, w.counted);
      room = omega (arith, r.shorter, w.room);
      seated = r.seated;
      framed = r.framed;
      known = r.known;
    }

-- A mark more on top.
abbrev pub Marked : Mcore → Mcore → Type 0
Marked c c' = IsMcore c' × ((c'.mops ≡ mark_mop ∷ c.mops) × (c'.coresize ≡ c.coresize))

pub push-Ends :
    (h : Heap) (c : Mcore) → IsMcore c → Ends (λ _ c'. Marked c c') (Refused c) (push h c)
unfolding push add
push-Ends h c w = elim (Bool-cases (can_add c mopt_mark 0)) [
  | inl a ↦ rw a (
      and_then-Ends _ _ _ (ensure_capacity h c) _
        (ensure_capacity-Ends (Refused c) h c w.room (λ _. (w, (c.nmops, refl))))
        (λ _ c' (k, (e, l)). rw e (
          rw (add_reserved-room (record c { nmops = k }) mark_mop l)
            (mark-IsMcore (record c { nmops = k }) (regrown-IsMcore c k w l) l, (refl, refl)))))
  | inr a ↦ rw a (w, (c.nmops, refl))
]
