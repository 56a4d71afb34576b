-- ===== src/Spill/Merging.antt =====
-- crates/greeg-index/src/external.rs: the merge yields every key once, in ascending order, with every
-- file that a segment has for it and no other.
use greeg.Base.{
  ℕ, zero, suc, ◌≤◌, ◌<◌, ◌≡◌, ◌↔◌, ◌⊎◌, inl, inr, refl, sym, ◌∙◌, subst, arith, some, List, [],
  ◌∷◌, ◌++◌, map, Bytes, length, length-append, All, In, In-append_left, In-append_right,
  In-append_cases, bytes_eq, bytes_eq_iff, Bool-cases, sort_unstable, dedup, ok,
}
use greeg.Spill.Varint.{put_varint, put_varint_loop}
use greeg.Spill.Segment.{Record, segment_bytes, record_bytes, put_ids}
use greeg.Spill.Merge.{merge_loop, bytes_left, next}
use greeg.Spill.Loads.{
  Over, Load, load, IsLoad, HasAny, IsHeap, push_load, push_next-load, HasAny-push_load, size,
  size-push_load,
}
use greeg.Spill.Heaps.{
  push_load-IsHeap, push_load-IsLoad, push_load-NotUnder, NotUnder, AllOver, other_key-AllOver,
}

-- The files collected for `key`, or what a heap still has.
abbrev pub Holds : Bytes → List ℕ → List Load → Bytes → ℕ → Type 0
Holds key files h k f = HasAny k f h ⊎ ((k ≡ key) × In f files)

-- What the loop leaves of a heap.
pub record Left (key : Bytes) (files : List ℕ) (h : List Load) (fs : List ℕ) (g : List Load)
    : Type 0 where
  pub loads : All IsLoad g
  pub heap : IsHeap g
  pub over : AllOver key g
  pub smaller : size g ≤ size h
  pub same : (k : Bytes) (f : ℕ) → Holds key files h k f ↔ Holds key fs g k f

Holds-pop :
    (key : Bytes) (files : List ℕ) (l : Load) (h : List Load)
    → l.key ≡ key
    → (k : Bytes) (f : ℕ)
    → Holds key files (l ∷ h) k f ↔ Holds key (files ++ l.files) (push_load l.index l.more h) k f
Holds-pop key files l h e k f =
    let (to, from) = HasAny-push_load k f l.index l.more h in
    (
      λ p. elim p [
        | inl (inl (inl (a, b))) ↦ inr (a ∙ e, In-append_right f files l.files b)
        | inl (inl (inr a)) ↦ inl (from (inl a))
        | inl (inr a) ↦ inl (from (inr a))
        | inr (a, b) ↦ inr (a, In-append_left f files l.files b)
      ],
      λ p. elim p [
        | inl a ↦ elim (to a) [ inl b ↦ inl (inl (inr b)) | inr b ↦ inl (inr b) ]
        | inr (a, b) ↦ elim (In-append_cases f files l.files b) [
          | inl c ↦ inr (a, c)
          | inr c ↦ inl (inl (inl (a ∙ sym e, c)))
        ]
      ],
    )

popped-smaller :
    (fuel : ℕ) (l : Load) (h : List Load)
    → size (l ∷ h) < suc fuel
    → size (push_load l.index l.more h) < fuel
unfolding size
popped-smaller fuel l h a = omega (arith, size-push_load l.index l.more h)

popped-below :
    (l : Load) (h g : List Load)
    → size g ≤ size (push_load l.index l.more h)
    → size g ≤ size (l ∷ h)
unfolding size
popped-below l h g a = omega (arith, size-push_load l.index l.more h)

popped-less :
    (l : Load) (h g : List Load)
    → size g ≤ size (push_load l.index l.more h)
    → size g < size (l ∷ h)
unfolding size
popped-less l h g a = omega (arith, size-push_load l.index l.more h)

merge_loop-Left :
    (fuel : ℕ) (key : Bytes) (files : List ℕ) (h : List Load)
    → size h < fuel
    → All IsLoad h
    → IsHeap h
    → NotUnder key h
    → (fs : List ℕ) × (g : List Load) × (merge_loop fuel key files (map load h)
        ≡ ok (fs, map load g))
      × Left key files h fs g
unfolding merge_loop
merge_loop-Left zero key files h s ls i n = absurd (omega arith)
merge_loop-Left (suc fuel) key files [] s ls i n = (
  files,
  [],
  refl,
  record {
    loads = tt;
    heap = tt;
    over = tt;
    smaller = omega arith;
    same = (λ k f. (λ p. p, λ p. p));
  },
)
merge_loop-Left (suc fuel) key files (l ∷ h) s ((rs, os), ls) (t, i) (u, n) =
    elim (Bool-cases (bytes_eq l.key key)) [
      | inr e ↦ (
        files,
        l ∷ h,
        rw (e, merge_loop) refl,
        record {
          loads = ((rs, os), ls);
          heap = (t, i);
          over = other_key-AllOver key l h u e (t, i);
          smaller = omega arith;
          same = (λ k f. (λ p. p, λ p. p));
        },
      )
      | inl e ↦
          let same_key = (bytes_eq_iff l.key key).0 e in
          let pushed = push_load l.index l.more h in
          let (fs, g, r, left) =
            merge_loop-Left fuel key (files ++ l.files) pushed (popped-smaller fuel l h s)
              (push_load-IsLoad l.index l.key l.more h rs os ls)
              (push_load-IsHeap l.index l.more h i)
              (push_load-NotUnder l.index key l.more h (subst (λ k. Over k l.more) same_key os)
                n) in
          (
            fs,
            g,
            rw (e, merge_loop, push_next-load l.index l.more h rs) r,
            record {
              loads = left.loads;
              heap = left.heap;
              over = left.over;
              smaller = popped-below l h g left.smaller;
              same = (λ k f.
                  let (to, from) = Holds-pop key files l h same_key k f in
                  let (a, b) = left.same k f in (λ p. a (to p), λ p. from (b p)));
            },
          )
    ]

length-put_varint : (v : ℕ) → 1 ≤ length (put_varint v)
unfolding put_varint put_varint_loop
length-put_varint v = ground arith

length-segment_bytes : (records : List Record) → length records ≤ length (segment_bytes records)
unfolding segment_bytes record_bytes
length-segment_bytes [] = omega arith
length-segment_bytes ((key, files) ∷ records) =
    let some_bytes = length-put_varint (length key) in
    let body = key ++ (put_varint (length files) ++ put_ids files) in
    omega (
      arith,
      length-segment_bytes records,
      length-append (put_varint (length key) ++ body) (segment_bytes records),
      length-append (put_varint (length key)) body,
    )

pub size-le-bytes_left : (h : List Load) → size h ≤ bytes_left (map load h)
unfolding size bytes_left
size-le-bytes_left [] = omega arith
size-le-bytes_left (l ∷ h) = omega (arith, size-le-bytes_left h, length-segment_bytes l.more)

pub next-Left :
    (l : Load) (h : List Load)
    → All IsLoad (l ∷ h)
    → IsHeap (l ∷ h)
    → (fs : List ℕ) × (g : List Load) × (next (map load (l ∷ h))
        ≡ ok (some ((l.key, dedup (sort_unstable fs)), map load g)))
      × Left l.key [] (l ∷ h) fs g
      × (size g < size (l ∷ h))
unfolding next merge_loop
next-Left l h ((rs, os), ls) (t, i) =
    let pushed = push_load l.index l.more h in
    let fuel = bytes_left (map load (l ∷ h)) in
    let (fs, g, r, left) =
      merge_loop-Left fuel l.key ([] ++ l.files) pushed
        (popped-smaller fuel l h (omega (arith, size-le-bytes_left (l ∷ h))))
        (push_load-IsLoad l.index l.key l.more h rs os ls) (push_load-IsHeap l.index l.more h i)
        (push_load-NotUnder l.index l.key l.more h os t) in
    let same = (bytes_eq_iff l.key l.key).1 refl in
    (
      fs,
      g,
      rw (same, merge_loop, push_next-load l.index l.more h rs, r) refl,
      record {
        loads = left.loads;
        heap = left.heap;
        over = left.over;
        smaller = popped-below l h g left.smaller;
        same = (λ k f.
            let (to, from) = Holds-pop l.key [] l h refl k f in
            let (a, b) = left.same k f in (λ p. a (to p), λ p. from (b p)));
      },
      popped-less l h g left.smaller,
    )
