-- ===== src/Rewrite/GrepSteps.antt =====
-- crates/greeg/src/rewrite.rs: what the loop of `rewrite_grep` keeps of its words.
use greeg.Base.{
  ℕ, ◌≡◌, inl, inr, refl, Bool, true, false, ◌&&◌, ◌||◌, Option, none, some, List, [], ◌∷◌, Bytes,
  drop, ◌==◌, codes, strip_prefix, contains_char, contains_text, bytes_eq, Bool-cases, Option-cases,
  Result,
}
use greeg.Base.Binds.{Holds, refused, held, Holds-if, Holds-bind}
use greeg.Rewrite.Parse.{is_positional, split_once}
use greeg.Rewrite.Plain.{Plain, Plain-append}
use greeg.Rewrite.GrepFlags.{
  GrepError, Grep, GrepStep, grep_flag, grep_values, grep_colors, quiet_colors, long_grep,
}
use greeg.Rewrite.Grep.{
  word_after, to_step, long_word, short_valued, short_value, short_grep, grep_group, grep_flags,
  grep_word, grep_loop, parse_grep,
}
use greeg.Rewrite.GrepKept.{
  IsGrep, Keeps, set_matcher-Keeps, bare-Plain, short-Numbers, number_flag-Keeps,
  matcher_flag-Keeps,
}
use greeg.Rewrite.Kept.{IsTyped-snoc}

bare_word :
    (c : ℕ) (g : Grep)
    → contains_char (codes "iwxl") c ≡ true
    → IsGrep g
    → IsGrep (grep_flag ((b'-' ∷ c ∷ []) ∷ []) g)
bare_word c g e (a, b, h) = (Plain-append a (bare-Plain c e), b, h)

long_grep-Keeps : (name v : Bytes) (g : Grep) → IsGrep g → Keeps (long_grep name v g)
unfolding long_grep contains_char
long_grep-Keeps name v g h =
    Holds-if (bytes_eq name (codes "recursive")) (λ _. held _ h)
      (λ _.
        Holds-if (bytes_eq name (codes "dereference-recursive")) (λ _. refused _)
          (λ _.
            Holds-if (bytes_eq name (codes "line-number")) (λ _. held _ h)
              (λ _.
                Holds-if (bytes_eq name (codes "with-filename")) (λ _. held _ h)
                  (λ _.
                    Holds-if (contains_text grep_colors name)
                      (λ _.
                        Holds-if (contains_text quiet_colors v) (λ _. held _ h)
                          (λ _.
                            Holds-if (bytes_eq v (codes "always")) (λ _. held _ h)
                              (λ _. refused _)))
                      (λ _.
                        Holds-if (bytes_eq name (codes "no-messages")) (λ _. refused _)
                          (λ _.
                            Holds-if
                              (bytes_eq name (codes "binary-files")
                                && bytes_eq v (codes "without-match"))
                              (λ _. held _ h)
                              (λ _.
                                Holds-if (bytes_eq name (codes "ignore-case"))
                                  (λ _. held _ (bare_word b'i' g refl h))
                                  (λ _.
                                    Holds-if (bytes_eq name (codes "word-regexp"))
                                      (λ _. held _ (bare_word b'w' g refl h))
                                      (λ _.
                                        Holds-if (bytes_eq name (codes "line-regexp"))
                                          (λ _. held _ (bare_word b'x' g refl h))
                                          (λ _.
                                            Holds-if (bytes_eq name (codes "files-with-matches"))
                                              (λ _. held _ (bare_word b'l' g refl h))
                                              (λ _. matcher_flag-Keeps name v g h)))))))))))

abbrev Steps : Result GrepError GrepStep → Type 0
Steps = Holds (λ s. IsGrep s.grep)

to_step-Steps : {r : Result GrepError Grep} (dd took : Bool) → Keeps r → Steps (to_step r dd took)
to_step-Steps dd took h = Holds-bind h (λ g k. held _ k)

word_after-Holds : (next : Option Bytes) (name : Bytes) → Holds (λ _. Unit) (word_after next name)
unfolding word_after
word_after-Holds none name = refused _
word_after-Holds (some v) name = held _ tt

long_word-Steps :
    (name : Bytes) (inline next : Option Bytes) (dd : Bool) (g : Grep)
    → IsGrep g
    → Steps (long_word name inline next dd g)
unfolding long_word
long_word-Steps name (some v) next dd g h =
    Holds-if (contains_text grep_values name || contains_text grep_colors name)
      (λ _. to_step-Steps dd false (long_grep-Keeps name v g h)) (λ _. refused _)
long_word-Steps name none next dd g h =
    Holds-if (contains_text grep_values name)
      (λ _.
        Holds-bind (word_after-Holds next name)
          (λ v _. to_step-Steps dd true (long_grep-Keeps name v g h)))
      (λ _. to_step-Steps dd false (long_grep-Keeps name [] g h))

short_valued-Keeps :
    (c : ℕ) (v : Bytes) (g : Grep)
    → contains_char (codes "eABC") c ≡ true
    → IsGrep g
    → Keeps (short_valued c v g)
unfolding short_valued
short_valued-Keeps c v g e h =
    Holds-if (c == b'e') (λ _. held _ h)
      (λ d. number_flag-Keeps (b'-' ∷ c ∷ []) v g (short-Numbers c e d) h)

short_value-Steps :
    (c : ℕ) (cs : Bytes) (next : Option Bytes) (dd : Bool) (g : Grep)
    → contains_char (codes "eABC") c ≡ true
    → IsGrep g
    → Steps (short_value c cs next dd g)
unfolding short_value
short_value-Steps c [] next dd g e h =
    Holds-bind (word_after-Holds next (b'-' ∷ c ∷ []))
      (λ v _. to_step-Steps dd true (short_valued-Keeps c v g e h))
short_value-Steps c (d ∷ rest) next dd g e h =
    to_step-Steps dd false (short_valued-Keeps c (d ∷ rest) g e h)

short_grep-Keeps : (c : ℕ) (g : Grep) → IsGrep g → Keeps (short_grep c g)
unfolding short_grep
short_grep-Keeps c g h =
    Holds-if (c == b'r') (λ _. held _ h)
      (λ _.
        Holds-if (c == b'R') (λ _. refused _)
          (λ _.
            Holds-if (c == b'n') (λ _. held _ h)
              (λ _.
                Holds-if (c == b'H' || c == b'I') (λ _. held _ h)
                  (λ _.
                    Holds-if (c == b's') (λ _. refused _)
                      (λ _.
                        Holds-if (contains_char (codes "iwxl") c) (λ e. held _ (bare_word c g e h))
                          (λ _.
                            Holds-if (contains_char (codes "EGF") c) (λ _. set_matcher-Keeps c g h)
                              (λ _.
                                Holds-if (c == b'c') (λ _. refused _)
                                  (λ _.
                                    Holds-if (c == b'h') (λ _. refused _) (λ _. refused _)))))))))

grep_group-Steps :
    (cs : Bytes) (next : Option Bytes) (dd : Bool) (g : Grep)
    → IsGrep g
    → Steps (grep_group cs next dd g)
unfolding grep_group
grep_group-Steps [] next dd g h = held _ h
grep_group-Steps (c ∷ cs) next dd g h = elim (Bool-cases (contains_char (codes "eABC") c)) [
  | inl e ↦ rw (e, grep_group) (short_value-Steps c cs next dd g e h)
  | inr e ↦
      rw (e, grep_group)
        (Holds-bind (short_grep-Keeps c g h) (λ q k. grep_group-Steps cs next dd q k))
]

grep_flags-Steps :
    (w : Bytes) (next : Option Bytes) (dd : Bool) (g : Grep)
    → IsGrep g
    → Steps (grep_flags w next dd g)
unfolding grep_flags
grep_flags-Steps w next dd g h = elim (Option-cases (strip_prefix (codes "--") w)) [
  | inl e ↦ rw (e, grep_flags) (grep_group-Steps (drop 1 w) next dd g h)
  | inr (rest, e) ↦
      rw (e, grep_flags) (long_word-Steps (split_once rest).0 (split_once rest).1 next dd g h)
]

grep_word-Steps :
    (w : Bytes) (next : Option Bytes) (dd : Bool) (g : Grep)
    → IsGrep g
    → Steps (grep_word w next dd g)
unfolding grep_word
grep_word-Steps w next dd g (a, b, c) =
    Holds-if (is_positional w dd) (λ e. held _ (a, IsTyped-snoc g.positional (w, dd) b e, c))
      (λ _.
        Holds-if (bytes_eq w (codes "--")) (λ _. held _ (a, b, c))
          (λ _. grep_flags-Steps w next dd g (a, b, c)))

grep_loop-Keeps :
    (words : List Bytes) (dd : Bool) (g : Grep) → IsGrep g → Keeps (grep_loop words dd g)
unfolding grep_loop
grep_loop-Keeps [] dd g h = held _ h
grep_loop-Keeps (w ∷ []) dd g h = Holds-bind (grep_word-Steps w none dd g h) (λ s k. held _ k)
grep_loop-Keeps (w ∷ v ∷ rest) dd g h = Holds-bind (grep_word-Steps w (some v) dd g h) (λ s k.
    elim (Bool-cases s.took) [
      | inl e ↦ simp e (grep_loop-Keeps rest s.after_dd s.grep k)
      | inr e ↦ simp e (grep_loop-Keeps (v ∷ rest) s.after_dd s.grep k)
    ])

pub parse_grep-Keeps : (words : List Bytes) → Keeps (parse_grep words)
unfolding parse_grep
parse_grep-Keeps [] = refused _
parse_grep-Keeps (program ∷ words) = grep_loop-Keeps words false _ (Plain.nil, tt, tt)
