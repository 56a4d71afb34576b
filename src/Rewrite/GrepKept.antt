-- ===== src/Rewrite/GrepKept.antt =====
-- crates/greeg/src/rewrite.rs: what the flags of `grep` keep of the words that become greeg's.
use mathlib.Core.Bool.{true≢false}
use greeg.Base.{
  ℕ, ◌≡◌, inl, inr, refl, true, false, ◌||◌, List, [], ◌∷◌, ◌++◌, Bytes, All, ◌==◌, codes,
  starts_with, strip_prefix, is_some, contains_char, contains_text, bytes_eq, Option-cases, Result,
}
use greeg.Base.Binds.{Holds, refused, held, Holds-if, Holds-bind}
use greeg.Rewrite.Flags.{is_u64}
use greeg.Rewrite.Cli.{is_switch, accepts}
use greeg.Rewrite.Plain.{All-contains, All-contains_char, Plain, Plain-append, is_u64-is_dashed}
use greeg.Rewrite.Applied.{IsTyped}
use greeg.Rewrite.GrepFlags.{
  GrepError, Grep, set_matcher, file_glob, number_flag, grep_contexts, valued_flag, matcher_flag,
}

-- A word that does not read as a flag.
abbrev pub HasNoDash : Bytes → Type 0
HasNoDash w = starts_with w (codes "-") ≡ false

abbrev pub IsGrep : Grep → Type 0
IsGrep g = Plain g.flags × IsTyped g.positional × All HasNoDash g.exclude

abbrev pub Keeps : Result GrepError Grep → Type 0
Keeps = Holds IsGrep

exclude-snoc :
    (globs : List Bytes) (glob : Bytes)
    → All HasNoDash globs
    → All HasNoDash (globs ++ (b'!' ∷ glob) ∷ [])
unfolding starts_with strip_prefix is_some
exclude-snoc [] glob h = (refl, tt)
exclude-snoc (x ∷ globs) glob (a, h) = (a, exclude-snoc globs glob h)

pub set_matcher-Keeps : (m : ℕ) (g : Grep) → IsGrep g → Keeps (set_matcher m g)
unfolding set_matcher
set_matcher-Keeps m g h = elim (Option-cases g.matcher) [
  | inl e ↦ rw e (held _ h)
  | inr (was, e) ↦ rw e (Holds-if (was == m) (λ _. held _ h) (λ _. refused _))
]

iwxl-switches : All (λ c. is_switch (b'-' ∷ c ∷ []) ≡ true) (codes "iwxl")
unfolding is_switch contains_text bytes_eq
iwxl-switches = (refl, (refl, (refl, (refl, tt))))

pub bare-Plain : (c : ℕ) → contains_char (codes "iwxl") c ≡ true → Plain ((b'-' ∷ c ∷ []) ∷ [])
bare-Plain c h =
    Plain.bare
      (All-contains_char (λ x. is_switch (b'-' ∷ x ∷ []) ≡ true) (codes "iwxl") c iwxl-switches h)
      Plain.nil

-- A flag whose value is a number.
abbrev Numbers : Bytes → Type 0
Numbers name = (v : Bytes) → is_u64 v ≡ true → Plain (name ∷ v ∷ [])

option-Numbers :
    (name : Bytes) → ((v : Bytes) → is_u64 v ≡ true → accepts name v ≡ true) → Numbers name
option-Numbers name h v n = Plain.valued (h v n) (is_u64-is_dashed v n) Plain.nil

pub short-Numbers :
    (c : ℕ) → contains_char (codes "eABC") c ≡ true → (c == b'e') ≡ false → Numbers (b'-' ∷ c ∷ [])
unfolding accepts contains_text bytes_eq
short-Numbers c h d =
    All-contains_char (λ x. (x == b'e') ≡ false → Numbers (b'-' ∷ x ∷ [])) (codes "eABC") c
      (
        (λ e. absurd (true≢false e)),
        (
          (λ e. option-Numbers (codes "-A") (λ v n. n)),
          (
            (λ e. option-Numbers (codes "-B") (λ v n. n)),
            ((λ e. option-Numbers (codes "-C") (λ v n. n)), tt),
          ),
        ),
      )
      h d

long-Numbers :
    (name : Bytes) → contains_text grep_contexts name ≡ true → Numbers (codes "--" ++ name)
unfolding accepts contains_text bytes_eq
long-Numbers name =
    All-contains (λ x. Numbers (codes "--" ++ x)) grep_contexts name
      (
        option-Numbers (codes "--after-context") (λ v n. n),
        (
          option-Numbers (codes "--before-context") (λ v n. n),
          (option-Numbers (codes "--context") (λ v n. n), tt),
        ),
      )

pub number_flag-Keeps :
    (name v : Bytes) (g : Grep) → Numbers name → IsGrep g → Keeps (number_flag name v g)
unfolding number_flag
number_flag-Keeps name v g k (a, b, c) =
    Holds-if (is_u64 v) (λ n. held _ (Plain-append a (k v n), b, c)) (λ _. refused _)

file_glob-Holds : (name glob : Bytes) → Holds (λ _. Unit) (file_glob name glob)
unfolding file_glob
file_glob-Holds name [] = refused _
file_glob-Holds name (c ∷ glob) =
    Holds-if
      (contains_char (c ∷ glob) b'/'
        || contains_char (c ∷ glob) b'{'
        || contains_char (c ∷ glob) b'}')
      (λ _. refused _) (λ _. held _ tt)

valued_flag-Keeps : (name v : Bytes) (g : Grep) → IsGrep g → Keeps (valued_flag name v g)
unfolding valued_flag
valued_flag-Keeps name v g (a, b, c) =
    let flag = codes "--" ++ name in
    Holds-if (bytes_eq name (codes "regexp")) (λ _. held _ (a, b, c))
      (λ _.
        Holds-if (bytes_eq name (codes "include"))
          (λ _. Holds-bind (file_glob-Holds flag v) (λ glob _. held _ (a, b, c)))
          (λ _.
            Holds-if (bytes_eq name (codes "exclude"))
              (λ _.
                Holds-bind (file_glob-Holds flag v)
                  (λ glob _. held _ (a, b, exclude-snoc g.exclude glob c)))
              (λ _.
                Holds-if (bytes_eq name (codes "exclude-dir"))
                  (λ _.
                    Holds-bind (file_glob-Holds flag v)
                      (λ glob _. held _ (a, b, exclude-snoc g.exclude (glob ++ codes "/") c)))
                  (λ _.
                    Holds-if (contains_text grep_contexts name)
                      (λ e. number_flag-Keeps flag v g (long-Numbers name e) (a, b, c))
                      (λ _. refused _)))))

pub matcher_flag-Keeps : (name v : Bytes) (g : Grep) → IsGrep g → Keeps (matcher_flag name v g)
unfolding matcher_flag
matcher_flag-Keeps name v g h =
    Holds-if (bytes_eq name (codes "extended-regexp")) (λ _. set_matcher-Keeps b'E' g h)
      (λ _.
        Holds-if (bytes_eq name (codes "basic-regexp")) (λ _. set_matcher-Keeps b'G' g h)
          (λ _.
            Holds-if (bytes_eq name (codes "fixed-strings")) (λ _. set_matcher-Keeps b'F' g h)
              (λ _. valued_flag-Keeps name v g h)))
