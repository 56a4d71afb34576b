-- ===== src/Rewrite/Plain.antt =====
-- The flags that greeg's words hold are flags of its command line: each with its value, and no word of
-- them is an operand.
use mathlib.Core.Bool.{true≢false}
use greeg.Base.{
  ℕ, ◌≡◌, inl, inr, refl, sym, subst, ◌∙◌, arith, true, false, List, [], ◌∷◌, ◌++◌, Bytes, All,
  ◌==◌, ==_iff, codes, starts_with, strip_prefix, is_some, contains_char, contains_text, bytes_eq,
  bytes_eq_iff, Bool-cases,
}
use greeg.Rewrite.Flags.{is_u64, digits_fit}
use greeg.Rewrite.Cli.{Clap, is_switch, accepts, is_dashed}

-- What all texts of a table have, a text found in it has.
pub All-contains :
    (P : Bytes → Type 0) (vs : List Bytes) (w : Bytes) → All P vs → contains_text vs w ≡ true → P w
unfolding contains_text
All-contains P [] w a h = absurd (true≢false (sym h))
All-contains P (v ∷ vs) w (p, a) h = elim (Bool-cases (bytes_eq v w)) [
  | inl e ↦ subst P ((bytes_eq_iff v w).0 e) p
  | inr e ↦ All-contains P vs w a (rw e at h)
]

pub All-contains_char :
    (P : ℕ → Type 0) (cs : Bytes) (c : ℕ) → All P cs → contains_char cs c ≡ true → P c
unfolding contains_char
All-contains_char P [] c a h = absurd (true≢false (sym h))
All-contains_char P (x ∷ cs) c (p, a) h = elim (Bool-cases (x == c)) [
  | inl e ↦ subst P ((==_iff x c).0 e) p
  | inr e ↦ All-contains_char P cs c a (rw e at h)
]

-- Words of flags, with their values.
pub data Plain : List Bytes → Type 0 where
  nil : Plain []
  bare : {w : Bytes} {ws : List Bytes} → is_switch w ≡ true → Plain ws → Plain (w ∷ ws)
  valued :
      {w v : Bytes} {ws : List Bytes}
      → accepts w v ≡ true
      → is_dashed v ≡ false
      → Plain ws
      → Plain (w ∷ v ∷ ws)
  attached :
      (w v : Bytes) {ws : List Bytes} → accepts w v ≡ true → Plain ws → Plain ((w ++ b'=' ∷ v) ∷ ws)

pub Plain-append : {ws vs : List Bytes} → Plain ws → Plain vs → Plain (ws ++ vs)
Plain-append Plain.nil q = q
Plain-append (Plain.bare a p) q = Plain.bare a (Plain-append p q)
Plain-append (Plain.valued a b p) q = Plain.valued a b (Plain-append p q)
Plain-append (Plain.attached w v a p) q = Plain.attached w v a (Plain-append p q)

-- Parsing passes over them.
pub parse-Plain :
    (clap : Clap) {ws : List Bytes} (rest : List Bytes)
    → Plain ws
    → clap.parse (ws ++ rest) ≡ clap.parse rest
parse-Plain clap rest Plain.nil = refl
parse-Plain clap rest (Plain.bare a p) = clap.switch _ _ a ∙ parse-Plain clap rest p
parse-Plain clap rest (Plain.valued a b p) = clap.option _ _ _ a b ∙ parse-Plain clap rest p
parse-Plain clap rest (Plain.attached w v a p) = clap.attached _ _ _ a ∙ parse-Plain clap rest p

pub no_dash-is_dashed : (w : Bytes) → starts_with w (codes "-") ≡ false → is_dashed w ≡ false
unfolding is_dashed
no_dash-is_dashed w h = rw h refl

-- A number's first character is no dash.
pub is_u64-no_dash : (v : Bytes) → is_u64 v ≡ true → starts_with v (codes "-") ≡ false
unfolding is_u64 digits_fit starts_with strip_prefix is_some
is_u64-no_dash [] h = refl
is_u64-no_dash (c ∷ []) h = ground arith
is_u64-no_dash (c ∷ d ∷ cs) h = ground arith

pub is_u64-is_dashed : (v : Bytes) → is_u64 v ≡ true → is_dashed v ≡ false
is_u64-is_dashed v h = no_dash-is_dashed v (is_u64-no_dash v h)

-- `--max-columns`, which greeg has in place of `-M`.
pub columns-Plain : (v : Bytes) → is_u64 v ≡ true → Plain (codes "--max-columns" ∷ v ∷ [])
unfolding accepts contains_text bytes_eq
columns-Plain v n = Plain.valued n (is_u64-is_dashed v n) Plain.nil
