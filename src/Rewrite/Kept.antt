-- ===== src/Rewrite/Kept.antt =====
-- What `parse` keeps of its words: flags that read as flags, operands that read as operands, and a
-- file size that is a number.
use mathlib.Core.Bool.{true≢false}
use greeg.Base.{
  ◌≡◌, inl, inr, refl, sym, Bool, true, false, Option, none, some, List, [], ◌∷◌, ◌++◌, Bytes, drop,
  subst, codes, strip_prefix, bytes_eq, Bool-cases, Option-cases, Result,
}
use greeg.Base.Binds.{Holds, refused, held, Holds-if, Holds-bind}
use greeg.Rewrite.Flags.{Flag, RgError, short_flag, long_flag, Parsed, no_words}
use greeg.Rewrite.Parse.{
  Stepped, stepped, is_unsupported, long_value, is_value, is_positional, missing_value, long_kind,
  group_value, short_group, flag_step, word_step, parse_loop, parse, takes_value, split_once,
}
use greeg.Rewrite.Emit.{Operand}
use greeg.Rewrite.Applied.{Names, short-Names, long-Names, IsTyped, IsParsed, apply-IsParsed}
use greeg.Rewrite.Plain.{Plain}

-- A step leaves such words.
abbrev IsStepped : Stepped → Type 0
IsStepped s = IsParsed s.parsed

stepped-IsStepped :
    {r : Result RgError Parsed} (dd took : Bool)
    → Holds IsParsed r
    → Holds IsStepped (stepped r dd took)
stepped-IsStepped dd took h = Holds-bind h (λ q k. held _ k)

missing_value-Holds :
    (next : Option Bytes) (name : Bytes) → Holds (λ _. Unit) (missing_value next name)
unfolding missing_value
missing_value-Holds none name = refused _
missing_value-Holds (some v) name = held _ tt

long_value-IsStepped :
    (kind : Flag) (name : Bytes) (inline next : Option Bytes) (dd : Bool) (p : Parsed)
    → Names name kind
    → IsParsed p
    → Holds IsStepped (long_value kind name inline next dd p)
unfolding long_value
long_value-IsStepped kind name none next dd p n h =
    Holds-if (takes_value kind)
      (λ _.
        Holds-bind (missing_value-Holds next name)
          (λ v _. stepped-IsStepped dd true (apply-IsParsed kind name (some v) p n h)))
      (λ _. stepped-IsStepped dd false (apply-IsParsed kind name none p n h))
long_value-IsStepped kind name (some v) next dd p n h =
    Holds-if (takes_value kind)
      (λ _. stepped-IsStepped dd false (apply-IsParsed kind name (some v) p n h)) (λ _. refused _)

group_value-IsStepped :
    (name rest : Bytes) (next : Option Bytes) (dd : Bool) (p : Parsed)
    → Names name Flag.value
    → IsParsed p
    → Holds IsStepped (group_value name rest next dd p)
unfolding group_value
group_value-IsStepped name [] next dd p n h =
    Holds-bind (missing_value-Holds next name)
      (λ v _. stepped-IsStepped dd true (apply-IsParsed Flag.value name (some v) p n h))
group_value-IsStepped name (c ∷ rest) next dd p n h =
    stepped-IsStepped dd false (apply-IsParsed Flag.value name (some (c ∷ rest)) p n h)

is_value-value : (kind : Flag) → is_value kind ≡ true → kind ≡ Flag.value
unfolding is_value
is_value-value Flag.value h = refl
is_value-value Flag.keep h = absurd (true≢false (sym h))
is_value-value Flag.drop h = absurd (true≢false (sym h))
is_value-value Flag.color h = absurd (true≢false (sym h))
is_value-value Flag.fixed h = absurd (true≢false (sym h))
is_value-value Flag.unrestricted h = absurd (true≢false (sym h))
is_value-value Flag.unsupported h = absurd (true≢false (sym h))

short_group-IsStepped :
    (cs : Bytes) (next : Option Bytes) (dd : Bool) (p : Parsed)
    → IsParsed p
    → Holds IsStepped (short_group cs next dd p)
unfolding short_group
short_group-IsStepped [] next dd p h = held _ h
short_group-IsStepped (c ∷ cs) next dd p h = elim (Bool-cases (is_value (short_flag c))) [
  | inl e ↦
      rw (e, short_group)
        (group_value-IsStepped (b'-' ∷ c ∷ []) cs next dd p
          (subst (Names (b'-' ∷ c ∷ [])) (is_value-value (short_flag c) e) (short-Names c)) h)
  | inr e ↦
      rw (e, short_group)
        (Holds-bind (apply-IsParsed (short_flag c) (b'-' ∷ c ∷ []) none p (short-Names c) h)
          (λ q k. short_group-IsStepped cs next dd q k))
]

flag_step-IsStepped :
    (w : Bytes) (next : Option Bytes) (dd : Bool) (p : Parsed)
    → IsParsed p
    → Holds IsStepped (flag_step w next dd p)
unfolding flag_step long_kind
flag_step-IsStepped w next dd p h = elim (Option-cases (strip_prefix (codes "--") w)) [
  | inl e ↦ rw (e, flag_step) (short_group-IsStepped (drop 1 w) next dd p h)
  | inr (rest, e) ↦
      let name = codes "--" ++ (split_once rest).0 in
      rw (e, flag_step)
        (Holds-if (is_unsupported (long_flag name)) (λ _. refused _)
          (λ _.
            long_value-IsStepped (long_flag name) name (split_once rest).1 next dd p
              (long-Names name) h))
]

pub IsTyped-snoc :
    (os : List Operand) (o : Operand)
    → IsTyped os
    → is_positional o.0 o.1 ≡ true
    → IsTyped (os ++ o ∷ [])
IsTyped-snoc [] o h k = (k, tt)
IsTyped-snoc (p ∷ os) o (a, h) k = (a, IsTyped-snoc os o h k)

word_step-IsStepped :
    (w : Bytes) (next : Option Bytes) (dd : Bool) (p : Parsed)
    → IsParsed p
    → Holds IsStepped (word_step w next dd p)
unfolding word_step
word_step-IsStepped w next dd p (a, b, c) =
    Holds-if (is_positional w dd) (λ e. held _ (a, IsTyped-snoc p.positional (w, dd) b e, c))
      (λ e.
        Holds-if (bytes_eq w (codes "--")) (λ _. held _ (a, b, c))
          (λ _. flag_step-IsStepped w next dd p (a, b, c)))

parse_loop-IsParsed :
    (words : List Bytes) (dd : Bool) (p : Parsed)
    → IsParsed p
    → Holds IsParsed (parse_loop words dd p)
unfolding parse_loop
parse_loop-IsParsed [] dd p h = held _ h
parse_loop-IsParsed (w ∷ []) dd p h =
    Holds-bind (word_step-IsStepped w none dd p h) (λ s k. held _ k)
parse_loop-IsParsed (w ∷ v ∷ rest) dd p h =
    Holds-bind (word_step-IsStepped w (some v) dd p h) (λ s k. elim (Bool-cases s.took) [
      | inl e ↦ simp e (parse_loop-IsParsed rest s.after_dd s.parsed k)
      | inr e ↦ simp e (parse_loop-IsParsed (v ∷ rest) s.after_dd s.parsed k)
    ])

pub parse-IsParsed : (words : List Bytes) → Holds IsParsed (parse words)
unfolding parse
parse-IsParsed words = parse_loop-IsParsed (drop 1 words) false no_words (Plain.nil, tt, tt)
