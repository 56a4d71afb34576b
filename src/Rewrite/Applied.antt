-- ===== src/Rewrite/Applied.antt =====
-- What `apply` keeps of the words parsed so far, for a flag under its name.
use mathlib.Core.Bool.{true≢false}
use greeg.Base.{
  ℕ, ◌≡◌, inl, inr, refl, true, false, Option, none, some, List, [], ◌∷◌, Bytes, All, ◌==◌, codes,
  starts_with, contains_char, contains_text, bytes_eq, Bool-cases, Option-cases,
}
use greeg.Base.Binds.{Holds, refused, held, Holds-if}
use greeg.Rewrite.Flags.{
  keep_short, value_short, drop_short, keep_long, value_long, drop_long, Flag, short_flag,
  long_flag, regexp_names, number_names, is_u64, Parsed, set_max_filesize, apply_value, apply,
  is_color,
}
use greeg.Rewrite.Parse.{is_positional}
use greeg.Rewrite.Emit.{Operand}
use greeg.Rewrite.Cli.{is_switch, accepts}
use greeg.Rewrite.Plain.{
  All-contains, All-contains_char, Plain, Plain-append, no_dash-is_dashed, is_u64-is_dashed,
  columns-Plain,
}

-- An option whose value is any text.
abbrev TakesText : Bytes → Type 0
TakesText name = (v : Bytes) → accepts name v ≡ true

-- A flag with a value, that `apply_value` keeps under its name whatever the value is.
abbrev KeepsText : Bytes → Type 0
KeepsText name =
    contains_text regexp_names name ≡ false
    → bytes_eq name (codes "--max-filesize") ≡ false
    → contains_text number_names name ≡ false
    → bytes_eq name (codes "-M") ≡ false
    → TakesText name

-- What greeg's command line says of a name that is a flag of a kind.
abbrev pub Names : Bytes → Flag → Type 0
Names name Flag.keep = is_switch name ≡ true
Names name Flag.value = KeepsText name
Names name _ = Unit

keep_short-switches : All (λ c. is_switch (b'-' ∷ c ∷ []) ≡ true) keep_short
unfolding is_switch contains_text bytes_eq
keep_short-switches = (refl, (refl, (refl, (refl, (refl, (refl, (refl, (refl, tt))))))))

value_short-KeepsText : All (λ c. KeepsText (b'-' ∷ c ∷ [])) value_short
unfolding accepts contains_text bytes_eq
value_short-KeepsText = (
  (λ a b c d. absurd (true≢false c)),
  (
    (λ a b c d. absurd (true≢false c)),
    (
      (λ a b c d. absurd (true≢false c)),
      (
        (λ a b c d. absurd (true≢false a)),
        (
          (λ a b c d v. refl),
          (
            (λ a b c d v. refl),
            (
              (λ a b c d v. refl),
              ((λ a b c d. absurd (true≢false c)), ((λ a b c d. absurd (true≢false d)), tt)),
            ),
          ),
        ),
      ),
    ),
  ),
)

keep_long-switches : All (λ name. is_switch name ≡ true) keep_long
unfolding is_switch contains_text bytes_eq
keep_long-switches =
    (refl, (refl, (refl, (refl, (refl, (refl, (refl, (refl, (refl, (refl, tt))))))))))

value_long-KeepsText : All KeepsText value_long
unfolding accepts contains_text bytes_eq
value_long-KeepsText = (
  (λ a b c d. absurd (true≢false c)),
  (
    (λ a b c d. absurd (true≢false c)),
    (
      (λ a b c d. absurd (true≢false c)),
      (
        (λ a b c d. absurd (true≢false a)),
        (
          (λ a b c d v. refl),
          (
            (λ a b c d v. refl),
            (
              (λ a b c d v. refl),
              (
                (λ a b c d. absurd (true≢false c)),
                ((λ a b c d. absurd (true≢false c)), ((λ a b c d. absurd (true≢false b)), tt)),
              ),
            ),
          ),
        ),
      ),
    ),
  ),
)

pub short-Names : (c : ℕ) → Names (b'-' ∷ c ∷ []) (short_flag c)
unfolding short_flag
short-Names c = elim (Bool-cases (contains_char keep_short c)) [
  | inl e ↦
      rw e (
        All-contains_char (λ x. is_switch (b'-' ∷ x ∷ []) ≡ true) keep_short c keep_short-switches
          e)
  | inr e ↦ elim (Bool-cases (contains_char drop_short c)) [
    | inl f ↦ rw (e, f) tt
    | inr f ↦ elim (Bool-cases (c == b'F')) [
      | inl g ↦ rw (e, f, g) tt
      | inr g ↦ elim (Bool-cases (c == b'u')) [
        | inl h ↦ rw (e, f, g, h) tt
        | inr h ↦ elim (Bool-cases (contains_char value_short c)) [
          | inl k ↦
              rw (e, f, g, h, k)
                (All-contains_char (λ x. KeepsText (b'-' ∷ x ∷ [])) value_short c
                  value_short-KeepsText k)
          | inr k ↦ rw (e, f, g, h, k) tt
        ]
      ]
    ]
  ]
]

pub long-Names : (name : Bytes) → Names name (long_flag name)
unfolding long_flag
long-Names name = elim (Bool-cases (contains_text keep_long name)) [
  | inl e ↦ rw e (All-contains (λ x. is_switch x ≡ true) keep_long name keep_long-switches e)
  | inr e ↦ elim (Bool-cases (bytes_eq name (codes "--fixed-strings"))) [
    | inl f ↦ rw (e, f) tt
    | inr f ↦ elim (Bool-cases (bytes_eq name (codes "--unrestricted"))) [
      | inl g ↦ rw (e, f, g) tt
      | inr g ↦ elim (Bool-cases (contains_text drop_long name)) [
        | inl h ↦ rw (e, f, g, h) tt
        | inr h ↦ elim (Bool-cases (bytes_eq name (codes "--color"))) [
          | inl k ↦ rw (e, f, g, h, k) tt
          | inr k ↦ elim (Bool-cases (contains_text value_long name)) [
            | inl l ↦
                rw (e, f, g, h, k, l)
                  (All-contains KeepsText value_long name value_long-KeepsText l)
            | inr l ↦ rw (e, f, g, h, k, l) tt
          ]
        ]
      ]
    ]
  ]
]

-- A flag whose value is a number.
pub number_names-accepts :
    (name v : Bytes)
    → contains_text number_names name ≡ true
    → is_u64 v ≡ true
    → accepts name v ≡ true
unfolding accepts contains_text bytes_eq
number_names-accepts name v h n =
    All-contains (λ x. accepts x v ≡ true) number_names name
      (n, (n, (n, (n, (n, (n, (n, (n, (n, tt))))))))) h

-- The invariant of the words parsed so far.
abbrev pub IsTyped : List Operand → Type 0
IsTyped = All (λ o. is_positional o.0 o.1 ≡ true)

abbrev pub IsSize : Option Bytes → Type 0
IsSize none = Unit
IsSize (some v) = is_u64 v ≡ true

abbrev pub IsParsed : Parsed → Type 0
IsParsed p = Plain p.flags × IsTyped p.positional × IsSize p.max_filesize

set_max_filesize-IsParsed :
    (name v : Bytes) (p : Parsed)
    → IsParsed p
    → is_u64 v ≡ true
    → Holds IsParsed (set_max_filesize name v p)
unfolding set_max_filesize
set_max_filesize-IsParsed name v p (a, b, c) n = elim (Option-cases p.max_filesize) [
  | inl e ↦ rw e (held _ (a, b, n))
  | inr (before, e) ↦ rw e (refused _)
]

apply_value-IsParsed :
    (name v : Bytes) (p : Parsed)
    → Names name Flag.value
    → IsParsed p
    → Holds IsParsed (apply_value name v p)
unfolding apply_value
apply_value-IsParsed name v p text (plain, typed, size) =
    Holds-if (contains_text regexp_names name) (λ e. held _ (plain, typed, size))
      (λ e.
        Holds-if (bytes_eq name (codes "--max-filesize"))
          (λ f.
            Holds-if (is_u64 v) (λ n. set_max_filesize-IsParsed name v p (plain, typed, size) n)
              (λ n. refused _))
          (λ f.
            Holds-if (contains_text number_names name)
              (λ g.
                Holds-if (is_u64 v)
                  (λ n. held _ (
                    Plain-append plain (
                        Plain.valued (number_names-accepts name v g n) (is_u64-is_dashed v n)
                          Plain.nil),
                    typed,
                    size,
                  ))
                  (λ n. refused _))
              (λ g.
                Holds-if (bytes_eq name (codes "-M"))
                  (λ m.
                    Holds-if (is_u64 v)
                      (λ n. held _ (Plain-append plain (columns-Plain v n), typed, size))
                      (λ n. refused _))
                  (λ m.
                    let fits = text e f g m v in
                    Holds-if (starts_with v (codes "-"))
                      (λ d.
                        held _
                          (Plain-append plain (Plain.attached name v fits Plain.nil), typed, size))
                      (λ d. held _ (
                        Plain-append plain (Plain.valued fits (no_dash-is_dashed v d) Plain.nil),
                        typed,
                        size,
                      ))))))

pub apply-IsParsed :
    (kind : Flag) (name : Bytes) (value : Option Bytes) (p : Parsed)
    → Names name kind
    → IsParsed p
    → Holds IsParsed (apply kind name value p)
unfolding apply
apply-IsParsed Flag.keep name value p n (a, b, c) =
    held _ (Plain-append a (Plain.bare n Plain.nil), b, c)
apply-IsParsed Flag.drop name value p n h = held _ h
apply-IsParsed Flag.color name value p n h =
    Holds-if (is_color value) (λ _. held _ h) (λ _. refused _)
apply-IsParsed Flag.fixed name value p n h = held _ h
apply-IsParsed Flag.unrestricted name value p n h = held _ h
apply-IsParsed Flag.unsupported name value p n h = refused _
apply-IsParsed Flag.value name none p n h = refused _
apply-IsParsed Flag.value name (some v) p n h = apply_value-IsParsed name v p n h
