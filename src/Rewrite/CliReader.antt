-- ===== src/Rewrite/CliReader.antt =====
-- A parser that does what `Clap` asks for, for the runs of the rewriting.
use mathlib.Core.Bool.{true≢false}
use greeg.Base.{
  ◌≡◌, inl, inr, refl, sym, Bool, true, false, ◌&&◌, ◌||◌, Option, none, some, List, [], ◌∷◌, ◌++◌,
  Bytes, All, if◌then◌else◌, codes, starts_with, strip_prefix, is_some, contains_text, bytes_eq,
  bytes_eq_iff, subst, Bool-cases,
}
use greeg.Rewrite.Parse.{split_once}
use greeg.Rewrite.Plain.{All-contains}
use greeg.Rewrite.Cli.{
  rg_switches, greeg_switches, is_switch, number_options, text_options, accepts, subcommands,
  Reading, add_operand, add_expression, is_dashed, Clap,
}

pub data Kind : Type 0 where
  alone waits escapes stands unknown : Kind

unfoldable pub is_option : Bytes → Bool
unfolding contains_text bytes_eq
is_option name =
    contains_text number_options name
    || bytes_eq name (codes "--matching")
    || contains_text text_options name

unfoldable pub kind_of : Bytes → Kind
unfolding is_dashed is_switch is_option bytes_eq split_once
kind_of w =
    if is_dashed w
    then if is_switch w
      then Kind.alone
      else if is_option w || bytes_eq w (codes "-e")
      then Kind.waits
      else if bytes_eq w (codes "--")
      then Kind.escapes
      else if is_option (split_once w).0
      then Kind.alone
      else Kind.unknown
    else Kind.stands

unfoldable pub read : List Bytes → Option Bytes → Option Reading
unfolding kind_of add_expression add_operand contains_text bytes_eq
read [] none = some ([], [])
read [] (some name) = none
read (w ∷ ws) (some name) = elim (bytes_eq name (codes "-e")) [
  | true ↦ add_expression w (read ws none)
  | false ↦ read ws none
]
read (w ∷ ws) none = elim (kind_of w) [
  | Kind.alone ↦ read ws none
  | Kind.waits ↦ read ws (some w)
  | Kind.escapes ↦ some ([], ws)
  | Kind.stands ↦ elim (contains_text subcommands w) [
    | true ↦ none
    | false ↦ add_operand w (read ws none)
  ]
  | Kind.unknown ↦ none
]

unfoldable is_alone : Kind → Bool
is_alone Kind.alone = true
is_alone _ = false

alone_kind : (k : Kind) → is_alone k ≡ true → k ≡ Kind.alone
unfolding is_alone
alone_kind Kind.alone h = refl
alone_kind Kind.waits h = absurd (true≢false (sym h))
alone_kind Kind.escapes h = absurd (true≢false (sym h))
alone_kind Kind.stands h = absurd (true≢false (sym h))
alone_kind Kind.unknown h = absurd (true≢false (sym h))

unfoldable every : (Bytes → Bool) → List Bytes → Bool
every f [] = true
every f (w ∷ ws) = f w && every f ws

every-All : (f : Bytes → Bool) (ws : List Bytes) → every f ws ≡ true → All (λ w. f w ≡ true) ws
unfolding every
every-All f [] h = tt
every-All f (w ∷ ws) h = elim (Bool-cases (f w)) [
  | inl e ↦ (e, every-All f ws (rw e at h))
  | inr e ↦ absurd (true≢false (sym (rw e at h)))
]

switches_alone : every (λ w. is_alone (kind_of w)) (rg_switches ++ greeg_switches) ≡ true
unfolding every is_alone kind_of is_dashed is_switch is_option contains_text bytes_eq starts_with
    strip_prefix is_some
switches_alone = refl

-- An option takes the next word, or its value is in its own.
abbrev TakesValue : Bytes → Type 0
TakesValue name =
    (kind_of name ≡ Kind.waits)
    × (bytes_eq name (codes "-e") ≡ false)
    × ((v : Bytes) → kind_of (name ++ b'=' ∷ v) ≡ Kind.alone)

numbers-TakesValue : All TakesValue number_options
unfolding kind_of is_dashed is_switch is_option split_once contains_text bytes_eq starts_with
    strip_prefix is_some
numbers-TakesValue = (
  (refl, refl, λ v. refl),
  (
    (refl, refl, λ v. refl),
    (
      (refl, refl, λ v. refl),
      (
        (refl, refl, λ v. refl),
        (
          (refl, refl, λ v. refl),
          (
            (refl, refl, λ v. refl),
            (
              (refl, refl, λ v. refl),
              (
                (refl, refl, λ v. refl),
                (
                  (refl, refl, λ v. refl),
                  (
                    (refl, refl, λ v. refl),
                    ((refl, refl, λ v. refl), ((refl, refl, λ v. refl), tt)),
                  ),
                ),
              ),
            ),
          ),
        ),
      ),
    ),
  ),
)

texts-TakesValue : All TakesValue (codes "--matching" ∷ text_options)
unfolding kind_of is_dashed is_switch is_option split_once contains_text bytes_eq starts_with
    strip_prefix is_some
texts-TakesValue = (
  (refl, refl, λ v. refl),
  (
    (refl, refl, λ v. refl),
    (
      (refl, refl, λ v. refl),
      (
        (refl, refl, λ v. refl),
        (
          (refl, refl, λ v. refl),
          (
            (refl, refl, λ v. refl),
            (
              (refl, refl, λ v. refl),
              (
                (refl, refl, λ v. refl),
                (
                  (refl, refl, λ v. refl),
                  (
                    (refl, refl, λ v. refl),
                    (
                      (refl, refl, λ v. refl),
                      (
                        (refl, refl, λ v. refl),
                        (
                          (refl, refl, λ v. refl),
                          (
                            (refl, refl, λ v. refl),
                            ((refl, refl, λ v. refl), ((refl, refl, λ v. refl), tt)),
                          ),
                        ),
                      ),
                    ),
                  ),
                ),
              ),
            ),
          ),
        ),
      ),
    ),
  ),
)

accepts-TakesValue : (name v : Bytes) → accepts name v ≡ true → TakesValue name
unfolding accepts
accepts-TakesValue name v h = elim (Bool-cases (contains_text number_options name)) [
  | inl e ↦ All-contains TakesValue number_options name numbers-TakesValue e
  | inr e ↦ elim (Bool-cases (bytes_eq name (codes "--matching"))) [
    | inl m ↦
        subst TakesValue (sym ((bytes_eq_iff name (codes "--matching")).0 m)) texts-TakesValue.0
    | inr m ↦ All-contains TakesValue text_options name texts-TakesValue.1 (rw (e, m) at h)
  ]
]

switch_read :
    (name : Bytes) (ws : List Bytes) → is_switch name ≡ true → read (name ∷ ws) none ≡ read ws none
unfolding read is_switch
switch_read name ws h =
    let switches = rg_switches ++ greeg_switches in
    let k = alone_kind (kind_of name) (
      All-contains (λ w. is_alone (kind_of w) ≡ true) switches name
        (every-All (λ w. is_alone (kind_of w)) switches switches_alone) h) in
    rw (k, read) refl

option_read :
    (name v : Bytes) (ws : List Bytes)
    → accepts name v ≡ true
    → read (name ∷ v ∷ ws) none ≡ read ws none
unfolding read
option_read name v ws h = let (k, d, a) = accepts-TakesValue name v h in rw (k, read, d, read) refl

attached_read :
    (name v : Bytes) (ws : List Bytes)
    → accepts name v ≡ true
    → read ((name ++ b'=' ∷ v) ∷ ws) none ≡ read ws none
unfolding read
attached_read name v ws h = let (k, d, a) = accepts-TakesValue name v h in rw (a v, read) refl

operand_read :
    (w : Bytes) (ws : List Bytes)
    → is_dashed w ≡ false
    → contains_text subcommands w ≡ false
    → read (w ∷ ws) none ≡ add_operand w (read ws none)
unfolding read kind_of
operand_read w ws d n = rw (d, read, n, read) refl

pub reader : Clap
unfolding read kind_of is_dashed is_switch is_option contains_text bytes_eq starts_with strip_prefix
    is_some
reader = record {
  parse = λ ws. read ws none;
  at_end = refl;
  switch = switch_read;
  option = (λ name v ws h d. option_read name v ws h);
  attached = attached_read;
  expression = (λ v ws d. refl);
  escape = (λ ws a. refl);
  operand = (λ w ws g d n. operand_read w ws d n);
}
