-- ===== src/Plan/ByWord/Laws.antt =====
-- A whole-word match of the pattern is one of the words of its word plan.
use greeg.Base.{
  ◌≡◌, inl, inr, refl, sym, ap, ◌∙◌, subst, Option, none, some, List, [], ◌∷◌, ◌++◌, map, Bytes, In,
  In-append_left, In-append_right, In-map, length, ltb, Bool-cases,
}
use mathlib.Core.Option.{none-ne-some, some-injective}
use mathlib.Core.List.{append_assoc, append-nil}
use greeg.Plan.Hir.{Hir, Hirs, Look, Matches, Sequence, Branch}
use greeg.Plan.ByWord.{
  Tok, bound, lit, max_seqs, Seqs, limited, extend, followed, append_each, seqs, seqs_concat,
  seqs_alternation, ◌>>=◌,
}

-- The text of a sequence, its boundaries empty.
unfoldable pub text : List Tok → Bytes
text [] = []
text (bound ∷ s) = text s
text (lit l ∷ s) = l ++ text s

text-append : (s t : List Tok) → text (s ++ t) ≡ text s ++ text t
unfolding text
text-append [] t = refl
text-append (bound ∷ s) t = text-append s t
text-append (lit l ∷ s) t =
    ap (λ u. l ++ u) (text-append s t) ∙ sym (append_assoc l (text s) (text t))

-- One of the sequences has the text `m`.
abbrev pub Denotes : Seqs → Bytes → Type 0
Denotes ss m = (s : List Tok) × In s ss × (text s ≡ m)

limited-eq : (out ss : Seqs) → limited out ≡ some ss → out ≡ ss
unfolding limited
limited-eq out ss e = elim (Bool-cases (ltb max_seqs (length out))) [
  | inl b ↦ absurd (none-ne-some _ (rw b at e))
  | inr b ↦ some-injective _ _ (rw b at e)
]

extend-keeps :
    (out : Seqs) (o : Option Seqs) (ss : Seqs) (m : Bytes)
    → extend out o ≡ some ss
    → Denotes out m
    → Denotes ss m
unfolding extend
extend-keeps out none ss m e d = absurd (none-ne-some _ e)
extend-keeps out (some v) ss m e (s, i, t) =
    (s, subst (In s) (limited-eq (out ++ v) ss e) (In-append_left s out v i), t)

extend-adds :
    (out v ss : Seqs) (m : Bytes) → extend out (some v) ≡ some ss → Denotes v m → Denotes ss m
unfolding extend
extend-adds out v ss m e (s, i, t) =
    (s, subst (In s) (limited-eq (out ++ v) ss e) (In-append_right s out v i), t)

followed-In : (acc ps : Seqs) (a s : List Tok) → In a acc → In s ps → In (a ++ s) (followed acc ps)
unfolding followed
followed-In (b ∷ acc) ps a s (inl e) k =
    In-append_left (a ++ s) (map (λ t. b ++ t) ps) (followed acc ps)
      (subst (λ c. In (c ++ s) (map (λ t. b ++ t) ps)) (sym e) (In-map (λ t. b ++ t) s ps k))
followed-In (b ∷ acc) ps a s (inr h) k =
    In-append_right (a ++ s) (map (λ t. b ++ t) ps) (followed acc ps) (followed-In acc ps a s h k)
followed-In [] ps a s h k = absurd h

append_each-Denotes :
    (acc ps ss : Seqs) (m x : Bytes)
    → append_each acc (some ps) ≡ some ss
    → Denotes acc m
    → Denotes ps x
    → Denotes ss (m ++ x)
unfolding append_each
append_each-Denotes acc ps ss m x e (a, i, t) (s, k, u) = (
  a ++ s,
  subst (In (a ++ s)) (limited-eq (followed acc ps) ss e) (followed-In acc ps a s i k),
  text-append a s ∙ ap (λ z. z ++ text s) t ∙ ap (λ z. m ++ z) u,
)

>>=-eq-some :
    (o : Option Seqs) (go_on : Seqs → Option Seqs) (ss : Seqs)
    → (o >>= go_on) ≡ some ss
    → (v : Seqs) × (o ≡ some v) × (go_on v ≡ some ss)
>>=-eq-some none go_on ss e = absurd (none-ne-some _ e)
>>=-eq-some (some v) go_on ss e = (v, refl, e)

extend-eq-some :
    (out : Seqs) (o : Option Seqs) (ss : Seqs)
    → extend out o ≡ some ss
    → (v : Seqs) × (o ≡ some v) × (extend out (some v) ≡ some ss)
unfolding extend
extend-eq-some out none ss e = absurd (none-ne-some _ e)
extend-eq-some out (some v) ss e = (v, refl, e)

append_each-eq-some :
    (acc : Seqs) (o : Option Seqs) (ss : Seqs)
    → append_each acc o ≡ some ss
    → (v : Seqs) × (o ≡ some v) × (append_each acc (some v) ≡ some ss)
unfolding append_each
append_each-eq-some acc none ss e = absurd (none-ne-some _ e)
append_each-eq-some acc (some v) ss e = (v, refl, e)

seqs_alternation-keeps :
    (hs : Hirs) (out ss : Seqs) (m : Bytes)
    → seqs_alternation hs out ≡ some ss
    → Denotes out m
    → Denotes ss m
unfolding seqs_alternation
seqs_alternation-keeps Hirs.nil out ss m e d = subst (λ z. Denotes z m) (some-injective _ _ e) d
seqs_alternation-keeps (Hirs.cons a hs) out ss m e d =
    let (next, f, g) = >>=-eq-some (extend out (seqs a)) (seqs_alternation hs) ss e in
    seqs_alternation-keeps hs next ss m g (extend-keeps out (seqs a) next m f d)

singleton : (s : List Tok) (m : Bytes) → text s ≡ m → Denotes (s ∷ []) m
singleton s m e = (s, inl refl, e)

text_nil : text [] ≡ []
unfolding text
text_nil = refl

text_bound : text (bound ∷ []) ≡ []
unfolding text
text_bound = refl

text_lit : (l : Bytes) → text (lit l ∷ []) ≡ l
unfolding text
text_lit l = append-nil l

mutual
  unfolding seqs

  pub seqs-Denotes :
      {h : Hir} {m : Bytes} → Matches h m → (ss : Seqs) → seqs h ≡ some ss → Denotes ss m
  seqs-Denotes Matches.empty ss e =
      subst (λ z. Denotes z []) (some-injective _ _ e) (singleton [] [] text_nil)
  seqs-Denotes (Matches.look Look.word_ascii) ss e =
      subst (λ z. Denotes z []) (some-injective _ _ e) (singleton (bound ∷ []) [] text_bound)
  seqs-Denotes (Matches.look Look.word_unicode) ss e =
      subst (λ z. Denotes z []) (some-injective _ _ e) (singleton (bound ∷ []) [] text_bound)
  seqs-Denotes (Matches.look Look.other_look) ss e = absurd (none-ne-some _ e)
  seqs-Denotes (Matches.literal bs) ss e =
      subst (λ z. Denotes z bs) (some-injective _ _ e) (singleton (lit bs ∷ []) bs (text_lit bs))
  seqs-Denotes (Matches.class c) ss e = absurd (none-ne-some _ e)
  seqs-Denotes (Matches.repetition n a b c) ss e = absurd (none-ne-some _ e)
  seqs-Denotes (Matches.capture h) ss e = seqs-Denotes h ss e
  seqs-Denotes (Matches.concat q) ss e =
      seqs_concat-Denotes q ([] ∷ []) ss [] e (singleton [] [] text_nil)
  seqs-Denotes (Matches.first {h} {hs} {bs} x) ss e =
      let (out, f, g) = >>=-eq-some (extend [] (seqs h)) (seqs_alternation hs) ss e in
      let (v, k, l) = extend-eq-some [] (seqs h) out f in
      seqs_alternation-keeps hs out ss bs g (extend-adds [] v out bs l (seqs-Denotes x v k))
  seqs-Denotes (Matches.later {h} {hs} {bs} x) ss e =
      let (out, f, g) = >>=-eq-some (extend [] (seqs h)) (seqs_alternation hs) ss e in
      seqs_alternation-Denotes x out ss g

  seqs_concat-Denotes :
      {hs : Hirs} {x : Bytes}
      → Sequence hs x
      → (acc ss : Seqs) (m : Bytes) → seqs_concat hs acc ≡ some ss
      → Denotes acc m
      → Denotes ss (m ++ x)
  seqs_concat-Denotes Sequence.end acc ss m e d =
      subst (Denotes ss) (sym (append-nil m)) (subst (λ z. Denotes z m) (some-injective _ _ e) d)
  seqs_concat-Denotes (Sequence.step {h} {hs} {xs} {ys} a q) acc ss m e d =
      let (next, f, g) = >>=-eq-some (append_each acc (seqs h)) (seqs_concat hs) ss e in
      let (ps, k, l) = append_each-eq-some acc (seqs h) next f in
      subst (Denotes ss) (append_assoc m xs ys) (
        seqs_concat-Denotes q next ss (m ++ xs) g
          (append_each-Denotes acc ps next m xs l d (seqs-Denotes a ps k)))

  seqs_alternation-Denotes :
      {hs : Hirs} {m : Bytes}
      → Branch hs m
      → (out ss : Seqs) → seqs_alternation hs out ≡ some ss
      → Denotes ss m
  seqs_alternation-Denotes (Branch.this {h} {hs} {bs} x) out ss e =
      let (next, f, g) = >>=-eq-some (extend out (seqs h)) (seqs_alternation hs) ss e in
      let (v, k, l) = extend-eq-some out (seqs h) next f in
      seqs_alternation-keeps hs next ss bs g (extend-adds out v next bs l (seqs-Denotes x v k))
  seqs_alternation-Denotes (Branch.next {h} {hs} {bs} x) out ss e =
      let (next, f, g) = >>=-eq-some (extend out (seqs h)) (seqs_alternation hs) ss e in
      seqs_alternation-Denotes x next ss g
