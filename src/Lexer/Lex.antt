-- ===== src/Lexer/Lex.antt =====
-- `lex`, which picks the lexer of a language. The registry of run-time languages is a parameter.
use greeg.Base.{ℕ, true, false, Option, Bytes}
use greeg.Lexer.{Memchr, Lexed, no_lexed}
use greeg.Lexer.Generic.{lex_generic}
use greeg.Lexer.Python.{lex_python}
use greeg.Lexer.CLike.{lex_c_like}

pub data Lang : Type 0 where
  none python rust java_script type_script kotlin text : Lang
  extra : ℕ → Lang

-- What `lex` reads of an `ExtraLang`.
pub record ExtraLang : Type 0 where
  pub line_comment : Option Bytes
  pub block_comment : Option (Bytes × Bytes)
  pub strings : Bytes

unfoldable pub lex : Memchr → (ℕ → Option ExtraLang) → Lang → Bytes → Lexed
unfolding lex_python lex_c_like lex_generic
lex m get Lang.python src = lex_python m src
lex m get Lang.rust src = lex_c_like m src true true false false
lex m get Lang.java_script src = lex_c_like m src false false true false
lex m get Lang.type_script src = lex_c_like m src false false true false
lex m get Lang.kotlin src = lex_c_like m src true false false true
lex m get (Lang.extra i) src = elim (get i) [
  | Option.some l ↦ lex_generic m src l.line_comment l.block_comment l.strings
  | Option.none ↦ no_lexed
]
lex m get Lang.none src = no_lexed
lex m get Lang.text src = no_lexed
