-- ===== src/Json/RoundTrip/Blanks.antt =====
-- The delimiters and the whitespace that `format` puts out, as the grammars of sequences read them.
use noam.Base.{ℕ, zero, suc, ◌≡◌, refl, ap, List, ◌∷◌, ◌++◌, drop_while, none, some}
use noam.Combinators.Maps.Grammars.{entry_grammar}
use noam.Combinators.Sequence.Words.{
  blanks, open_grammar, close_grammar, separator_grammar, word_grammar,
}
use noam.Intrinsics.Chars.{one_of}
use noam.Json.Format.Text.{spaces}
use noam.Literal.{Literal, char_literal}
use noam.Parser.Refines.{Grammar}
use noam.Result.{empty}
use noam.State.Prefix.{is_prefix}

abbrev pub skip_blanks : List ℕ → List ℕ
skip_blanks = drop_while (one_of blanks)

pub skip_blanks-spaces : (n : ℕ) (l : List ℕ) → skip_blanks (spaces n ++ l) ≡ skip_blanks l
unfolding one_of
skip_blanks-spaces zero l = refl
skip_blanks-spaces (suc n) l = skip_blanks-spaces n l

pub open_bracket :
    (l l' : List ℕ)
    → skip_blanks l ≡ l'
    → open_grammar (char_literal b'[') (b'[' ∷ l) ≡ some (empty, l')
unfolding is_prefix
open_bracket l l' e = ap (λ l. some (empty, l)) e

pub open_brace :
    (l l' : List ℕ)
    → skip_blanks l ≡ l'
    → open_grammar (char_literal b'{') (b'{' ∷ l) ≡ some (empty, l')
unfolding is_prefix
open_brace l l' e = ap (λ l. some (empty, l)) e

pub comma_text :
    (l l' : List ℕ)
    → skip_blanks l ≡ l'
    → separator_grammar (char_literal b',') (b',' ∷ l) ≡ some (empty, l')
unfolding is_prefix one_of
comma_text l l' e = ap (λ l. some (empty, l)) e

pub colon_text :
    (l l' : List ℕ)
    → skip_blanks l ≡ l'
    → separator_grammar (char_literal b':') (b':' ∷ l) ≡ some (empty, l')
unfolding is_prefix one_of
colon_text l l' e = ap (λ l. some (empty, l)) e

pub no_comma :
    (l l' : List ℕ)
    → skip_blanks l ≡ l'
    → word_grammar (char_literal b',') l' ≡ none
    → separator_grammar (char_literal b',') l ≡ none
no_comma l l' e e' = rw (e, e') refl

pub close_text :
    (lit : Literal) (l l' rest : List ℕ)
    → skip_blanks l ≡ l'
    → word_grammar lit l' ≡ some (empty, rest)
    → close_grammar lit l ≡ some (empty, rest)
close_text lit l l' rest e e' = rw (e, e') refl

pub entry_text :
    {K V : Type 0} (gk : Grammar K) (gv : Grammar V) (k : K) (v : V) (l l1 l2 rest : List ℕ)
    → gk l ≡ some (k, l1)
    → separator_grammar (char_literal b':') l1 ≡ some (empty, l2)
    → gv l2 ≡ some (v, rest)
    → entry_grammar (char_literal b':') gk gv l ≡ some ((k, v), rest)
entry_text gk gv k v l l1 l2 rest e e1 e2 = rw (e, e1, e2) refl
