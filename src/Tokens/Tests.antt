-- ===== src/Tokens/Tests.antt =====
-- The theorems on the token replacement at a concrete item: `fn f { f g }` with f replaced by g.
use hamerkop.Base.{ℕ, ◌≡◌, refl, ◌==◌}
use hamerkop.Tokens.{
  Lexer, TokenStream, Meta, ParseResult, token_replace, group, ident, other, empty, cons, ok, err,
}
use hamerkop.Tokens.Replace.{substitute, IsFree, token_replace_lem}

abbrev numbers : Lexer
numbers = record { Delimiter = ℕ; Ident = ℕ; Other = ℕ; same_text = λ a b. a == b }

abbrev item : TokenStream numbers
item =
    cons (other 0) (cons (ident 6) (cons (group 1 (cons (ident 6) (cons (ident 7) empty))) empty))

abbrev meta : Meta numbers
meta = record { search = 6; replace = cons (ident 7) empty }

abbrev parse : TokenStream numbers → ParseResult (Meta numbers) ℕ
parse empty = err 0
parse (cons t s) = ok meta

abbrev to_compile_error : ℕ → TokenStream numbers
to_compile_error e = cons (other e) empty

token_replace_lem_example :
    token_replace parse to_compile_error item item
    ≡ elim (parse item) [ ok m ↦ substitute m item | err e ↦ to_compile_error e ]
token_replace_lem_example = token_replace_lem parse to_compile_error item item

IsFree-replacement : IsFree {L = numbers} 6 (cons (ident 7) empty)
unfolding IsFree
IsFree-replacement = (refl, tt)
