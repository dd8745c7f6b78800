-- ===== src/Tokens.antt =====
-- tokenreplace/src/lib.rs. Token trees are those of the standard library: identifiers and their text,
-- delimiters, and the other tokens are parameters, and so is `syn::parse` of the attribute's arguments.
mod Tests
pub mod Replace
use hamerkop.Base.{Bool, true, if◌then◌else◌}

-- what the crates provide: `same_text a b` is `a.to_string() == b.to_string()`
pub record Lexer : Type 1 where
  Delimiter : Type 0
  Ident : Type 0
  Other : Type 0
  same_text : Ident → Ident → Bool

mutual
  pub data TokenTree (L : Lexer) : Type 0 where
    group : L.Delimiter → TokenStream L → TokenTree L
    ident : L.Ident → TokenTree L
    other : L.Other → TokenTree L

  pub data TokenStream (L : Lexer) : Type 0 where
    empty : TokenStream L
    cons : TokenTree L → TokenStream L → TokenStream L

pub data ParseResult (M E : Type 0) : Type 0 where
  ok : M → ParseResult M E
  err : E → ParseResult M E

pub record Meta (L : Lexer) : Type 0 where
  search : L.Ident
  replace : TokenStream L

module _ {L : Lexer} where
  -- `to_tokens` puts what it writes behind the stream it is given.
  abbrev pub extend : TokenStream L → TokenStream L → TokenStream L
  extend empty ts = ts
  extend (cons t out) ts = cons t (extend out ts)

  abbrev pub push_tree : TokenTree L → TokenStream L → TokenStream L
  push_tree t out = extend out (cons t empty)

  unfoldable mutual
    pub walk_stream : Meta L → TokenStream L → TokenStream L → TokenStream L
    walk_stream meta empty out = out
    walk_stream meta (cons tree stream) out = walk_stream meta stream (walk_tree meta tree out)

    pub walk_tree : Meta L → TokenTree L → TokenStream L → TokenStream L
    walk_tree meta (group delimiter stream) out =
        push_tree (group delimiter (walk_stream meta stream empty)) out
    walk_tree meta (ident i) out =
        if L.same_text i meta.search then extend out meta.replace else push_tree (ident i) out
    walk_tree meta (other x) out = push_tree (other x) out

  unfoldable pub token_replace :
      {E : Type 0} (parse : TokenStream L → ParseResult (Meta L) E)
      (to_compile_error : E → TokenStream L)
      → TokenStream L
      → TokenStream L
      → TokenStream L
  token_replace parse to_compile_error attr input = elim (parse attr) [
    | ok meta ↦ walk_stream meta input empty
    | err e ↦ to_compile_error e
  ]
