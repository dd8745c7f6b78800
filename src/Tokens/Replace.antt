-- ===== src/Tokens/Replace.antt =====
-- tokenreplace/src/lib.rs: what the walk leaves of a stream.
use hamerkop.Base.{◌≡◌, refl, ◌∙◌, ap, sym, true, false, if◌then◌else◌, arith}
use hamerkop.Tokens.{
  Lexer, TokenTree, TokenStream, ParseResult, Meta, extend, walk_stream, walk_tree, token_replace,
  group, ident, other, empty, cons, ok, err,
}

module _ {L : Lexer} where
  extend_empty : (s : TokenStream L) → extend s empty ≡ s
  extend_empty empty = refl
  extend_empty (cons t s) = ap (cons t) (extend_empty s)

  extend_assoc : (a b c : TokenStream L) → extend (extend a b) c ≡ extend a (extend b c)
  extend_assoc empty b c = refl
  extend_assoc (cons t a) b c = ap (cons t) (extend_assoc a b c)

  -- The substitution that the walk implements: no accumulator, one tree at a time.
  mutual
    pub substitute : Meta L → TokenStream L → TokenStream L
    substitute meta empty = empty
    substitute meta (cons t s) = extend (expand meta t) (substitute meta s)

    pub expand : Meta L → TokenTree L → TokenStream L
    expand meta (group d s) = cons (group d (substitute meta s)) empty
    expand meta (ident i) = if L.same_text i meta.search then meta.replace else cons (ident i) empty
    expand meta (other x) = cons (other x) empty

  mutual
    unfolding walk_stream substitute

    walk_stream_lem :
        (meta : Meta L) (s out : TokenStream L)
        → walk_stream meta s out ≡ extend out (substitute meta s)
    walk_stream_lem meta empty out = sym (extend_empty out)
    walk_stream_lem meta (cons t s) out =
        walk_stream_lem meta s (walk_tree meta t out)
        ∙ ap (λ o. extend o (substitute meta s)) (walk_tree_lem meta t out)
        ∙ extend_assoc out (expand meta t) (substitute meta s)

    walk_tree_lem :
        (meta : Meta L) (t : TokenTree L) (out : TokenStream L)
        → walk_tree meta t out ≡ extend out (expand meta t)
    walk_tree_lem meta (group d s) out =
        ap (λ r. extend out (cons (group d r) empty)) (walk_stream_lem meta s empty)
    walk_tree_lem meta (ident i) out = ground arith
    walk_tree_lem meta (other x) out = refl

  -- No identifier of the stream, at any depth, has the text.
  unfoldable mutual
    pub IsFree : L.Ident → TokenStream L → Type 0
    IsFree name empty = Unit
    IsFree name (cons t s) = IsFreeTree name t × IsFree name s

    pub IsFreeTree : L.Ident → TokenTree L → Type 0
    IsFreeTree name (group d s) = IsFree name s
    IsFreeTree name (ident i) = L.same_text i name ≡ false
    IsFreeTree name (other x) = Unit

  mutual
    unfolding substitute IsFree

    substitute_free :
        (meta : Meta L) (s : TokenStream L) → IsFree meta.search s → substitute meta s ≡ s
    substitute_free meta empty h = refl
    substitute_free meta (cons t s) h =
        ap (λ r. extend (expand meta t) r) (substitute_free meta s h.1)
        ∙ ap (λ r. extend r s) (expand_free meta t h.0)

    expand_free :
        (meta : Meta L) (t : TokenTree L) → IsFreeTree meta.search t → expand meta t ≡ cons t empty
    expand_free meta (group d s) h = ap (λ r. cons (group d r) empty) (substitute_free meta s h)
    expand_free meta (ident i) h = rw (h) refl
    expand_free meta (other x) h = refl

  extend-IsFree :
      (name : L.Ident) (a b : TokenStream L)
      → IsFree name a
      → IsFree name b
      → IsFree name (extend a b)
  unfolding IsFree
  extend-IsFree name empty b h k = k
  extend-IsFree name (cons t a) b h k = (h.0, extend-IsFree name a b h.1 k)

  mutual
    unfolding substitute IsFree

    substitute-IsFree :
        (meta : Meta L) (s : TokenStream L)
        → IsFree meta.search meta.replace
        → IsFree meta.search (substitute meta s)
    substitute-IsFree meta empty h = tt
    substitute-IsFree meta (cons t s) h =
        extend-IsFree meta.search (expand meta t) (substitute meta s) (expand-IsFree meta t h)
          (substitute-IsFree meta s h)

    expand-IsFree :
        (meta : Meta L) (t : TokenTree L)
        → IsFree meta.search meta.replace
        → IsFree meta.search (expand meta t)
    expand-IsFree meta (group d s) h = (substitute-IsFree meta s h, tt)
    expand-IsFree meta (ident i) h =
        elim (L.same_text i meta.search)
            as (λ b.
              b ≡ L.same_text i meta.search
              → IsFree meta.search (if b then meta.replace else cons (ident i) empty)) [
                | true ↦ λ e. h
                | false ↦ λ e. (sym e, tt)
              ]
          refl
    expand-IsFree meta (other x) h = (tt, tt)

  -- Where the arguments parse, the expansion is the substitution of the replacement for every identifier, at any
  -- depth, whose text is that of the one searched for, group by group; where they do not, the compile error takes the
  -- place of the whole item.
  pub token_replace_lem :
      {E : Type 0} (parse : TokenStream L → ParseResult (Meta L) E)
      (to_compile_error : E → TokenStream L) (attr input : TokenStream L)
      → token_replace parse to_compile_error attr input
        ≡ elim (parse attr) [ ok meta ↦ substitute meta input | err e ↦ to_compile_error e ]
  unfolding token_replace
  token_replace_lem parse to_compile_error attr input =
      elim (parse attr)
        as (λ r.
          elim r [ ok meta ↦ walk_stream meta input empty | err e ↦ to_compile_error e ]
          ≡ elim r [ ok meta ↦ substitute meta input | err e ↦ to_compile_error e ]) [
            | ok meta ↦ walk_stream_lem meta input empty
            | err e ↦ refl
          ]

  expands :
      {E : Type 0} (parse : TokenStream L → ParseResult (Meta L) E)
      (to_compile_error : E → TokenStream L) (attr input : TokenStream L) (meta : Meta L)
      → parse attr ≡ ok meta
      → token_replace parse to_compile_error attr input ≡ substitute meta input
  expands parse to_compile_error attr input meta h =
      rw (token_replace_lem parse to_compile_error attr input, h) refl

  -- Where the arguments parse, and the replacement has no identifier with the text searched for, none is left at any
  -- depth, and expanding the result once more, with the same arguments, changes nothing.
  pub token_replace-IsFree :
      {E : Type 0} (parse : TokenStream L → ParseResult (Meta L) E)
      (to_compile_error : E → TokenStream L) (attr input : TokenStream L) (meta : Meta L)
      → parse attr ≡ ok meta
      → IsFree meta.search meta.replace
      → IsFree meta.search (token_replace parse to_compile_error attr input)
        × (token_replace parse to_compile_error attr
              (token_replace parse to_compile_error attr input)
            ≡ token_replace parse to_compile_error attr input)
  token_replace-IsFree parse to_compile_error attr input meta h free =
      let once = expands parse to_compile_error attr input meta h in
      let gone = substitute-IsFree meta input free in
      (
        rw (once) gone,
        rw (once, expands parse to_compile_error attr (substitute meta input) meta h)
            (substitute_free meta _ gone),
      )
