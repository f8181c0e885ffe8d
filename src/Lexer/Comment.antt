-- ===== src/Lexer/Comment.antt =====
-- stage0/src/frontend/lexer/lexer_impl.rs: the kinds of comments.
use kore_lang.Base.{ℕ, ◌==◌, Bool, true, false, ◌&&◌, ◌||◌, [], ◌∷◌, if◌then◌else◌}
use kore_lang.Lexer.Tokens.{Bytes, CommentKind}

unfoldable pub trim_body : Bytes → Bytes
trim_body [] = []
trim_body (b ∷ bs) = if b == b' ' then trim_body bs else b ∷ bs

-- `u8::is_ascii_whitespace`.
abbrev pub is_ascii_whitespace : ℕ → Bool
is_ascii_whitespace b = b == b' ' || b == b'\t' || b == b'\n' || b == 12 || b == b'\r'

unfoldable pub is_body_boundary : Bytes → Bool
is_body_boundary [] = true
is_body_boundary (b ∷ bs) = is_ascii_whitespace b

abbrev pub starts_with_bar : Bytes → Bool
starts_with_bar [] = false
starts_with_bar (b ∷ bs) = b == b'-' || b == b'/'

-- The text after the two dashes or slashes.
unfoldable pub classify_rest : Bytes → CommentKind × Bytes
unfolding trim_body is_body_boundary
classify_rest [] = (CommentKind.line, [])
classify_rest (b ∷ bs) =
    if b == b'-' || b == b'/'
    then (if starts_with_bar bs
        then (CommentKind.line, trim_body (b ∷ bs))
        else (CommentKind.item_doc, trim_body bs))
    else if b == b'!'
    then (CommentKind.module_doc, trim_body bs)
    else if b == b'~'
    then (CommentKind.test_annot, trim_body bs)
    else if b == b'='
    then (if is_body_boundary bs
        then (CommentKind.contract, trim_body bs)
        else (CommentKind.line, trim_body (b ∷ bs)))
    else (CommentKind.line, trim_body (b ∷ bs))

unfoldable pub classify_comment : Bytes → CommentKind × Bytes
unfolding classify_rest
classify_comment (a ∷ b ∷ rest) =
    if (a == b'-' && b == b'-') || (a == b'/' && b == b'/')
    then classify_rest rest
    else (CommentKind.line, a ∷ b ∷ rest)
classify_comment text = (CommentKind.line, text)
