-- ===== src/Lexer/Tokens.antt =====
-- stage0/src/frontend/lexer/token.rs and keywords.rs: tokens and the table of keywords. A text of the
-- source is the list of its bytes.
use Prim.Native.Char.{code}
use kore_lang.Base.{ℕ, ◌==◌, Bool, true, false, ◌&&◌, List, [], ◌∷◌, String, if◌then◌else◌}
use kore_lang.Diag.{Span}

abbrev pub Bytes : Type 0
Bytes = List ℕ

pub data CommentKind : Type 0 where
  line item_doc module_doc test_annot contract : CommentKind

pub data TokenKind : Type 0 where
  ident keyword int float str : Bytes → TokenKind
  punct : String → TokenKind
  comment : CommentKind → Bytes → TokenKind
  eof : TokenKind

pub record Token : Type 0 where
  pub kind : TokenKind
  pub span : Span

unfoldable pub is_comment : Token → Bool
is_comment t = elim t.kind [ TokenKind.comment kind body ↦ true | _ ↦ false ]

-- The bytes of an ASCII text.
abbrev pub bytes_of : String → Bytes
bytes_of String.[] = []
bytes_of (String.◌∷◌ c s) = code c ∷ bytes_of s

abbrev pub keywords : List String
keywords =
    "pub" ∷ "impl" ∷ "trait" ∷ "use" ∷ "own" ∷ "vol" ∷ "dyn" ∷ "as" ∷ "is" ∷ "ret" ∷ "jmp" ∷ "stop"
    ∷ "skip" ∷ "defer" ∷ "and" ∷ "or" ∷ "not" ∷ "xor" ∷ "inv" ∷ "rol" ∷ "ror" ∷ "asm" ∷ "unsafe"
    ∷ []

abbrev pub same_bytes : Bytes → Bytes → Bool
same_bytes [] [] = true
same_bytes (x ∷ xs) (y ∷ ys) = x == y && same_bytes xs ys
same_bytes _ _ = false

abbrev pub in_table : List String → Bytes → Bool
in_table [] word = false
in_table (k ∷ ks) word = if same_bytes (bytes_of k) word then true else in_table ks word

unfoldable pub is_keyword : Bytes → Bool
is_keyword word = in_table keywords word
