-- ===== src/Conf/Items.antt =====
-- Configurations as they are written: the lines that src/cfuconf.c reads for them, and what they mean.
use libcfu.Common.{ℕ, ◌+◌, ◌≡◌, refl, false, some, List, [], ◌∷◌, ◌++◌, arith, ◌==◌, length, ok}
use libcfu.Conf.Lexer.{Bytes, eat_whitespace}
use libcfu.Conf.Words.{
  IsWord, AllValues, spaced, args, get_name-word, get_value-word, get_values-args, eat-spaced,
  eat-word, spaced-Ends,
}
use libcfu.Conf.Parse.{
  Parser, parsed, parse_at, parse_line, directive, tag, open_tag, close_tag, add_directive, enter,
}

-- Directives and sections, one after another; a section has a type, a name and items of its own.
pub data Items : Type 0 where
  nothing : Items
  line : (name : Bytes) → (values : List Bytes) → Items → Items
  section : (type name : Bytes) → (body rest : Items) → Items

abbrev pub open_line : (type name : Bytes) → Bytes
open_line type name = b'<' ∷ (type ++ b' ' ∷ (name ++ b'>' ∷ []))

abbrev pub close_line : (type : Bytes) → Bytes
close_line type = b'<' ∷ b'/' ∷ (type ++ b'>' ∷ [])

abbrev pub print : Items → List Bytes
print nothing = []
print (line name values rest) = (name ++ spaced values) ∷ print rest
print (section type name body rest) =
    open_line type name ∷ (print body ++ close_line type ∷ print rest)

-- A word that does not start as a comment or a tag.
abbrev pub IsDirective : Bytes → Type 0
IsDirective [] = Unit
IsDirective (c ∷ w) = ((c == b'#') ≡ false) × ((c == b'<') ≡ false)

-- A type that a closing tag is not taken for.
abbrev pub IsType : Bytes → Type 0
IsType [] = Unit
IsType (c ∷ w) = (c == b'/') ≡ false

abbrev pub Printable : Items → Type 0
Printable nothing = Unit
Printable (line name values rest) =
    IsWord name × IsDirective name × AllValues values × Printable rest
Printable (section type name body rest) =
    IsWord type × IsType type × IsWord name × Printable body × Printable rest

directive-line :
    (p : Parser) (name : Bytes) (values : List Bytes)
    → IsWord name
    → AllValues values
    → directive p (name ++ spaced values) ≡ ok (parsed (add_directive p (some name) values))
unfolding directive
directive-line p name values w v =
    let named = get_name-word name (spaced values) w (spaced-Ends values) in
    rw (
      named,
      eat-spaced values v,
      get_values-args values (length (args values) + 1) v (omega arith),
    )

-- A directive's line adds its values to those of its name in the current container.
pub parse_line-line :
    (k : ℕ) (p : Parser) (name : Bytes) (values : List Bytes)
    → IsWord name
    → IsDirective name
    → AllValues values
    → parse_line k p (name ++ spaced values) ≡ ok (parsed (add_directive p (some name) values))
unfolding parse_at
parse_line-line k p [] values w d v = absurd (omega (arith, w.some_bytes))
parse_line-line k p (c ∷ name) values w d v =
    rw (eat-word (c ∷ name) (spaced values) w, parse_at, d.0, d.1)
      (directive-line p (c ∷ name) values w v)

open_tag-words :
    (k : ℕ) (p : Parser) (type name : Bytes)
    → IsWord type
    → IsWord name
    → open_tag k p (type ++ b' ' ∷ (name ++ b'>' ∷ [])) ≡ ok (parsed (enter p type (some name)))
unfolding open_tag
open_tag-words k p type name t w =
    let named = get_name-word type (b' ' ∷ (name ++ b'>' ∷ [])) t refl in
    let valued = get_value-word name (b'>' ∷ []) w refl in
    let eaten : eat_whitespace (b' ' ∷ (name ++ b'>' ∷ [])) ≡ name ++ b'>' ∷ [] =
      unfold eat_whitespace in eat-word name (b'>' ∷ []) w in
    rw (open_tag, named, named, eaten, valued)

pub parse_line-open :
    (k : ℕ) (p : Parser) (type name : Bytes)
    → IsWord type
    → IsType type
    → IsWord name
    → parse_line k p (open_line type name) ≡ ok (parsed (enter p type (some name)))
unfolding parse_at eat_whitespace tag
parse_line-open k p [] name t s w = absurd (omega (arith, t.some_bytes))
parse_line-open k p (c ∷ type) name t s w = rw s (open_tag-words k p (c ∷ type) name t w)

pub parse_line-close :
    (k : ℕ) (p : Parser) (type : Bytes)
    → IsWord type
    → parse_line k p (close_line type) ≡ close_tag k p (type ++ b'>' ∷ [])
unfolding parse_at eat_whitespace tag
parse_line-close k p type t = refl
