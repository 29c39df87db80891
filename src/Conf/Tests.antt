-- ===== src/Conf/Tests.antt =====
-- Runs on short configurations, and the theorems of the parser applied to them.
use libcfu.Common.{
  ℕ, ◌+◌, ◌≡◌, refl, true, none, some, List, [], ◌∷◌, ◌++◌, arith, bytes_eq, length, ok, fault,
}
use mathlib.Core.List.{flatten}
use libcfu.Conf.Lexer.{
  in_word, get_next_value, eat_whitespace, word_size, quoted_size, Bytes, get_quoted_value,
  get_values,
}
use libcfu.Strings.Split.{
  c_str_split, split_to_raw, split_loop, room_for, check_sep, find_sep, dup_n, scan_seps,
}
use libcfu.Conf.Words.{IsWord}
use libcfu.Conf.Dict.{same_name}
use libcfu.Conf.Parse.{Parser, Conf, blank, parsed, failed, unmatched, parse_list, parse_buffer}
use libcfu.Conf.Items.{Items, nothing, line, section, print, Printable, open_line, close_line}
use libcfu.Conf.Valid.{IsValid}
use libcfu.Conf.Meaning.{no_items, meaning, Represents}
use libcfu.Conf.Balanced.{parse_list-print}
use libcfu.Conf.Refused.{parse_list-stray_close, parse_list-unmatched}
use libcfu.Conf.Read.{slurp_file}
use libcfu.Conf.Slurp.{slurp_file-flatten}

abbrev port : Bytes
port = b'p' ∷ b'o' ∷ []

abbrev host : Bytes
host = b'h' ∷ []

abbrev upper_host : Bytes
upper_host = b'H' ∷ []

-- po 8 9
-- <h p> po 7 </h>
abbrev ahead : Items
ahead = line port ((b'8' ∷ []) ∷ (b'9' ∷ []) ∷ []) nothing

abbrev body : Items
body = line port ((b'7' ∷ []) ∷ []) nothing

abbrev items : Items
items = line port ((b'8' ∷ []) ∷ (b'9' ∷ []) ∷ []) (section host port body nothing)

port-IsWord : IsWord port
port-IsWord = record { some_bytes = ground arith; inside = (refl, (refl, tt)) }

host-IsWord : IsWord host
host-IsWord = record { some_bytes = ground arith; inside = (refl, tt) }

digit-IsWord : (c : ℕ) → in_word c ≡ true → IsWord (c ∷ [])
digit-IsWord c h = record { some_bytes = ground arith; inside = (h, tt) }

ahead-Printable : Printable ahead
ahead-Printable = (
  port-IsWord,
  (refl, refl),
  (digit-IsWord b'8' refl, refl, (digit-IsWord b'9' refl, refl, tt)),
  tt,
)

body-Printable : Printable body
body-Printable = (port-IsWord, (refl, refl), (digit-IsWord b'7' refl, refl, tt), tt)

items-Printable : Printable items
items-Printable = (
  port-IsWord,
  (refl, refl),
  (digit-IsWord b'8' refl, refl, (digit-IsWord b'9' refl, refl, tt)),
  (host-IsWord, refl, port-IsWord, body-Printable, tt),
)

parse_list-print_example :
    (q : Parser) × (parse_list (print items) ≡ ok (parsed q))
    × Represents q.confs (meaning items 0 no_items)
    × IsValid q
    × (q.stack ≡ [])
    × (q.cur_conf ≡ 0)
parse_list-print_example = parse_list-print items items-Printable

parse_list-stray_close_example : parse_list (print items ++ close_line host ∷ []) ≡ fault
parse_list-stray_close_example = parse_list-stray_close items host [] items-Printable host-IsWord

parse_list-unmatched_example :
    (t : Bytes) × (parse_list
        (print ahead ++ open_line host port ∷ (print body ++ close_line port ∷ []))
      ≡ ok (failed (some (unmatched (length (print ahead) + 1 + length (print body) + 1) t))))
    × (same_name (some host) (some t) ≡ true)
unfolding bytes_eq
parse_list-unmatched_example =
    parse_list-unmatched ahead body host port port [] ahead-Printable body-Printable host-IsWord
      refl port-IsWord port-IsWord refl

slurp_file-flatten_example :
    (lines : List Bytes) × (slurp_file 4 (b'a' ∷ b'\n' ∷ b'b' ∷ []) ≡ ok lines)
    × (flatten lines ≡ b'a' ∷ b'\n' ∷ b'b' ∷ [])
slurp_file-flatten_example =
    slurp_file-flatten (b'a' ∷ b'\n' ∷ b'b' ∷ []) (ground arith, (ground arith, (ground arith, tt)))

-- po 8 9
abbrev two_args : Conf
two_args = record blank { directives = (some port, ((b'8' ∷ []) ∷ (b'9' ∷ []) ∷ []) ∷ []) ∷ [] }

-- a "" b
empty_value_ends :
    get_values 9 (b'a' ∷ b' ' ∷ b'"' ∷ b'"' ∷ b' ' ∷ b'b' ∷ []) ≡ ok ((b'a' ∷ []) ∷ [])
unfolding get_values get_next_value eat_whitespace dup_n word_size get_quoted_value quoted_size
empty_value_ends = refl

-- "a\"", from behind the first quote
escaped_quote_at_end : (get_quoted_value (b'a' ∷ b'\\' ∷ b'"' ∷ b'"' ∷ []) b'"').0 ≡ none
unfolding get_quoted_value quoted_size
escaped_quote_at_end = refl

abbrev text : Bytes
text = b'a' ∷ b' ' ∷ b'1' ∷ b'\n' ∷ b'\n' ∷ b'<' ∷ b'/' ∷ []

-- A blank line hides the lines behind it, such as a stray closing tag.
blank_line_ends : parse_buffer (some text) ≡ parse_buffer (some (b'a' ∷ b' ' ∷ b'1' ∷ []))
unfolding parse_buffer c_str_split split_to_raw split_loop room_for check_sep find_sep dup_n
    scan_seps
blank_line_ends = refl
