-- ===== src/Conf/Refused.antt =====
-- The errors of `_cfuconf_parse_list` of src/cfuconf.c at closing tags.
use libcfu.Common.{
  ℕ, ◌+◌, ◌≡◌, refl, sym, ap, ◌∙◌, subst, true, false, Option, none, some, List, [], ◌∷◌, ◌++◌,
  arith, length, get_or, ok, fault,
}
use libcfu.Conf.Lexer.{Bytes}
use libcfu.Conf.Words.{IsWord, get_name-word}
use libcfu.Conf.Dict.{same_name, same_name_trans, same_name-sym}
use libcfu.Conf.Parse.{
  blank, Message, Parser, failed, unmatched, close_tag, enter, current, parse_line, parse_lines,
  parse_list, initial,
}
use libcfu.Conf.Items.{
  IsType, Items, print, Printable, open_line, close_line, parse_line-open, parse_line-close,
}
use libcfu.Conf.Valid.{HasType, HasType-Later}
use libcfu.Conf.Moves.{enter-Entered}
use libcfu.Conf.Balanced.{build, build-Kept, parse_lines-print, parse_lines-cons, initial-IsValid}

-- One of another type is refused, with the type that was opened.
close_tag-unmatched :
    (k : ℕ) (q : Parser) (type t : Bytes)
    → IsWord type
    → (current q).container_type ≡ some t
    → same_name (some type) (some t) ≡ false
    → close_tag k q (type ++ b'>' ∷ []) ≡ ok (failed (some (unmatched k t)))
unfolding close_tag
close_tag-unmatched k q type t w e other =
    rw (close_tag, get_name-word type (b'>' ∷ []) w refl, e, other)

close_tag-outside :
    (k : ℕ) (q : Parser) (type : Bytes)
    → IsWord type
    → (current q).container_type ≡ none
    → close_tag k q (type ++ b'>' ∷ []) ≡ fault
unfolding close_tag
close_tag-outside k q type w e = rw (close_tag, get_name-word type (b'>' ∷ []) w refl, e)

-- The parse ends at a line that does not give a state.
parse_lines-failed :
    (k : ℕ) (p : Parser) (l : Bytes) (lines : List Bytes) (e : Option Message)
    → parse_line (k + 1) p l ≡ ok (failed e)
    → parse_lines k p (l ∷ lines) ≡ ok (failed e)
unfolding parse_lines
parse_lines-failed k p l lines e h = rw h

parse_lines-fault :
    (k : ℕ) (p : Parser) (l : Bytes) (lines : List Bytes)
    → parse_line (k + 1) p l ≡ fault
    → parse_lines k p (l ∷ lines) ≡ fault
unfolding parse_lines
parse_lines-fault k p l lines h = rw h

-- A printed configuration followed by a closing tag, with no section open, makes `strcasecmp` read
-- through the null pointer that the outermost container has for its type.
pub parse_list-stray_close :
    (items : Items) (type : Bytes) (more : List Bytes)
    → Printable items
    → IsWord type
    → parse_list (print items ++ close_line type ∷ more) ≡ fault
unfolding parse_list
parse_list-stray_close items type more h w =
    let k = 0 + length (print items) in
    let q = build items initial in
    let kept = build-Kept items initial initial-IsValid in
    let outside : (current q).container_type ≡ none =
      ap (λ i. (get_or q.confs i blank).container_type) kept.cur
      ∙ kept.later.types 0 (omega arith) in
    parse_lines-print items 0 initial (close_line type ∷ more) h initial-IsValid
    ∙ parse_lines-fault k q (close_line type) more
        (parse_line-close (k + 1) q type w ∙ close_tag-outside (k + 1) q type w outside)

-- Behind lines that are printed from directives and sections, a section that is closed with another type
-- is refused: the call that makes the error text is passed the number of the closing line, as a `size_t`,
-- and the type that the section was opened with, up to its case. What text the call makes of them is not
-- said. Names, types and values are words, as in what is printed.
pub parse_list-unmatched :
    (ahead body : Items) (type name wrong : Bytes) (more : List Bytes)
    → Printable ahead
    → Printable body
    → IsWord type
    → IsType type
    → IsWord name
    → IsWord wrong
    → same_name (some wrong) (some type) ≡ false
    → (t : Bytes) × (parse_list
          (print ahead ++ open_line type name ∷ (print body ++ close_line wrong ∷ more))
        ≡ ok (failed (some (unmatched (length (print ahead) + 1 + length (print body) + 1) t))))
      × (same_name (some type) (some t) ≡ true)
unfolding parse_list
parse_list-unmatched ahead body type name wrong more ha hb w ty n ww other =
    let k = 0 + length (print ahead) in
    let p = build ahead initial in
    let kept = build-Kept ahead initial initial-IsValid in
    let e = enter-Entered p type (some name) kept.valid in
    let b = build-Kept body (enter p type (some name)) e.valid in
    let q = build body (enter p type (some name)) in
    let (t, at, same) =
      subst (HasType q.confs (some type)) (sym b.cur)
        (HasType-Later _ q.confs (some type) _ b.later e.valid.cur e.has) in
    let n' = k + 1 + length (print body) in
    let differs : same_name (some wrong) (some t) ≡ false =
      same_name-sym (some wrong) (some t)
      ∙ sym (same_name_trans (some type) (some t) (some wrong) same)
      ∙ (same_name-sym (some type) (some wrong) ∙ other) in
    (
      t,
      parse_lines-print ahead 0 initial _ ha initial-IsValid
          ∙ parse_lines-cons k p _ (open_line type name) _
              (parse_line-open (k + 1) p type name w ty n)
          ∙ parse_lines-print body (k + 1) (enter p type (some name)) (close_line wrong ∷ more) hb
              e.valid
          ∙ parse_lines-failed n' q (close_line wrong) more _ (
              parse_line-close (n' + 1) q wrong ww
              ∙ close_tag-unmatched (n' + 1) q wrong t ww at differs)
          ∙ ap (λ m. ok (failed (some (unmatched m t)))) (omega arith),
      same,
    )
