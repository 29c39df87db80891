-- ===== src/Conf/Balanced.antt =====
-- What `_cfuconf_parse_list` of src/cfuconf.c makes of a printed configuration.
use libcfu.Common.{
  ℕ, zero, suc, ◌+◌, ◌≡◌, refl, sym, ap, ◌∙◌, subst, none, some, List, [], ◌∷◌, ◌++◌, append-nil,
  append_assoc, arith, length, get_or, length-append, ok,
}
use libcfu.Common.{
  ℕ, zero, suc, ◌+◌, ◌≡◌, refl, sym, ap, ◌∙◌, subst, none, some, List, [], ◌∷◌, ◌++◌, append-nil,
  append_assoc, arith, length, get_or, length-append, ok,
}
use libcfu.Conf.Lexer.{Bytes}
use libcfu.Conf.Words.{spaced, IsWord, get_name-word}
use libcfu.Conf.Parse.{
  Parser, parsed, close_tag, enter, add_directive, parse_line, parse_lines, parse_list, initial,
  blank, or_empty,
}
use libcfu.Conf.Items.{
  Items, nothing, line, section, print, Printable, open_line, close_line, parse_line-line,
  parse_line-open, parse_line-close,
}
use libcfu.Conf.Dict.{lookup}
use libcfu.Hash.Value.{Key}
use libcfu.Conf.Meaning.{Meaning, no_items, said, inside, opened, meaning, Represents}
use libcfu.Conf.Stored.{said-Represents, enter-Represents}
use libcfu.Conf.Valid.{
  IsValid, Later, Later-refl, Later-trans, HasType, HasType-Later, blank-TypedAt, TypedAt,
  AllBelow-more,
}
use libcfu.Conf.Moves.{add_directive-stack, add_directive-cur, add_directive-IsValid, enter-Entered}

-- The state behind the items: directives go to the current container, a section's items to the
-- container that it names, and the current container is again the one before it.
unfoldable pub build : Items → Parser → Parser
build nothing p = p
build (line name values rest) p = build rest (add_directive p (some name) values)
build (section type name body rest) p =
    build rest
      (record (build body (enter p type (some name))) { stack = p.stack; cur_conf = p.cur_conf })

pub record Kept (p q : Parser) : Type 0 where
  pub valid : IsValid q
  pub later : Later p.confs q.confs
  pub stack : q.stack ≡ p.stack
  pub cur : q.cur_conf ≡ p.cur_conf

left-IsValid :
    (p q : Parser)
    → IsValid p
    → IsValid q
    → Later p.confs q.confs
    → IsValid (record q { stack = p.stack; cur_conf = p.cur_conf })
left-IsValid p q v w later = record {
  cur = omega (arith, v.cur, later.more);
  stack = AllBelow-more (length p.confs) (length q.confs) p.stack later.more v.stack;
  typed = w.typed;
}

pub build-Kept : (items : Items) (p : Parser) → IsValid p → Kept p (build items p)
unfolding build
build-Kept nothing p v = record { valid = v; later = Later-refl p.confs; stack = refl; cur = refl }
build-Kept (line name values rest) p v =
    let (w, later) = add_directive-IsValid p (some name) values v in
    let k = build-Kept rest (add_directive p (some name) values) w in
    record {
      valid = k.valid;
      later = Later-trans p.confs _ _ later k.later;
      stack = k.stack ∙ add_directive-stack p (some name) values;
      cur = k.cur ∙ add_directive-cur p (some name) values;
    }
build-Kept (section type name body rest) p v =
    let e = enter-Entered p type (some name) v in
    let b = build-Kept body (enter p type (some name)) e.valid in
    let q = build body (enter p type (some name)) in
    let later = Later-trans p.confs _ q.confs e.later b.later in
    let r =
      build-Kept rest (record q { stack = p.stack; cur_conf = p.cur_conf })
        (left-IsValid p q v b.valid later) in
    record {
      valid = r.valid;
      later = Later-trans p.confs q.confs _ later r.later;
      stack = r.stack;
      cur = r.cur;
    }

-- That state stores what the items mean.
build-Represents :
    (items : Items) (p : Parser) (m : Meaning)
    → IsValid p
    → Represents p.confs m
    → Represents (build items p).confs (meaning items p.cur_conf m)
unfolding build meaning
build-Represents nothing p m v rep = rep
build-Represents (line name values rest) p m v rep =
    let (w, later) = add_directive-IsValid p (some name) values v in
    subst
      (λ at.
        Represents (build rest (add_directive p (some name) values)).confs
          (meaning rest at (said m p.cur_conf name values)))
      (add_directive-cur p (some name) values)
      (build-Represents rest (add_directive p (some name) values) (said m p.cur_conf name values) w
        (said-Represents p m v.cur rep name values))
build-Represents (section type name body rest) p m v rep =
    let e = enter-Entered p type (some name) v in
    let inner = enter p type (some name) in
    let b = build-Kept body inner e.valid in
    let q = build body inner in
    let (rep₁, at) = enter-Represents p m v.cur rep type name in
    let later = Later-trans p.confs _ q.confs e.later b.later in
    let n = opened m p.cur_conf type name in
    build-Represents rest (record q { stack = p.stack; cur_conf = p.cur_conf })
      (meaning body (inside m p.cur_conf type name) n) (left-IsValid p q v b.valid later)
      (subst (λ i. Represents q.confs (meaning body i n)) at
        (build-Represents body inner n e.valid rep₁))

-- A closing tag of the type of the current container leaves it, in any spelling.
close_tag-leaves :
    (k : ℕ) (q : Parser) (type : Bytes) (top : ℕ) (stack : List ℕ)
    → IsWord type
    → HasType q.confs (some type) q.cur_conf
    → q.stack ≡ top ∷ stack
    → close_tag k q (type ++ b'>' ∷ []) ≡ ok (parsed (record q { stack = stack; cur_conf = top }))
unfolding close_tag
close_tag-leaves k q type top stack w (t, e, same) below =
    rw (close_tag, get_name-word type (b'>' ∷ []) w refl, e, same, below)

pub parse_lines-cons :
    (k : ℕ) (p p' : Parser) (l : Bytes) (lines : List Bytes)
    → parse_line (k + 1) p l ≡ ok (parsed p')
    → parse_lines k p (l ∷ lines) ≡ parse_lines (k + 1) p' lines
unfolding parse_lines
parse_lines-cons k p p' l lines e = rw e

-- Printed items are read into the state that they mean, whatever lines are behind them.
pub parse_lines-print :
    (items : Items) (k : ℕ) (p : Parser) (more : List Bytes)
    → Printable items
    → IsValid p
    → parse_lines k p (print items ++ more)
      ≡ parse_lines (k + length (print items)) (build items p) more
unfolding build
parse_lines-print nothing k p more h v = let e : k + 0 ≡ k = omega arith in rw e
parse_lines-print (line name values rest) k p more h v =
    let (w, later) = add_directive-IsValid p (some name) values v in
    parse_lines-cons k p _ (name ++ spaced values) (print rest ++ more)
      (parse_line-line (k + 1) p name values h.0 h.1 h.2)
    ∙ parse_lines-print rest (k + 1) (add_directive p (some name) values) more h.3 w
    ∙ ap (λ n. parse_lines n (build rest (add_directive p (some name) values)) more) (omega arith)
parse_lines-print (section type name body rest) k p more h v =
    let e = enter-Entered p type (some name) v in
    let b = build-Kept body (enter p type (some name)) e.valid in
    let q = build body (enter p type (some name)) in
    let left : Parser = record q { stack = p.stack; cur_conf = p.cur_conf } in
    let later = Later-trans p.confs _ q.confs e.later b.later in
    let has = HasType-Later _ q.confs (some type) _ b.later e.valid.cur e.has in
    let closed =
      parse_line-close (k + 1 + length (print body) + 1) q type h.0
      ∙ close_tag-leaves _ q type p.cur_conf p.stack h.0
          (subst (HasType q.confs (some type)) (sym b.cur) has) (b.stack ∙ e.stack) in
    let lines = print rest ++ more in
    parse_lines-cons k p _ (open_line type name) _ (parse_line-open (k + 1) p type name h.0 h.1 h.2)
    ∙ ap (parse_lines (k + 1) (enter p type (some name)))
        (append_assoc (print body) (close_line type ∷ print rest) more)
    ∙ parse_lines-print body (k + 1) (enter p type (some name)) (close_line type ∷ lines) h.3
        e.valid
    ∙ parse_lines-cons (k + 1 + length (print body)) q left (close_line type) lines closed
    ∙ parse_lines-print rest (k + 1 + length (print body) + 1) left more h.4
        (left-IsValid p q v b.valid later)
    ∙ ap (λ n. parse_lines n (build rest left) more)
        (omega (arith, length-append (print body) (close_line type ∷ print rest)))

first-TypedAt : (i : ℕ) → TypedAt initial.confs (get_or initial.confs i blank)
first-TypedAt zero = blank-TypedAt initial.confs none none
first-TypedAt (suc i) = blank-TypedAt initial.confs none none

pub initial-IsValid : IsValid initial
initial-IsValid = record { cur = omega arith; stack = tt; typed = λ i. first-TypedAt i }

initial-Represents : Represents initial.confs no_items
unfolding lookup
initial-Represents = record {
  count = refl;
  values = first_values;
  inner = first_inner;
  title = first_title;
}
  where
    first_values :
        (i : ℕ) (k : Key) → or_empty (lookup (get_or initial.confs i blank).directives k) ≡ []
    first_values zero k = refl
    first_values (suc i) k = refl

    first_inner :
        (i : ℕ) (t n : Key)
        → lookup (or_empty (lookup (get_or initial.confs i blank).containers t)) n ≡ none
    first_inner zero t n = refl
    first_inner (suc i) t n = refl

    first_title :
        (i : ℕ)
        → ◌≡◌ {A = Key × Key}
            (
              (get_or initial.confs i blank).container_type,
              (get_or initial.confs i blank).container_name,
            )
            (none, none)
    first_title zero = refl
    first_title (suc i) = refl

-- A configuration of directives and nested sections, printed line by line, is read without an error. The
-- containers are stored as the configuration means them: each directive, up to its case, has in each
-- container the values of its lines there, in order, each section has the container of its type and name
-- within the one around it, and a new one where there is none, with that type and name. The state is
-- well-formed, with all sections closed. Names, types and values are words: not empty, without
-- whitespace and `>`. A directive does not start with `#` or `<`, a type not with `/`, and a value not
-- with a quote.
pub parse_list-print :
    (items : Items)
    → Printable items
    → (q : Parser) × (parse_list (print items) ≡ ok (parsed q))
      × Represents q.confs (meaning items 0 no_items)
      × IsValid q
      × (q.stack ≡ [])
      × (q.cur_conf ≡ 0)
unfolding parse_list
parse_list-print items h =
    let q = build items initial in
    let kept = build-Kept items initial initial-IsValid in
    let ended : parse_lines (0 + length (print items)) q [] ≡ ok (parsed q) =
      unfold parse_lines in refl in
    (
      q,
      ap (parse_lines 0 initial) (sym (append-nil (print items)))
          ∙ parse_lines-print items 0 initial [] h initial-IsValid
          ∙ ended,
      build-Represents items initial no_items initial-IsValid initial-Represents,
      kept.valid,
      kept.stack,
      kept.cur,
    )
