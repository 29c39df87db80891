-- ===== src/Opt/Kept.antt =====
-- The words that `cfuopt_parse` of src/cfuopt.c leaves in the array.
use libcfu.Common.{
  ℕ, ◌+◌, ◌≤◌, ◌≡◌, refl, sym, ap, ◌∙◌, subst, ◌⊎◌, inl, inr, Bool, true, false, ◌||◌, Option, none,
  some, List, [], ◌∷◌, ◌++◌, append-nil, append_assoc, arith, ltb, Bool-cases, Option-cases, length,
  set, take, length-append, Returns,
}
use libcfu.Conf.Lexer.{Bytes}
use libcfu.Opt.Spec.{ArgType, arg_bool, arg_string, arg_int, arg_float}
use libcfu.Opt.Context.{Entry, Context, get_entry}
use libcfu.Opt.Args.{check_arg}
use libcfu.Opt.Parse.{
  Value, Took, took_one, took_two, took_rest, Parsing, by_type, take_value, next_value, named,
  option, one_arg, parse_args, update_extra, Result, parse,
}

-- Some of the words, in their order.
pub data Sub {A : Type 0} : List A → List A → Type 0 where
  done : Sub [] []
  keep : {x : A} {xs ys : List A} → Sub xs ys → Sub (x ∷ xs) (x ∷ ys)
  skip : {x : A} {xs ys : List A} → Sub xs ys → Sub xs (x ∷ ys)

pub Sub-all : {A : Type 0} (xs : List A) → Sub xs xs
Sub-all [] = done
Sub-all (x ∷ xs) = keep (Sub-all xs)

pub Sub-none : {A : Type 0} (xs : List A) → Sub [] xs
Sub-none [] = done
Sub-none (x ∷ xs) = skip (Sub-none xs)

length-Sub : {A : Type 0} (xs ys : List A) → Sub xs ys → length xs ≤ length ys
length-Sub _ _ done = omega arith
length-Sub (x ∷ xs) (_ ∷ ys) (keep s) = omega (arith, length-Sub xs ys s)
length-Sub xs (y ∷ ys) (skip s) = omega (arith, length-Sub xs ys s)

take-front : (xs ys : List Bytes) → take (length xs) (xs ++ ys) ≡ xs
take-front [] ys = refl
take-front (x ∷ xs) ys = rw (take-front xs ys)

set-next :
    (front ys : List Bytes) (x y : Bytes) → set (front ++ y ∷ ys) (length front) x ≡ front ++ x ∷ ys
set-next [] ys x y = refl
set-next (z ∷ front) ys x y = rw (set-next front ys x y)

update_extra-take :
    (front old extra : List Bytes)
    → length extra ≤ length old
    → Returns
        (update_extra extra (length front) (front ++ old))
        λ argv. take (length front + length extra) argv ≡ front ++ extra
unfolding update_extra
update_extra-take front old [] h = (
  front ++ old,
  refl,
  rw (append-nil front)
      (subst (λ n. take n (front ++ old) ≡ front) (omega arith) (take-front front old)),
)
update_extra-take front [] (x ∷ extra) h = absurd (omega arith)
update_extra-take front (y ∷ old) (x ∷ extra) h =
    let room : ltb (length front) (length (front ++ y ∷ old)) ≡ true =
      ground (arith, length-append front (y ∷ old)) in
    let next : length front + 1 ≡ length (front ++ x ∷ []) =
      omega (arith, length-append front (x ∷ [])) in
    let (argv, e, t) = update_extra-take (front ++ x ∷ []) old extra (omega arith) in
    (
      argv,
      rw (update_extra, room, set-next front old x y, next)
          (ap (update_extra extra (length (front ++ x ∷ [])))
              (sym (append_assoc front (x ∷ []) old))
            ∙ e),
      ap (λ n. take n argv) (omega (arith, next)) ∙ t ∙ append_assoc front (x ∷ []) extra,
    )

module _ {I F : Type 0} (atol : Bytes → I) (atof : Bytes → F) where
  next_value-extra :
      (entry : Entry) (parsed_arg : Option Bytes) (is_data : Bool) (p : Parsing atol atof)
      → (next_value atol atof entry parsed_arg is_data p).0.extra ≡ p.extra
  next_value-extra entry none is_data p = refl
  next_value-extra entry (some parsed_arg) true p = refl
  next_value-extra entry (some parsed_arg) false p = refl

  take_value-extra :
      (entry : Entry) (value next : Option Bytes) (p : Parsing atol atof)
      → (take_value atol atof entry value next p).0.extra ≡ p.extra
  unfolding take_value
  take_value-extra entry (some value) next p = refl
  take_value-extra entry none none p = refl
  take_value-extra entry none (some arg) p =
      next_value-extra entry (check_arg arg).parsed_arg (check_arg arg).is_data p

  by_type-extra :
      (t : ArgType) (flagged valued other : Parsing atol atof × Took) (extra : List Bytes)
      → flagged.0.extra ≡ extra
      → valued.0.extra ≡ extra
      → other.0.extra ≡ extra
      → (by_type t flagged valued other).0.extra ≡ extra
  by_type-extra arg_bool flagged valued other extra f v o = f
  by_type-extra arg_string flagged valued other extra f v o = v
  by_type-extra arg_int flagged valued other extra f v o = v
  by_type-extra arg_float flagged valued other extra f v o = v
  by_type-extra t flagged valued other extra f v o = o

  named-extra :
      (option_map : List (Bytes × Entry)) (parsed_arg value next : Option Bytes)
      (p : Parsing atol atof)
      → (named atol atof option_map parsed_arg value next p).0.extra ≡ p.extra
  unfolding option
  named-extra option_map none value next p = refl
  named-extra option_map (some name) value next p =
      elim (Option-cases (get_entry option_map name)) [
        | inl n ↦ rw n
        | inr (entry, e) ↦ rw e (
            by_type-extra entry.arg_type _ (take_value atol atof entry value next p) (p, took_one)
              p.extra refl (take_value-extra entry value next p) refl)
      ]

  -- A word is kept only when the loop goes on with the next one.
  one_arg-extra :
      (option_map : List (Bytes × Entry)) (arg : Bytes) (next : Option Bytes)
      (p : Parsing atol atof)
      → (let r = one_arg atol atof option_map arg next p in
          (r.0.extra ≡ p.extra) ⊎ ((r.0.extra ≡ p.extra ++ arg ∷ []) × (r.1 ≡ took_one)))
  unfolding one_arg
  one_arg-extra option_map arg next p =
      let r = check_arg arg in
      elim (Bool-cases (r.is_long || r.is_short)) [
        | inl y ↦ rw y (inl (named-extra option_map r.parsed_arg r.value next p))
        | inr n ↦ elim (Bool-cases r.is_end_of_options) [
          | inl y ↦ rw (n, y) (inl refl)
          | inr n' ↦ elim (Bool-cases r.is_data) [
            | inl y ↦ rw (n, n', y) (inr (refl, refl))
            | inr n'' ↦ rw (n, n', n'') (inl refl)
          ]
        ]
      ]

  -- What is added to the words kept.
  abbrev pub Adds : List Bytes → List Bytes → List Bytes → Type 0
  Adds args before after = (more : List Bytes) × (after ≡ before ++ more) × Sub more args

  Adds-later :
      (arg : Bytes) (args before middle after : List Bytes)
      → (middle ≡ before) ⊎ (middle ≡ before ++ arg ∷ [])
      → Adds args middle after
      → Adds (arg ∷ args) before after
  Adds-later arg args before middle after (inl same) (more, e, sub) =
      (more, e ∙ ap (λ m. m ++ more) same, skip sub)
  Adds-later arg args before middle after (inr new) (more, e, sub) =
      (arg ∷ more, e ∙ ap (λ m. m ++ more) new ∙ append_assoc before (arg ∷ []) more, keep sub)

  -- After a round of the loop, by how many words it took.
  Adds-took :
      (option_map : List (Bytes × Entry)) (arg next : Bytes) (args : List Bytes)
      (p : Parsing atol atof) (r : Parsing atol atof × Took)
      → (r.0.extra ≡ p.extra) ⊎ ((r.0.extra ≡ p.extra ++ arg ∷ []) × (r.1 ≡ took_one))
      → ((q : Parsing atol atof)
          → Adds (next ∷ args) q.extra (parse_args atol atof option_map (next ∷ args) q).extra)
      → ((q : Parsing atol atof) → Adds args q.extra (parse_args atol atof option_map args q).extra)
      → Adds (arg ∷ next ∷ args) p.extra (
          Parsing.extra (elim r.1 [
            | took_one ↦ parse_args atol atof option_map (next ∷ args) r.0
            | took_two ↦ parse_args atol atof option_map args r.0
            | took_rest ↦ record r.0 { extra = r.0.extra ++ next ∷ args }
          ]))
  Adds-took option_map arg next args p (q, took_one) (inl same) one two =
      Adds-later arg (next ∷ args) p.extra q.extra _ (inl same) (one q)
  Adds-took option_map arg next args p (q, took_one) (inr new) one two =
      Adds-later arg (next ∷ args) p.extra q.extra _ (inr new.0) (one q)
  Adds-took option_map arg next args p (q, took_two) (inl same) one two =
      Adds-later arg (next ∷ args) p.extra q.extra _ (inl same)
        (let (more, e, sub) = two q in (more, e, skip sub))
  Adds-took option_map arg next args p (q, took_rest) (inl same) one two =
      Adds-later arg (next ∷ args) p.extra q.extra _ (inl same)
        (next ∷ args, refl, Sub-all (next ∷ args))
  Adds-took option_map arg next args p (q, took) (inr new) one two = absurd (ground (arith, new.1))

  pub parse_args-Adds :
      (option_map : List (Bytes × Entry)) (args : List Bytes) (p : Parsing atol atof)
      → Adds args p.extra (parse_args atol atof option_map args p).extra
  unfolding parse_args
  parse_args-Adds option_map [] p = ([], sym (append-nil p.extra), done)
  parse_args-Adds option_map (arg ∷ []) p = elim (one_arg-extra option_map arg none p) [
    | inl same ↦ ([], same ∙ sym (append-nil p.extra), skip done)
    | inr (more, took) ↦ (arg ∷ [], more, keep done)
  ]
  parse_args-Adds option_map (arg ∷ next ∷ args) p =
      Adds-took option_map arg next args p (one_arg atol atof option_map arg (some next) p)
        (one_arg-extra option_map arg (some next) p) (parse_args-Adds option_map (next ∷ args))
        (parse_args-Adds option_map args)

  -- A parse with a context that has no words kept yet never writes behind the array: it returns, and
  -- leaves in the array the name of the program and then, in their order, some of the words that were
  -- there; `argc` counts them.
  pub parse-Sub :
      (context : Context) (memory : ℕ → Value I F) (prog : Bytes) (args : List Bytes)
      → context.extra ≡ []
      → Returns (parse atol atof context memory (prog ∷ args)) λ r.
        (take r.argc r.argv ≡ prog ∷ r.context.extra)
        × Sub r.context.extra args
        × (r.argc ≡ length r.context.extra + 1)
        × (r.argc ≤ length args + 1)
  unfolding parse
  parse-Sub context memory prog [] fresh =
      (_, refl, (rw fresh, rw fresh done, rw fresh, omega arith))
  parse-Sub context memory prog (arg ∷ args) fresh =
      let p =
        parse_args atol atof context.option_map (arg ∷ args)
          (record { memory = memory; extra = context.extra }) in
      let (more, e, sub) =
        parse_args-Adds context.option_map (arg ∷ args)
          (record { memory = memory; extra = context.extra }) in
      let kept : p.extra ≡ more = e ∙ ap (λ m. m ++ more) fresh in
      let sub' : Sub p.extra (arg ∷ args) = subst (λ m. Sub m (arg ∷ args)) (sym kept) sub in
      let few = length-Sub p.extra (arg ∷ args) sub' in
      let (argv, w, t) = update_extra-take (prog ∷ []) (arg ∷ args) p.extra few in
      let result : Result atol atof = record {
        context = record context { progname = some prog; extra = p.extra };
        memory = p.memory;
        argc = length p.extra + 1;
        argv = argv;
      } in
      (result, rw w, (ap (λ n. take n argv) (omega arith) ∙ t, sub', refl, omega (arith, few)))
