-- ===== src/Opt/Longest.antt =====
-- The search for the longest left column of the help text of src/cfuopt.c.
use libcfu.Common.{
  ℕ, ◌+◌, ◌<◌, ◌≡◌, refl, sym, ap, ◌∙◌, none, some, List, [], ◌∷◌, ◌++◌, append-nil, append_assoc,
  arith, length, ok, fault, ◌>>=◌,
}
use libcfu.Strings.Memory.{NoMark, strlen-marked}
use libcfu.Strings.Buffer.{get_buffer_copy, new_with_initial_size}
use libcfu.Strings.Buffer as Buffer
use libcfu.Strings.Format.{VaArg, string_arg}
use libcfu.Strings.Convert.{Printed}
use libcfu.Strings.Rendered.{IsSpec, Converts, source_of}
use libcfu.Opt.Context.{Entry, Context, names_of}
use libcfu.Opt.Help.{
  Desc, Search, desc_length, join_strings, join, map_names, find_foreach_fn, find_all,
  find_longest_help_desc, get_help_str,
}
use libcfu.Opt.Shown.{names_shown, map_names-shown}
use libcfu.Opt.Column.{
  join-words, larger, left_column, longest, column, columns, IsShown, AreShown,
  names_shown-AreUnmarked, left_column-NoMark,
}

abbrev pub found : List Desc → ℕ → Search
found descs width = record { desc_list = descs; max_size = width }

-- Nothing joined is a null pointer.
no_words : (malloc : ℕ → List ℕ) (sep : List ℕ) → join malloc sep [] ≡ ok none
unfolding join join_strings get_buffer_copy Buffer.new new_with_initial_size
no_words malloc sep = refl

larger_assoc : (a b c : ℕ) → larger (larger a b) c ≡ larger a (larger b c)
larger_assoc a b c = ground arith

module _ (malloc : ℕ → List ℕ) (sized : (n : ℕ) → length (malloc n) ≡ n)
    (vsnprintf : List ℕ → ℕ → List ℕ → VaArg → List ℕ × ℕ) (printed : List ℕ → VaArg → List ℕ)
    (documented : (buf flags more : List ℕ) (c : ℕ) (arg : VaArg)
      → IsSpec flags
      → Converts c arg
      → length buf < 2147483648
      → length (printed (source_of flags c) arg) + 1 < 1073741824
      → Printed buf
          (printed (source_of flags c) arg)
          (vsnprintf buf (length buf) (source_of flags c ++ 0 ∷ more) arg))
    (unmarked : (flags : List ℕ) (c : ℕ) (arg : VaArg)
      → IsSpec flags
      → Converts c arg
      → NoMark (printed (source_of flags c) arg))
    (whole : (s : List ℕ)
      → NoMark s
      → printed (b'%' ∷ b's' ∷ []) (string_arg (some (s ++ 0 ∷ []))) ≡ s) where
  find_foreach_fn-found :
      (opt : Entry) (ds : Search)
      → IsShown opt
      → find_foreach_fn malloc vsnprintf opt ds
        ≡ ok (
            found (ds.desc_list ++ column opt ∷ []) (larger ds.max_size (length (left_column opt))))
  unfolding find_foreach_fn desc_length
  find_foreach_fn-found opt ds h =
      let names =
        map_names-shown malloc sized vsnprintf printed documented unmarked whole opt
          (names_of opt.param_names) h.0 h.1 in
      let shown = names_shown (names_of opt.param_names) opt.arg_description in
      let desc =
        join-words malloc sized (b',' ∷ b' ' ∷ []) (omega arith) shown
          (names_shown-AreUnmarked (names_of opt.param_names) opt.arg_description h.0 h.1) h.3 in
      let long = strlen-marked (left_column opt) [] (left_column-NoMark opt h) in
      rw (names, desc, long) refl

  pub find_all-found :
      (options : List Entry) (descs : List Desc) (width : ℕ)
      → AreShown options
      → find_all malloc vsnprintf options (found descs width)
        ≡ ok (found (descs ++ columns options) (larger width (longest options)))
  unfolding find_all
  find_all-found [] descs width h =
      let same : larger width 0 ≡ width = ground arith in
      ap (λ d. ok (found d width)) (sym (append-nil descs))
      ∙ ap (λ (w : ℕ). ok (found (descs ++ []) w)) (sym same)
  find_all-found (opt ∷ options) descs width h =
      ap (λ x. x >>= λ ds. find_all malloc vsnprintf options ds)
        (find_foreach_fn-found opt (found descs width) h.0)
      ∙ find_all-found options (descs ++ column opt ∷ []) (larger width (length (left_column opt)))
          h.1
      ∙ ap (λ (w : ℕ). ok (found ((descs ++ column opt ∷ []) ++ columns options) w))
          (larger_assoc width (length (left_column opt)) (longest options))
      ∙ ap (λ d. ok (found d (larger width (longest (opt ∷ options)))))
          (append_assoc descs (column opt ∷ []) (columns options))

  -- Options shown up to one with no names.
  find_all-nameless :
      (shown : List Entry) (opt : Entry) (others : List Entry) (ds : Search)
      → AreShown shown
      → names_of opt.param_names ≡ []
      → find_all malloc vsnprintf (shown ++ opt ∷ others) ds ≡ fault
  unfolding find_all find_foreach_fn map_names desc_length
  find_all-nameless [] opt others ds h nameless =
      let nothing = no_words malloc (b',' ∷ b' ' ∷ 0 ∷ []) in rw (nameless, nothing) refl
  find_all-nameless (first ∷ shown) opt others ds h nameless =
      ap (λ x. x >>= λ ds'. find_all malloc vsnprintf (shown ++ opt ∷ others) ds')
        (find_foreach_fn-found first ds h.0)
      ∙ find_all-nameless shown opt others _ h.1 nameless

  -- Under the same conditions on what `vsnprintf` documents, and whatever options follow: where an
  -- option has no names, and those ahead of it have names of some bytes and C strings of less than
  -- 2 ^ 30 - 1 bytes, `cfuopt_get_help_str` reads through a null pointer.
  pub get_help_str-nameless :
      (context : Context) (shown : List Entry) (opt : Entry) (others : List Entry)
      → context.option_list ≡ shown ++ opt ∷ others
      → AreShown shown
      → names_of opt.param_names ≡ []
      → get_help_str malloc vsnprintf context ≡ fault
  unfolding get_help_str find_longest_help_desc
  get_help_str-nameless context shown opt others e h nameless =
      rw (e, find_all-nameless shown opt others (found [] 0) h nameless) refl
