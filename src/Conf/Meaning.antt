-- ===== src/Conf/Meaning.antt =====
-- What a configuration means, apart from how src/cfuconf.c stores it: which containers there are, the
-- values of each directive in each of them, and the containers within them.
use libcfu.Common.{
  ℕ, ◌+◌, ◌≡◌, ◌&&◌, Option, none, some, List, [], ◌∷◌, ◌++◌, ◌==◌, if◌then◌else◌, length, get_or,
}
use libcfu.Hash.Value.{Key}
use libcfu.Conf.Lexer.{Bytes}
use libcfu.Conf.Dict.{same_name, lookup}
use libcfu.Conf.Parse.{Conf, or_empty, blank}
use libcfu.Conf.Items.{Items, nothing, line, section}

-- Containers by number, the outermost first.
pub record Meaning : Type 0 where
  pub count : ℕ
  pub values : (at : ℕ) → (name : Key) → List (List Bytes)
  pub inner : (at : ℕ) → (type name : Key) → Option ℕ
  pub title : (at : ℕ) → Key × Key

-- One container without directives.
abbrev pub no_items : Meaning
no_items = record {
  count = 1;
  values = λ at name. [];
  inner = λ at type name. none;
  title = λ at. (none, none);
}

-- A directive's values come behind those that it has.
abbrev pub said : Meaning → (at : ℕ) → (name : Bytes) → List Bytes → Meaning
said m at name values = record m {
  values = λ i k.
      if (at == i) && same_name (some name) k then m.values i k ++ values ∷ [] else m.values i k;
}

-- A section's container: the one of its type and name that is there, or else a new one.
abbrev pub inside : Meaning → (at : ℕ) → (type name : Bytes) → ℕ
inside m at type name = elim (m.inner at (some type) (some name)) [
  | none ↦ m.count
  | some old ↦ old
]

abbrev pub one_more : Meaning → (at : ℕ) → (type name : Bytes) → Meaning
one_more m at type name = record m {
  count = m.count + 1;
  inner = λ i t n.
      if (at == i) && (same_name (some type) t && same_name (some name) n)
      then some m.count
      else m.inner i t n;
  title = λ i. if m.count == i then (some type, some name) else m.title i;
}

abbrev pub opened : Meaning → (at : ℕ) → (type name : Bytes) → Meaning
opened m at type name = elim (m.inner at (some type) (some name)) [
  | some old ↦ m
  | none ↦ one_more m at type name
]

-- What items mean within a container.
unfoldable pub meaning : Items → (at : ℕ) → Meaning → Meaning
meaning nothing at m = m
meaning (line name values rest) at m = meaning rest at (said m at name values)
meaning (section type name body rest) at m =
    meaning rest at (meaning body (inside m at type name) (opened m at type name))

-- Containers that are stored as they are meant; names count up to their case.
pub record Represents (confs : List Conf) (m : Meaning) : Type 0 where
  pub count : length confs ≡ m.count
  pub values :
      (i : ℕ) (k : Key) → or_empty (lookup (get_or confs i blank).directives k) ≡ m.values i k
  pub inner :
      (i : ℕ) (t n : Key)
      → lookup (or_empty (lookup (get_or confs i blank).containers t)) n ≡ m.inner i t n
  pub title :
      (i : ℕ)
      → ◌≡◌ {A = Key × Key}
          ((get_or confs i blank).container_type, (get_or confs i blank).container_name)
          (m.title i)
