-- ===== src/Hash/Bencode.antt =====
-- `cfuhash_bencode_strings` of src/cfuhash.c, for a table whose data are C strings.
use libcfu.Common.{ℕ, false, Option, none, some, List, [], ◌∷◌, ◌==◌, if◌then◌else◌, Run, ok, ◌>>=◌}
use libcfu.Strings.Memory.{strlen}
use libcfu.Strings.Buffer.{CfuString, new_with_initial_size, append, get_buffer_copy}
use libcfu.Hash.Value.{Key}
use libcfu.Hash.Table.{Table, null}
use libcfu.Hash.Access.{get}
use libcfu.Hash.Walk.{keys}

-- What `malloc` finds in a block of the size, the C string at a pointer, and what `snprintf` writes for
-- a length with the format `%lu:`.
module _ (malloc : ℕ → List ℕ) (string_at : ℕ → Option (List ℕ)) (number : ℕ → List ℕ) where
  -- `keys[i] ? strlen(keys[i]) : 0`, and so for a value.
  unfoldable pub string_length : Option (List ℕ) → Run ℕ
  string_length none = ok 0
  string_length (some s) = strlen s

  abbrev pub string_of : ℕ → Option (List ℕ)
  string_of val = if val == null then none else string_at val

  -- The length and the bytes of a string.
  unfoldable pub add_string : CfuString → Option (List ℕ) → Run CfuString
  add_string b s = do
    len ← string_length s
    b' ← append malloc b (some (number len))
    append malloc b' s

  module _ {F : Type 0} where
    unfoldable pub add_keys : Table F → List Key → CfuString → Run CfuString
    add_keys ht [] b = ok b
    add_keys ht (key ∷ keys) b = do
      b' ← add_string b key
      val ← get (some ht) key
      b'' ← add_string b' (string_of val)
      add_keys ht keys b''

    unfoldable pub bencode_strings : Table F → Run (Option (List ℕ))
    bencode_strings ht = do
      b ← append malloc (new_with_initial_size 16) (some (b'd' ∷ 0 ∷ []))
      listed ← keys (some ht) false
      b' ← add_keys ht listed.keys b
      b'' ← append malloc b' (some (b'e' ∷ 0 ∷ []))
      get_buffer_copy b''
