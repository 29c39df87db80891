-- ===== src/Types.antt =====
-- src/cfu.c: the type tags that the objects of the library start with.
use libcfu.Common.{Bool, true, false, Option, none, some}

pub data LibcfuType : Type 0 where
  t_none t_hash_table t_list t_string t_time t_timer t_conf : LibcfuType

-- An item is what it starts with; `none` is a null pointer.
unfoldable pub get_type : Option LibcfuType → LibcfuType
get_type none = t_none
get_type (some type) = type

unfoldable pub is_hash : Option LibcfuType → Bool
is_hash item = elim (get_type item) [ t_hash_table ↦ true | _ ↦ false ]

unfoldable pub is_list : Option LibcfuType → Bool
is_list item = elim (get_type item) [ t_list ↦ true | _ ↦ false ]

unfoldable pub is_string : Option LibcfuType → Bool
is_string item = elim (get_type item) [ t_string ↦ true | _ ↦ false ]

unfoldable pub is_time : Option LibcfuType → Bool
is_time item = elim (get_type item) [ t_time ↦ true | _ ↦ false ]

-- It tests for the tag of a time.
unfoldable pub is_timer : Option LibcfuType → Bool
is_timer item = elim (get_type item) [ t_time ↦ true | _ ↦ false ]

unfoldable pub is_conf : Option LibcfuType → Bool
is_conf item = elim (get_type item) [ t_conf ↦ true | _ ↦ false ]
