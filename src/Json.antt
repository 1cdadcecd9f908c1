-- ===== src/Json.antt =====
-- Values of nlohmann::json as the program uses them: the data, objects as member lists, the
-- accesses that may throw, and loops over arrays.
mod Data
mod Object
mod Access
mod Equal
mod Loop
mod Appended
mod Kept
mod Written
mod Reads
pub use Data.*
pub use Access.{present, get_string, get_integer, get_uint8, get_int32}
unfoldable pub use Object.{get, put, erase, assign, members, object, contains}
pub use Object.{get-put, get-erase, get-assign, assign-get}
unfoldable pub use Access.{
  element, const_element, iterate, find, find_value, member_or_null, assign_member,
}
unfoldable pub use Equal.{json_eq}
unfoldable pub use Loop.{traverse, find_if, filter, flat_map}
pub use Loop.{
  length, All, Mem, Found, traverse-All, traverse_stable, length-traverse, find_if-Found,
  filter-All, All-append, flat_map-All, All-mem, mem_middle, find_if_mem,
}
pub use Appended.{Concat, flat_map-Concat}
pub use Kept.{Pairwise, traverse-Pairwise, Filtered, filter-Filtered}
pub use Written.{find-assign_member, find-element}
unfoldable pub use Reads.{items}
pub use Reads.{
  int, is_number_float, get_bool, get_uint32, get_int64, json_empty, const_first, get_at,
}
