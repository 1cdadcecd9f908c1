-- ===== src/Json/Access.antt =====
-- Accesses that may throw: operator[] of both kinds, get<T>, and iteration.
use libmediasouphandler.Base.{ℕ, ℤ, String, true, false, Option, none, some, List, [], ◌∷◌}
use libmediasouphandler.Base.Int.{pos, trunc_ℤ, to_unsigned, to_signed}
use libmediasouphandler.Base.Result.{Result, ok, err, json_error, undefined}
use libmediasouphandler.Json.Data.{
  Json, null, boolean, number_integer, number_unsigned, number_float, str, arr, obj, Fields, end,
  field, to_list,
}
use libmediasouphandler.Json.Object.{get, put, erase}

abbrev pub insert_null : String → Fields → Option Json → Json × Json
insert_null k fs none = (obj (put k null fs), null)
insert_null k fs (some v) = (obj fs, v)

-- operator[](key) on a value that may be written: the container afterwards, and the member. A null
-- becomes an object, and a key that is not there gets the value null.
unfoldable pub element : String → Json → Result (Json × Json)
unfolding get put
element k null = ok (obj (field k null end), null)
element k (obj fs) = ok (insert_null k fs (get k fs))
element k _ = err (json_error 305)

abbrev pub present : Option Json → Result Json
present none = err undefined
present (some v) = ok v

-- operator[](key) on a constant: nothing may be inserted, and a missing key is undefined behaviour.
unfoldable pub const_element : String → Json → Result Json
unfolding get
const_element k (obj fs) = present (get k fs)
const_element k _ = err (json_error 305)

-- get<std::string>().
abbrev pub get_string : Json → Result String
get_string (str s) = ok s
get_string _ = err (json_error 302)

-- The integer that get<T>() of an integer type converts.
abbrev pub get_integer : Json → Result ℤ
get_integer (boolean true) = ok (pos 1)
get_integer (boolean false) = ok (pos 0)
get_integer (number_integer z) = ok z
get_integer (number_unsigned n) = ok (pos n)
get_integer (number_float a k) = ok (trunc_ℤ a k)
get_integer _ = err (json_error 302)

abbrev uint8 : Result ℤ → Result ℕ
uint8 (ok z) = ok (to_unsigned 8 z)
uint8 (err e) = err e

abbrev int32 : Result ℤ → Result ℤ
int32 (ok z) = ok (to_signed 31 z)
int32 (err e) = err e

-- get<uint8_t>() and get<int32_t>().
abbrev pub get_uint8 : Json → Result ℕ
get_uint8 j = uint8 (get_integer j)

abbrev pub get_int32 : Json → Result ℤ
get_int32 j = int32 (get_integer j)

abbrev values : Fields → List Json
values end = []
values (field k v fs) = v ∷ values fs

-- What `for (auto& x : j)` goes through.
unfoldable pub iterate : Json → List Json
iterate null = []
iterate (arr xs) = to_list xs
iterate (obj fs) = values fs
iterate j = j ∷ []

-- find(key): the member, or the end iterator.
unfoldable pub find : String → Json → Option Json
unfolding get
find k (obj fs) = get k fs
find k _ = none

-- The value that find(key) points at; reading the end iterator of an object or an array is undefined,
-- and that of any other value throws.
unfoldable pub find_value : String → Json → Result Json
unfolding get
find_value k (obj fs) = present (get k fs)
find_value k (arr xs) = err undefined
find_value k _ = err (json_error 214)

abbrev or_null : Option Json → Json
or_null none = null
or_null (some v) = v

-- operator[](key) as a read: null for a key that is not there. The null that is inserted then is
-- left out where nothing reads the container again.
unfoldable pub member_or_null : String → Json → Result Json
unfolding get
member_or_null k null = ok null
member_or_null k (obj fs) = ok (or_null (get k fs))
member_or_null k _ = err (json_error 305)

abbrev erase_or_put : String → Option Json → Fields → Json
erase_or_put k none fs = obj (erase k fs)
erase_or_put k (some v) fs = obj (put k v fs)

-- j[key] = v, or j.erase(key).
unfoldable pub assign_member : String → Option Json → Json → Result Json
unfolding put erase
assign_member k o (obj fs) = ok (erase_or_put k o fs)
assign_member k (some v) null = ok (obj (field k v end))
assign_member k (some v) _ = err (json_error 305)
assign_member k none _ = err (json_error 307)
