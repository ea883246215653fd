-- ===== src/Types.antt =====
-- src/types.h and src/types.cpp: the sized types of values, and the relations between them.
mod Order
pub mod Ranges
mod Tests
use bpftrace.Prelude.{
  ℕ, suc, ◌-◌, ◌/◌, ◌<◌, min, max, sym, ap, Bool, true, false, not, ◌&&◌, none, map, ltb, leb, ◌==◌,
  if◌then◌else◌, Bytes, text_eq,
}

-- The types of `enum class Type` that have no inner type.
pub data Kind : Type 0 where
  none_t void_t boolean string inet buffer : Kind
  hist_t lhist_t tseries_t count_t sum_t min_t max_t avg_t stats_t : Kind
  kstack_t ustack_t ksym_t usym_t username stack_mode : Kind
  timestamp mac_address cgroup_path_t timestamp_mode : Kind

-- `SizedType` by its type, with the members that the operations below read. Sizes are `size_bits_`.
mutual
  pub data SizedType : Type 0 where
    integer : ℕ → Bool → Bytes → SizedType
    sized : Kind → ℕ → Bool → SizedType
    pointer : SizedType → SizedType
    array : ℕ → ℕ → SizedType → SizedType
    record_t : Bytes → ℕ → ℕ → SizedType
    tuple : ℕ → ℕ → SizedTypes → SizedType

  -- The types of the fields of a tuple.
  pub data SizedTypes : Type 0 where
    none_left : SizedTypes
    field : SizedType → SizedTypes → SizedTypes

abbrev pub size_bits : SizedType → ℕ
size_bits (integer bits signed name) = bits
size_bits (sized kind bits signed) = bits
size_bits (pointer pointee) = 64
size_bits (array bits count element) = bits
size_bits (record_t name bits align) = bits
size_bits (tuple bits align fields) = bits

-- `GetSize`.
abbrev pub get_size : SizedType → ℕ
get_size t = size_bits t / 8

abbrev pub field_count : SizedTypes → ℕ
field_count none_left = 0
field_count (field t ts) = suc (field_count ts)

abbrev pub bool_eq : Bool → Bool → Bool
bool_eq true b = b
bool_eq false b = not b

-- The value of the enumerator, in the order of the declaration.
unfoldable pub kind_index : Kind → ℕ
kind_index none_t = 0
kind_index void_t = 1
kind_index boolean = 3
kind_index hist_t = 6
kind_index lhist_t = 7
kind_index tseries_t = 8
kind_index count_t = 9
kind_index sum_t = 10
kind_index min_t = 11
kind_index max_t = 12
kind_index avg_t = 13
kind_index stats_t = 14
kind_index kstack_t = 15
kind_index ustack_t = 16
kind_index string = 17
kind_index ksym_t = 18
kind_index usym_t = 19
kind_index username = 20
kind_index inet = 21
kind_index stack_mode = 22
kind_index buffer = 24
kind_index timestamp = 26
kind_index mac_address = 27
kind_index cgroup_path_t = 28
kind_index timestamp_mode = 29

abbrev pub kind_eq : Kind → Kind → Bool
kind_eq a b = kind_index a == kind_index b

-- `IsByteArray`, by kind.
unfoldable pub is_byte_array : Kind → Bool
is_byte_array string = true
is_byte_array usym_t = true
is_byte_array inet = true
is_byte_array buffer = true
is_byte_array timestamp = true
is_byte_array mac_address = true
is_byte_array cgroup_path_t = true
is_byte_array _ = false

-- `NeedsPercpuMap`, by kind.
unfoldable pub needs_percpu_map : Kind → Bool
needs_percpu_map hist_t = true
needs_percpu_map lhist_t = true
needs_percpu_map count_t = true
needs_percpu_map sum_t = true
needs_percpu_map min_t = true
needs_percpu_map max_t = true
needs_percpu_map avg_t = true
needs_percpu_map stats_t = true
needs_percpu_map tseries_t = true
needs_percpu_map _ = false

-- `IsSameType`.
unfoldable mutual
  pub is_same_type : SizedType → SizedType → Bool
  is_same_type (integer b s n) (integer c t m) = true
  is_same_type (sized k b s) (sized l c t) = kind_eq k l
  is_same_type (pointer p) (pointer q) = is_same_type p q
  is_same_type (array b n e) (array c m f) = true
  is_same_type (record_t n b a) (record_t m c d) = text_eq m n
  is_same_type (tuple b a fs) (tuple c d gs) =
      field_count fs == field_count gs && are_same_type fs gs
  is_same_type _ _ = false

  pub are_same_type : SizedTypes → SizedTypes → Bool
  are_same_type (field t ts) (field u us) = is_same_type t u && are_same_type ts us
  are_same_type none_left _ = true
  are_same_type (field t ts) none_left = true

-- `IsEqual`: the comparison `<=>` yields equality.
unfoldable mutual
  pub is_equal : SizedType → SizedType → Bool
  is_equal (integer b s n) (integer c t m) = b / 8 == c / 8 && bool_eq s t
  is_equal (sized k b s) (sized l c t) = kind_eq k l && (b / 8 == c / 8 && bool_eq s t)
  is_equal (pointer p) (pointer q) = is_equal p q
  is_equal (array b n e) (array c m f) = n == m && is_equal e f
  is_equal (record_t n b a) (record_t m c d) = text_eq n m && b / 8 == c / 8
  is_equal (tuple b a fs) (tuple c d gs) = field_count fs == field_count gs && are_equal fs gs
  is_equal _ _ = false

  pub are_equal : SizedTypes → SizedTypes → Bool
  are_equal (field t ts) (field u us) = is_equal t u && are_equal ts us
  are_equal none_left _ = true
  are_equal (field t ts) none_left = true

-- The integers of `FitsInto`: sizes in bytes, and signs.
unfoldable pub integer_fits : ℕ → Bool → ℕ → Bool → Bool
integer_fits size is_signed target target_signed =
    if bool_eq is_signed target_signed
    then leb size target
    else if not is_signed
    then ltb size target
    else false

-- `FitsInto`.
unfoldable mutual
  unfolding is_same_type is_equal integer_fits

  pub fits_into : SizedType → SizedType → Bool
  fits_into (integer b s n) (integer c t m) = integer_fits (b / 8) s (c / 8) t
  fits_into (sized string b s) (sized string c t) = leb (b / 8) (c / 8)
  fits_into (tuple b a fs) (tuple c d gs) =
      is_same_type (tuple b a fs) (tuple c d gs)
      && (field_count fs == field_count gs && all_fit_into fs gs)
  fits_into t u = is_same_type t u && is_equal t u

  pub all_fit_into : SizedTypes → SizedTypes → Bool
  all_fit_into (field t ts) (field u us) = fits_into t u && all_fit_into ts us
  all_fit_into none_left _ = true
  all_fit_into (field t ts) none_left = true

-- `GetInTupleAlignment` where the type has no inner type: by its size in bytes.
unfoldable pub alignment_of_size : ℕ → ℕ
alignment_of_size size = if leb size 2 then size else if leb size 4 then 4 else 8

-- `GetInTupleAlignment`. An array of at most two bytes has its size; a larger one has the
-- alignment of its elements.
unfoldable pub get_in_tuple_alignment : SizedType → ℕ
unfolding alignment_of_size is_byte_array
get_in_tuple_alignment (sized k bits signed) =
    if is_byte_array k then 1 else alignment_of_size (bits / 8)
get_in_tuple_alignment (integer bits signed name) = alignment_of_size (bits / 8)
get_in_tuple_alignment (pointer p) = 8
get_in_tuple_alignment (array bits count element) =
    let inner = get_in_tuple_alignment element in if leb (bits / 8) 2 then bits / 8 else inner
get_in_tuple_alignment (record_t name bits align) = align
get_in_tuple_alignment (tuple bits align fields) = align
