-- ===== src/StringStack/State.antt =====
-- engine/console/stringStack.h: the state of `StringStack` and the operations on its top.
-- All texts lie in one buffer; a slot of the stack notes where an operand starts. `none` is a failed
-- assertion or an access outside of the arrays.
use korkscript.Prelude.{
  Bytes, List, Option, [], drop, get_elem?, if◌then◌else◌, leb, length, ltb, none, put_bytes,
  replicate, set, some, ℕ, ◌%◌, ◌++◌, ◌+◌, ◌-◌, ◌==◌, ◌^◌, ◌||◌, ◌∷◌,
}
use korkscript.Compiler.StringTable.{c_text}

pub record Slot : Type 0 where
  pub offset : ℕ
  pub size : ℕ
  pub type : ℕ
  pub value : ℕ

-- `mStartOffsets`, `mStartLengths`, `mStartTypes` and `mStartValues` are one list of slots.
pub record StringStack : Type 0 where
  pub buffer : Bytes
  pub frame_offsets : List ℕ
  pub slots : List Slot
  pub value : ℕ
  pub type : ℕ
  pub func_id : ℕ
  pub num_frames : ℕ
  pub start : ℕ
  pub len : ℕ
  pub start_stack_size : ℕ
  pub function_offset : ℕ

abbrev pub max_stack_depth : ℕ
max_stack_depth = 64

abbrev pub max_frame_depth : ℕ
max_frame_depth = 16

abbrev pub max_args : ℕ
max_args = 20

abbrev pub return_buffer_space : ℕ
return_buffer_space = 512

-- `TypeInternalString`, `TypeInternalUnsigned`, `TypeInternalNumber` and `TypeBeginCustom`.
abbrev pub type_string : ℕ
type_string = 0

abbrev pub type_unsigned : ℕ
type_unsigned = 1

abbrev pub type_number : ℕ
type_number = 2

abbrev pub type_begin_custom : ℕ
type_begin_custom = 3

-- `ZonePacked`, and `ZoneFunc`, behind which each fiber has a zone.
abbrev pub zone_packed : ℕ
zone_packed = 1

abbrev pub zone_func : ℕ
zone_func = 4

-- The zone of a fiber, a `U16`.
unfoldable pub fiber_zone : ℕ → ℕ
fiber_zone func_id = (zone_func + func_id) % 2 ^ 16

pub record ConsoleValue : Type 0 where
  pub cvalue : ℕ
  pub type_id : ℕ
  pub zone_id : ℕ

unfoldable pub reset : StringStack → StringStack
reset s = record s { start = 0; len = 0; num_frames = 0; start_stack_size = 0; function_offset = 0 }

-- `mBuffer.resize` fills with zeros.
unfoldable pub validate_buffer_size : ℕ → StringStack → StringStack
validate_buffer_size size s =
    if ltb (length s.buffer) size
    then record s { buffer = s.buffer ++ replicate (size + 2048 - length s.buffer) 0 }
    else s

unfoldable pub init_for_fiber : ℕ → StringStack → StringStack
init_for_fiber fiber s = validate_buffer_size 8192 (record s { func_id = fiber % 2 ^ 16 })

-- `mBuffer[i] = c`.
unfoldable pub poke : ℕ → ℕ → StringStack → Option StringStack
poke i c s = if ltb i (length s.buffer) then some (record s { buffer = set s.buffer i c }) else none

-- `setUnsignedValue` and `setNumberValue`, of which the latter stores the bits of the number.
unfoldable pub set_packed : ℕ → ℕ → StringStack → StringStack
set_packed type v s = record (validate_buffer_size (s.start + 16) s) {
  len = 0;
  value = v;
  type = type;
}

unfoldable pub set_unsigned_value : ℕ → StringStack → StringStack
set_unsigned_value v s = set_packed type_unsigned v s

unfoldable pub set_number_value : ℕ → StringStack → StringStack
set_number_value v s = set_packed type_number v s

unfoldable pub get_frame_buffer : ℕ → ℕ → StringStack → StringStack × ConsoleValue
get_frame_buffer type size s = (
  validate_buffer_size (s.start + size) s,
  record { cvalue = s.start; type_id = type; zone_id = fiber_zone s.func_id },
)

unfoldable pub get_func_buffer : ℕ → ℕ → StringStack → StringStack × ConsoleValue
get_func_buffer type size s =
    let at = s.start + s.function_offset in
    (
      record (validate_buffer_size (at + size) s) { function_offset = s.function_offset + size },
      record { cvalue = at; type_id = type; zone_id = zone_func },
    )

unfoldable pub clear_function_offset : StringStack → StringStack
clear_function_offset s = record s { function_offset = 0 }

-- `setStringValue`, of a text that lies elsewhere; `none` is the null pointer. Of the text that is
-- the top already the copy is left out, which changes no byte.
unfoldable pub set_string_value : Option Bytes → StringStack → Option StringStack
set_string_value none s = poke s.start 0 (record s { len = 0 })
set_string_value (some text) s =
    let n = length text in
    let u = validate_buffer_size (s.start + n + 2) (record s { len = n; type = type_string }) in
    some (record u { buffer = put_bytes (text ++ 0 ∷ []) s.start u.buffer })

unfoldable pub set_console_value_size : ℕ → ℕ → StringStack → StringStack
set_console_value_size type size s = record s { type = type % 2 ^ 16; len = size; value = s.start }

unfoldable pub set_console_value_value : ℕ → ℕ → StringStack → StringStack
set_console_value_value type v s = record s { type = type % 2 ^ 16; value = v; len = 0 }

-- Its type is a `U8`.
unfoldable pub set_typed_len : ℕ → ℕ → StringStack → StringStack
set_typed_len type n s = record s { type = type % 256; len = n }

-- `getStringValue`.
unfoldable pub get_string_value : StringStack → Bytes
get_string_value s = c_text (drop s.start s.buffer)

unfoldable pub get_console_value : StringStack → ConsoleValue
get_console_value s =
    if s.type == type_string || leb type_begin_custom s.type
    then record { cvalue = s.start; type_id = s.type; zone_id = fiber_zone s.func_id }
    else record { cvalue = s.value; type_id = s.type; zone_id = zone_packed }

abbrev pub slot_value : ℕ → Option Slot → Option ConsoleValue
slot_value func_id none = none
slot_value func_id (some x) = some (
    if x.type == type_unsigned || x.type == type_number
    then record { cvalue = x.value; type_id = x.type; zone_id = zone_packed }
    else record { cvalue = x.offset; type_id = x.type; zone_id = fiber_zone func_id })

unfoldable pub get_stack_console_value : ℕ → StringStack → Option ConsoleValue
get_stack_console_value i s = slot_value s.func_id (get_elem? s.slots i)
