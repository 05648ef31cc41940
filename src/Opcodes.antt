-- ===== src/Opcodes.antt =====
-- engine/embed/compilerOpcodes.h: the numbers of the opcodes that the other modules name.
use korkscript.Prelude.{ℕ}

abbrev pub op_jmpiffnot : ℕ
op_jmpiffnot = 5

abbrev pub op_jmpifnot : ℕ
op_jmpifnot = 6

abbrev pub op_jmpiff : ℕ
op_jmpiff = 7

abbrev pub op_jmpif : ℕ
op_jmpif = 8

abbrev pub op_jmpifnot_np : ℕ
op_jmpifnot_np = 9

abbrev pub op_jmpif_np : ℕ
op_jmpif_np = 10

abbrev pub op_jmp : ℕ
op_jmp = 11

abbrev pub op_return : ℕ
op_return = 12

abbrev pub op_return_void : ℕ
op_return_void = 13

abbrev pub op_return_flt : ℕ
op_return_flt = 14

abbrev pub op_return_uint : ℕ
op_return_uint = 15

abbrev pub op_cmpeq : ℕ
op_cmpeq = 16

abbrev pub op_cmpgr : ℕ
op_cmpgr = 17

abbrev pub op_cmpge : ℕ
op_cmpge = 18

abbrev pub op_cmplt : ℕ
op_cmplt = 19

abbrev pub op_cmple : ℕ
op_cmple = 20

abbrev pub op_cmpne : ℕ
op_cmpne = 21

abbrev pub op_xor : ℕ
op_xor = 22

abbrev pub op_mod : ℕ
op_mod = 23

abbrev pub op_bitand : ℕ
op_bitand = 24

abbrev pub op_bitor : ℕ
op_bitor = 25

abbrev pub op_not : ℕ
op_not = 26

abbrev pub op_notf : ℕ
op_notf = 27

abbrev pub op_onescomplement : ℕ
op_onescomplement = 28

abbrev pub op_shr : ℕ
op_shr = 29

abbrev pub op_shl : ℕ
op_shl = 30

abbrev pub op_and : ℕ
op_and = 31

abbrev pub op_or : ℕ
op_or = 32

abbrev pub op_add : ℕ
op_add = 33

abbrev pub op_sub : ℕ
op_sub = 34

abbrev pub op_mul : ℕ
op_mul = 35

abbrev pub op_div : ℕ
op_div = 36

abbrev pub op_neg : ℕ
op_neg = 37

abbrev pub op_loadvar_uint : ℕ
op_loadvar_uint = 42

abbrev pub op_loadvar_flt : ℕ
op_loadvar_flt = 43

abbrev pub op_loadvar_str : ℕ
op_loadvar_str = 44

abbrev pub op_savevar_uint : ℕ
op_savevar_uint = 46

abbrev pub op_savevar_flt : ℕ
op_savevar_flt = 47

abbrev pub op_savevar_str : ℕ
op_savevar_str = 48

abbrev pub op_loadfield_uint : ℕ
op_loadfield_uint = 56

abbrev pub op_loadfield_flt : ℕ
op_loadfield_flt = 57

abbrev pub op_loadfield_str : ℕ
op_loadfield_str = 58

abbrev pub op_savefield_uint : ℕ
op_savefield_uint = 59

abbrev pub op_savefield_flt : ℕ
op_savefield_flt = 60

abbrev pub op_savefield_str : ℕ
op_savefield_str = 61

abbrev pub op_str_to_uint : ℕ
op_str_to_uint = 62

abbrev pub op_str_to_flt : ℕ
op_str_to_flt = 63

abbrev pub op_str_to_none : ℕ
op_str_to_none = 64

abbrev pub op_flt_to_uint : ℕ
op_flt_to_uint = 65

abbrev pub op_flt_to_str : ℕ
op_flt_to_str = 66

abbrev pub op_flt_to_none : ℕ
op_flt_to_none = 67

abbrev pub op_uint_to_flt : ℕ
op_uint_to_flt = 68

abbrev pub op_uint_to_str : ℕ
op_uint_to_str = 69

abbrev pub op_uint_to_none : ℕ
op_uint_to_none = 70

abbrev pub op_copyvar_to_none : ℕ
op_copyvar_to_none = 71

abbrev pub op_loadimmed_uint : ℕ
op_loadimmed_uint = 72

abbrev pub op_loadimmed_flt : ℕ
op_loadimmed_flt = 73

abbrev pub op_loadimmed_str : ℕ
op_loadimmed_str = 75

abbrev pub op_advance_str : ℕ
op_advance_str = 80

abbrev pub op_advance_str_appendchar : ℕ
op_advance_str_appendchar = 81

abbrev pub op_advance_str_comma : ℕ
op_advance_str_comma = 82

abbrev pub op_advance_str_nul : ℕ
op_advance_str_nul = 83

abbrev pub op_rewind_str : ℕ
op_rewind_str = 84

abbrev pub op_compare_str : ℕ
op_compare_str = 86

abbrev pub op_push_typed : ℕ
op_push_typed = 103

abbrev pub op_loadvar_typed : ℕ
op_loadvar_typed = 104

abbrev pub op_loadfield_typed : ℕ
op_loadfield_typed = 106

abbrev pub op_savevar_typed : ℕ
op_savevar_typed = 107

abbrev pub op_savefield_typed : ℕ
op_savefield_typed = 108

abbrev pub op_str_to_typed : ℕ
op_str_to_typed = 109

abbrev pub op_flt_to_typed : ℕ
op_flt_to_typed = 110

abbrev pub op_uint_to_typed : ℕ
op_uint_to_typed = 111

abbrev pub op_typed_to_str : ℕ
op_typed_to_str = 112

abbrev pub op_typed_to_flt : ℕ
op_typed_to_flt = 113

abbrev pub op_typed_to_uint : ℕ
op_typed_to_uint = 114

abbrev pub op_typed_to_none : ℕ
op_typed_to_none = 115

abbrev pub op_typed_op : ℕ
op_typed_op = 116

abbrev pub op_typed_op_reverse : ℕ
op_typed_op_reverse = 117

abbrev pub op_typed_unary_op : ℕ
op_typed_unary_op = 118

abbrev pub op_setcurfield_none : ℕ
op_setcurfield_none = 119

abbrev pub op_loadfield_var : ℕ
op_loadfield_var = 121

abbrev pub op_savefield_var : ℕ
op_savefield_var = 122

abbrev pub op_set_dynamic_type_to_null : ℕ
op_set_dynamic_type_to_null = 127

abbrev pub op_invalid : ℕ
op_invalid = 133

abbrev pub op_break : ℕ
op_break = 93
