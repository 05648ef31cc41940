-- ===== src/StringStack/Concat.antt =====
-- engine/console/stringStack.h: two texts put together by `advance` and `rewind`.
use korkscript.Prelude.{
  Bool, Bytes, Holds, [], ap, append_assoc, arith, drop, false, get_elem?, get_elem?-set_self,
  if◌then◌else◌, length, length-append, length-put_bytes, ltb, none, put_bytes, put_bytes-Holds,
  refl, set, some, some-injective, subst, suc, sym, true, ℕ, ◌++◌, ◌+◌, ◌-◌, ◌<◌, ◌==◌, ◌∙◌, ◌∷◌,
  ◌≡◌, ◌≤◌,
}
use korkscript.Compiler.StringTable.{c_text}
use korkscript.Compiler.StringTable.Build.{c_text-Holds}
use korkscript.Compiler.StringTable.Layout.{IsText}
use korkscript.StringStack.Frames.{
  SameBelow, SameBelow-put_bytes, SameBelow-trans, SameBelow-validate_buffer_size,
  length-validate_buffer_size,
}
use korkscript.StringStack.Keeps.{validate_buffer_size-record}
use korkscript.StringStack.Moves.{advance, get_head_length, rewind, save_top}
use korkscript.StringStack.State.{
  Slot, StringStack, get_string_value, max_stack_depth, set_string_value, type_string,
  validate_buffer_size,
}

Holds-left : (xs ys buf : Bytes) (i : ℕ) → Holds buf i (xs ++ ys) → Holds buf i xs
Holds-left [] ys buf i h = tt
Holds-left (x ∷ xs) ys buf i h = (h.0, Holds-left xs ys buf (i + 1) h.1)

Holds-append :
    (xs ys buf : Bytes) (i : ℕ)
    → Holds buf i xs
    → Holds buf (i + length xs) ys
    → Holds buf i (xs ++ ys)
Holds-append [] ys buf i h k =
    let here : i + 0 ≡ i = omega arith in subst (λ j. Holds buf j ys) here k
Holds-append (x ∷ xs) ys buf i h k =
    let next : i + suc (length xs) ≡ i + 1 + length xs = omega arith in
    (h.0, Holds-append xs ys buf (i + 1) h.1 (subst (λ j. Holds buf j ys) next k))

Holds-SameBelow :
    (bs a b : Bytes) (i n : ℕ) → i + length bs ≤ n → SameBelow n a b → Holds a i bs → Holds b i bs
Holds-SameBelow [] a b i n h f k = tt
Holds-SameBelow (x ∷ bs) a b i n h f k =
    (f i (omega arith) ∙ k.0, Holds-SameBelow bs a b (i + 1) n (omega arith) f k.1)

IsText-append : (xs ys : Bytes) → IsText xs → IsText ys → IsText (xs ++ ys)
IsText-append [] ys h k = k
IsText-append (x ∷ xs) ys h k = (h.0, IsText-append xs ys h.1 k)

-- What `setStringValue` does to the state.
pub record SetsText (s t : StringStack) (text : Bytes) : Type 0 where
  pub start : t.start ≡ s.start
  pub len : t.len ≡ length text
  pub type : t.type ≡ type_string
  pub slots : t.slots ≡ s.slots
  pub depth : t.start_stack_size ≡ s.start_stack_size
  pub holds : Holds t.buffer s.start (text ++ 0 ∷ [])
  pub below : (n : ℕ) → n ≤ s.start → n ≤ length s.buffer → SameBelow n s.buffer t.buffer
  pub room : s.start + length text + 2 ≤ length t.buffer

set_string_value-SetsText :
    (s t : StringStack) (text : Bytes) → set_string_value (some text) s ≡ some t → SetsText s t text
unfolding set_string_value
set_string_value-SetsText s t text e =
    let s0 = record s { len = length text; type = type_string } in
    let size = s.start + length text + 2 in
    let buf = (validate_buffer_size size s0).buffer in
    let bytes = text ++ 0 ∷ [] in
    let eq =
      sym (
        ap (λ (v : StringStack). some (record v { buffer = put_bytes bytes s.start v.buffer }))
          (validate_buffer_size-record size s0))
      ∙ e in
    let grown = length-validate_buffer_size size s0 in
    subst (λ z. SetsText s z text) (some-injective _ _ eq)
      (record {
        start = refl;
        len = refl;
        type = refl;
        slots = refl;
        depth = refl;
        holds =
            put_bytes-Holds bytes s.start buf (omega (arith, grown.1, length-append text (0 ∷ [])));
        below = λ n h k.
            SameBelow-trans n s.buffer buf (put_bytes bytes s.start buf)
              (SameBelow-validate_buffer_size n size s0 k)
              (SameBelow-put_bytes n s.start bytes buf h);
        room = omega (arith, grown.1, length-put_bytes bytes s.start buf);
      })

abbrev saved_slot : StringStack → Slot
saved_slot t = record { offset = t.start; size = t.len; type = t.type; value = t.value }

abbrev advanced : StringStack → StringStack
advanced t = record (save_top t) { start = t.start + t.len; len = 0; type = type_string }

advance-advanced : (t u : StringStack) → advance t ≡ some u → advanced t ≡ u
unfolding advance
advance-advanced t u e = split (ltb t.start_stack_size (max_stack_depth - 1)) e
  where
    split : (b : Bool) → (if b then some (advanced t) else none) ≡ some u → advanced t ≡ u
    split false h = absurd (ground arith)
    split true h = some-injective _ _ h

-- `rewind` of a text, when the slot below holds a text.
abbrev rewound : StringStack → ℕ → Slot → StringStack
rewound v depth x = record v {
  start_stack_size = depth;
  start = x.offset;
  type = type_string;
  value = x.value;
  len = length (c_text (drop x.offset v.buffer));
}

rewind-rewound :
    (value_size : ℕ → ℕ) (v w : StringStack) (depth : ℕ) (x : Slot)
    → v.type ≡ type_string
    → v.start_stack_size ≡ depth + 1
    → get_elem? v.slots depth ≡ some x
    → x.type ≡ type_string
    → rewind value_size v ≡ some w
    → rewound v depth x ≡ w
unfolding rewind get_head_length
rewind-rewound value_size v w depth x ty n h xt e =
    let text : (v.type == type_string) ≡ true = ground arith in
    let deep : (v.start_stack_size == 0) ≡ false = ground arith in
    let below : v.start_stack_size - 1 ≡ depth = omega arith in
    some-injective _ _ (rw (text, deep, below, h, xt) at e)

-- An operand that is set, advanced over and followed by a second one: after `rewind` the top is the
-- two texts in a row, it starts where the first one did, and the stack is as deep as before.
pub rewind-advance :
    (value_size : ℕ → ℕ) (s t u v w : StringStack) (a b : Bytes)
    → IsText a
    → IsText b
    → s.start_stack_size < length s.slots
    → set_string_value (some a) s ≡ some t
    → advance t ≡ some u
    → set_string_value (some b) u ≡ some v
    → rewind value_size v ≡ some w
    → (get_string_value w ≡ a ++ b)
      × (w.len ≡ length (a ++ b))
      × (w.start ≡ s.start)
      × (w.start_stack_size ≡ s.start_stack_size)
unfolding get_string_value save_top
rewind-advance value_size s t u v w a b ha hb room e1 e2 e3 e4 =
    let x = set_string_value-SetsText s t a e1 in
    let next = advance-advanced t u e2 in
    let y =
      set_string_value-SetsText (advanced t) v b
        (subst (λ z. set_string_value (some b) z ≡ some v) (sym next) e3) in
    let behind : t.start + t.len ≡ s.start + length a = omega (arith, x.start, x.len) in
    let slot : get_elem? v.slots s.start_stack_size ≡ some (saved_slot t) =
      ap (λ xs. get_elem? xs s.start_stack_size)
        (y.slots
          ∙ ap (λ xs. set xs t.start_stack_size (saved_slot t)) x.slots
          ∙ ap (λ i. set s.slots i (saved_slot t)) x.depth)
      ∙ get_elem?-set_self s.slots s.start_stack_size (saved_slot t) room in
    let back =
      rewind-rewound value_size v w s.start_stack_size (saved_slot t) y.type
        (omega (arith, y.depth, x.depth)) slot x.type e4 in
    let first =
      Holds-SameBelow a t.buffer v.buffer s.start (s.start + length a) (omega arith)
        (y.below (s.start + length a) (omega arith) (omega (arith, x.room)))
        (Holds-left a (0 ∷ []) t.buffer s.start x.holds) in
    let second = subst (λ i. Holds v.buffer i (b ++ 0 ∷ [])) behind y.holds in
    let both = Holds-append a (b ++ 0 ∷ []) v.buffer s.start first second in
    let text : c_text (drop t.start v.buffer) ≡ a ++ b =
      ap (λ i. c_text (drop i v.buffer)) x.start
      ∙ c_text-Holds (a ++ b) v.buffer s.start (IsText-append a b ha hb)
          (subst (Holds v.buffer s.start) (sym (append_assoc a b (0 ∷ []))) both) in
    rw (← back) (text, ap length text, x.start, refl)
