-- ===== src/CodeBlock/Breaks/Debugged.antt =====
-- engine/console/codeBlock.cc: what the debugger does to the code leaves it as it was, but at the pairs.
use korkscript.Prelude.{
  Bool, Bool-cases, List, Option, [], ap, arith, inl, inr, length, ltb, none, refl, some,
  some-injective, subst, ℕ, ◌%◌, ◌/◌, ◌==◌, ◌^◌, ◌∙◌, ◌∷◌, ◌≡◌,
}
use korkscript.CodeBlock.Breaks.{
  LinePair, clear_all_breaks, clear_breakpoint, found_break, set_all_breaks, set_breakpoint, store,
  then_on,
}
use korkscript.CodeBlock.Breaks.Restore.{
  Alike, Alike-refl, Alike-set, IsBreak, Keeps, clear_all-Alike,
}
use korkscript.Opcodes.{op_break}

-- What the debugger may have done to the code.
pub data Debugged (pairs : List LinePair) (code : List ℕ) : List ℕ → Type 0 where
  untouched : Debugged pairs code code
  set_one :
      {c c' : List ℕ} (line_number : ℕ) (b : Bool)
      → Debugged pairs code c
      → set_breakpoint pairs line_number c ≡ some (c', b)
      → Debugged pairs code c'
  clear_one :
      {c c' : List ℕ} (line_number : ℕ)
      → Debugged pairs code c
      → clear_breakpoint pairs line_number c ≡ some c'
      → Debugged pairs code c'
  set_all :
      {c c' : List ℕ}
      → Debugged pairs code c
      → set_all_breaks pairs c ≡ some c'
      → Debugged pairs code c'
  clear_all :
      {c c' : List ℕ}
      → Debugged pairs code c
      → clear_all_breaks pairs c ≡ some c'
      → Debugged pairs code c'

-- The pairs of a block among which those of a call are.
abbrev Within : List LinePair → List LinePair → Type 0
Within [] all = Unit
Within ((inst_line, ip) ∷ pairs) all = IsBreak all ip × Within pairs all

Within-cons : (pairs all : List LinePair) (p : LinePair) → Within pairs all → Within pairs (p ∷ all)
Within-cons [] all p h = tt
Within-cons (q ∷ pairs) all p h = (inr h.0, Within-cons pairs all p h.1)

Within-refl : (pairs : List LinePair) → Within pairs pairs
Within-refl [] = tt
Within-refl (p ∷ pairs) = (inl refl, Within-cons pairs pairs p (Within-refl pairs))

stored :
    (all : List LinePair) (code c c' : List ℕ) (ip word : ℕ)
    → IsBreak all ip
    → Alike all code c
    → store c ip word ≡ some c'
    → Alike all code c'
stored all code c c' ip word h a e = elim (Bool-cases (ltb ip (length c))) [
  | inl k ↦
      subst (Alike all code) (some-injective _ _ (rw k at e)) (Alike-set all code c ip word h a)
  | inr k ↦ absurd (ground (arith, rw k at e))
]

set_one-Alike :
    (pairs all : List LinePair) (code c c' : List ℕ) (line_number : ℕ) (b : Bool)
    → Within pairs all
    → Alike all code c
    → set_breakpoint pairs line_number c ≡ some (c', b)
    → Alike all code c'
unfolding set_breakpoint
set_one-Alike [] all code c c' line_number b w a e =
    subst (Alike all code) (ap (λ r. r.0) (some-injective _ _ e)) a
set_one-Alike ((inst_line, ip) ∷ pairs) all code c c' line_number b w a e =
    elim (Bool-cases (inst_line / 2 ^ 8 == line_number)) [
      | inl k ↦ in_store (store c ip op_break) refl (rw k at e)
      | inr k ↦ set_one-Alike pairs all code c c' line_number b w.1 a (rw k at e)
    ]
  where
    in_store :
        (r : Option (List ℕ))
        → store c ip op_break ≡ r
        → found_break r ≡ some (c', b)
        → Alike all code c'
    in_store none q h = absurd (ground (arith, h))
    in_store (some d) q h =
        stored all code c c' ip op_break w.0 a (q ∙ ap (λ r. some r.0) (some-injective _ _ h))

clear_one-Alike :
    (pairs all : List LinePair) (code c c' : List ℕ) (line_number : ℕ)
    → Within pairs all
    → Alike all code c
    → clear_breakpoint pairs line_number c ≡ some c'
    → Alike all code c'
unfolding clear_breakpoint
clear_one-Alike [] all code c c' line_number w a e = subst (Alike all code) (some-injective _ _ e) a
clear_one-Alike ((inst_line, ip) ∷ pairs) all code c c' line_number w a e =
    elim (Bool-cases (inst_line / 2 ^ 8 == line_number)) [
      | inl k ↦ stored all code c c' ip (inst_line % 2 ^ 8) w.0 a (rw k at e)
      | inr k ↦ clear_one-Alike pairs all code c c' line_number w.1 a (rw k at e)
    ]

-- A store and what follows it.
stored_then :
    (all : List LinePair) (code c c' : List ℕ) (ip word : ℕ) (f : List ℕ → Option (List ℕ))
    → IsBreak all ip
    → Alike all code c
    → ((d : List ℕ) → Alike all code d → f d ≡ some c' → Alike all code c')
    → (r : Option (List ℕ)) → store c ip word ≡ r
    → then_on r f ≡ some c'
    → Alike all code c'
stored_then all code c c' ip word f h a k none q e = absurd (ground (arith, e))
stored_then all code c c' ip word f h a k (some d) q e = k d (stored all code c d ip word h a q) e

set_all-Alike :
    (pairs all : List LinePair) (code c c' : List ℕ)
    → Within pairs all
    → Alike all code c
    → set_all_breaks pairs c ≡ some c'
    → Alike all code c'
unfolding set_all_breaks
set_all-Alike [] all code c c' w a e = subst (Alike all code) (some-injective _ _ e) a
set_all-Alike ((inst_line, ip) ∷ pairs) all code c c' w a e =
    stored_then all code c c' ip op_break (set_all_breaks pairs) w.0 a
      (λ d b. set_all-Alike pairs all code d c' w.1 b) _ refl e

clear_all_breaks-Alike :
    (pairs all : List LinePair) (code c c' : List ℕ)
    → Within pairs all
    → Alike all code c
    → clear_all_breaks pairs c ≡ some c'
    → Alike all code c'
unfolding clear_all_breaks
clear_all_breaks-Alike [] all code c c' w a e = subst (Alike all code) (some-injective _ _ e) a
clear_all_breaks-Alike ((inst_line, ip) ∷ pairs) all code c c' w a e =
    stored_then all code c c' ip (inst_line % 2 ^ 8) (clear_all_breaks pairs) w.0 a
      (λ d b. clear_all_breaks-Alike pairs all code d c' w.1 b) _ refl e

Debugged-Alike :
    (pairs : List LinePair) (code : List ℕ) {c : List ℕ}
    → Debugged pairs code c
    → Alike pairs code c
Debugged-Alike pairs code untouched = Alike-refl pairs code
Debugged-Alike pairs code (set_one line_number b d e) =
    set_one-Alike pairs pairs code _ _ line_number b (Within-refl pairs)
      (Debugged-Alike pairs code d) e
Debugged-Alike pairs code (clear_one line_number d e) =
    clear_one-Alike pairs pairs code _ _ line_number (Within-refl pairs)
      (Debugged-Alike pairs code d) e
Debugged-Alike pairs code (set_all d e) =
    set_all-Alike pairs pairs code _ _ (Within-refl pairs) (Debugged-Alike pairs code d) e
Debugged-Alike pairs code (clear_all d e) =
    clear_all_breaks-Alike pairs pairs code _ _ (Within-refl pairs) (Debugged-Alike pairs code d) e

-- For pairs that keep the opcodes of the code: after breakpoints were set and cleared in any way, one by
-- one or all, `clearAllBreaks` stores nothing outside of the code and gives back the code.
pub clear_all_breaks-restores :
    (pairs : List LinePair) (code c : List ℕ)
    → Keeps pairs code
    → Debugged pairs code c
    → clear_all_breaks pairs c ≡ some code
clear_all_breaks-restores pairs code c k d =
    clear_all-Alike pairs code c k (Debugged-Alike pairs code d)
