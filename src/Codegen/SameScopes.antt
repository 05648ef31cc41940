-- ===== src/Codegen/SameScopes.antt =====
-- engine/console/astNodes.cc: the scopes of the stream before and after a piece of code.
use korkscript.Prelude.{
  Bool, List, [], append-nil, append_assoc, false, if◌then◌else◌, refl, sym, true, ℕ, ◌++◌, ◌∙◌,
  ◌≡◌,
}
use korkscript.Codegen.{Codegen, Compile, TypeReq, conversion_op, same_req}
use korkscript.Codegen.Nodes.{
  both_sides, convert, emit_stack_conversion, patch_to, put, typed_operation,
}
use korkscript.Compiler.CodeStream.{FixType, emit, emit_words, patch}
use korkscript.Opcodes.{op_push_typed}

module _ {F : Type 0} where
  -- The scopes are as before; jumps that are to be fixed may have been added.
  pub record SameScopes (g u : Codegen F) : Type 0 where
    pub more : List (ℕ × FixType)
    pub fix_list : u.stream.fix_list ≡ g.stream.fix_list ++ more
    pub fix_stack : u.stream.fix_stack ≡ g.stream.fix_stack
    pub loops : u.stream.fix_loop_stack ≡ g.stream.fix_loop_stack
    pub switches : u.stream.switch_scope_depth ≡ g.stream.switch_scope_depth
    pub returns : u.stream.return_type_stack ≡ g.stream.return_type_stack

  -- The stream has the same scopes and fixes.
  pub same_scopes :
      {g u : Codegen F}
      → u.stream.fix_list ≡ g.stream.fix_list
      → u.stream.fix_stack ≡ g.stream.fix_stack
      → u.stream.fix_loop_stack ≡ g.stream.fix_loop_stack
      → u.stream.switch_scope_depth ≡ g.stream.switch_scope_depth
      → u.stream.return_type_stack ≡ g.stream.return_type_stack
      → SameScopes g u
  same_scopes a b c d e = record {
    more = [];
    fix_list = a ∙ sym (append-nil _);
    fix_stack = b;
    loops = c;
    switches = d;
    returns = e;
  }

  pub SameScopes-refl : (g : Codegen F) → SameScopes g g
  SameScopes-refl g = same_scopes refl refl refl refl refl

  pub SameScopes-trans : {g u w : Codegen F} → SameScopes g u → SameScopes u w → SameScopes g w
  SameScopes-trans {g} a b = record {
    more = a.more ++ b.more;
    fix_list = rw (b.fix_list, a.fix_list) (append_assoc g.stream.fix_list a.more b.more);
    fix_stack = b.fix_stack ∙ a.fix_stack;
    loops = b.loops ∙ a.loops;
    switches = b.switches ∙ a.switches;
    returns = b.returns ∙ a.returns;
  }

  pub SameScopes-put : (g : Codegen F) (w : ℕ) → SameScopes g (put g w)
  unfolding put emit emit_words
  SameScopes-put g w = same_scopes refl refl refl refl refl

  pub SameScopes-patch : (g : Codegen F) (a v : ℕ) → SameScopes g (patch_to g a v)
  unfolding patch_to patch
  SameScopes-patch g a v = same_scopes refl refl refl refl refl

  -- One more word at the end.
  pub then_put : {g u : Codegen F} (w : ℕ) → SameScopes g u → SameScopes g (put u w)
  then_put {g} {u} w a = SameScopes-trans a (SameScopes-put u w)

  pub then_patch : {g u : Codegen F} (a v : ℕ) → SameScopes g u → SameScopes g (patch_to u a v)
  then_patch {g} {u} a v s = SameScopes-trans s (SameScopes-patch u a v)

  pub if_SameScopes :
      {g u w : Codegen F} (b : Bool)
      → SameScopes g u
      → SameScopes g w
      → SameScopes g (if b then u else w)
  if_SameScopes true x y = x
  if_SameScopes false x y = y

  -- A node that leaves the scopes, whatever it is asked for.
  abbrev pub KeepsScopes : Compile F → Type 0
  KeepsScopes c = (g : Codegen F) (ip : ℕ) (type : TypeReq) → SameScopes g (c g ip type).0

  pub then_convert :
      {g u : Codegen F} (from to : TypeReq) → SameScopes g u → SameScopes g (convert from to u)
  unfolding convert emit_stack_conversion
  then_convert from to s = if_SameScopes (same_req from to) s (then_put (conversion_op from to) s)

  pub then_both :
      {g u : Codegen F} (typed : Bool) (side : TypeReq) (r l : Compile F) (ip : ℕ)
      → KeepsScopes r
      → KeepsScopes l
      → SameScopes g u
      → SameScopes g (both_sides typed side r l u ip)
  unfolding both_sides
  then_both {g} {u} typed side r l ip kr kl s =
      let first = SameScopes-trans s (kr u ip side) in
      SameScopes-trans (if_SameScopes typed (then_put op_push_typed first) first) (kl _ _ side)

  pub then_operation :
      {g u : Codegen F} (typed right : Bool) (op : ℕ)
      → SameScopes g u
      → SameScopes g (if typed then typed_operation right op u else put u op)
  unfolding typed_operation
  then_operation true right op s = then_put op (then_put _ s)
  then_operation false right op s = then_put op s
