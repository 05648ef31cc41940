-- ===== src/Lib.antt =====
-- korkscript: the parts of the script engine whose results other parts rely on. Each file names its
-- source by its path from the repository's root.
--
-- The program. `engine/console` reads a script, compiles it and runs it. The tokenizer
-- (`simpleLexer.h`) turns the bytes of a source into tokens, decoding string literals inside its own
-- buffer; `ASTGen` (`simpleParser.h`) reads all tokens before it parses. The syntax tree
-- (`astNodes.cc`) compiles itself into a `CodeStream` (`compiler.h`, `compiler.cc`), which collects
-- words, jumps to be fixed and line breaks, and into tables of texts, numbers and identifiers. The
-- code block (`codeBlock.cc`) takes the finished stream and tables, goes to and from a file, and is
-- run by the evaluator (`compiledEval.cc`), whose operands lie on the `StringStack`
-- (`stringStack.h`).
--
-- The files.
--   Prelude             library names, Boolean tests, lists and searches, bytes and buffers
--   Lexer               `Tokenizer`: Token and State (the state, `peek`, `advance` and the skips), Decode
--                       (`decodeStringInPlace`), Scan and Words (the scanners), Next (`next`), Process
--                       (`processTokens`); Cursor and its children prove where the cursor goes, Longest
--                       and Keywords what the operator and keyword tables come to
--   Compiler            StringTable (`CompilerStringTable`), FloatTable, IdentTable (with
--                       `compileSTEtoCode` and `CodeToSTE`), VarTypes (`getVarInfo` and its contexts) and
--                       CodeStream (`CodeStream`), each with the proofs of its own below it; IdentTable
--                       takes the string table's operations and theorems
--   CodeBlock           `CodeBlock::write` and `CodeBlock::read` over a stream of bytes; Breaks has the
--                       line breaks and breakpoints (`calcBreakList`, `findBreakLine`, `setBreakpoint`),
--                       with Lines, Covering, Restore and Debugged; Pairs has its last loop, Marked what
--                       that leaves, RoundTrip the reading of what was written
--   StringStack         State (the buffer and the top), Moves (slots and frames), Args (comparison and
--                       arguments); Frames, Keeps, Within and Calls prove what a call leaves alone, Concat how
--                       texts are put together
--   Escape              `expandEscape` and `collapseEscape` (`engine/core/escape.cc`); Shapes, Gaps,
--                       RoundTrip and Inverse take one apart against the other
--   FindMatch           `FindMatch` (`engine/core/findMatch.cc`): expressions with `*` and `?`; Glob says which
--                       texts they stand for, Invariant and Loop prove `isMatch`, Pieces says what stands
--                       between the tabs, Class the rest of the class
--   FreeList            `FreeListPtr` and `Basic32` (`engine/core/freeListHandleHelpers.h`): Invariant has what
--                       the list keeps, Handles and Freed what a handle leads to
--   Opcodes             the numbers of the opcodes (`engine/embed/compilerOpcodes.h`)
--   Codegen             the nodes of expressions (`ast.h`, `astNodes.cc`): their types and operands, and in
--                       Nodes the `compile` of each, a function of those of its children; Stmts has
--                       `compileStmt` and `compileBlock`, SameScopes, Scopes, Branches and Balanced
--                       what these do to the scopes
--   Evaluator           `runVM` (`compiledEval.cc`), one round of its loop: jumps, arithmetic, comparisons
--                       and conversions on the stacks of numbers
--   Execution           the value of an expression, and that its code, run, gives it: Growth and Code (what
--                       compiling adds, and code that agrees with it), Does (pieces of code in a row),
--                       Opcode, Literal, Straight, Jumps and Branch (node by node), Correct and Program
--                       (whole expressions); Overflow and Negation are about code that goes wrong
--
-- The model. A `char` is a byte, a native number; a `U32` or `S64` that only counts is a number
-- that does not wrap, and where the source stores a position or a length in a `U32`, `u32` or a
-- bound of 2^32 is written out. A failed assertion, an exception and a read outside of memory are
-- results of their own. Interned texts are the texts themselves. A floating point literal stays the
-- text that `std::stod` converts, and which texts that function refuses is an argument
-- (`overflows`) of the tokenizer; the number table takes the comparison of its numbers as an
-- argument, and a stream holds the 64 bits of a number.
--
-- The evaluator. `F64` is a type with the operations that the program uses, the argument `Numbers`;
-- so are the shifts of `S64`, which C++ leaves open for some amounts. Of the literals of a source
-- the theorems use that two which compare equal are the same number (`AreExact`). The stacks of
-- numbers are lists with the top first, and a write beyond the array that the source has is an
-- outcome of its own for each of the two arrays. A run is a sequence of rounds, with no fuel.
--
-- Fuel. A loop of the tokenizer that moves the cursor has one unit of fuel for each byte of the
-- buffer and one more; each of its rounds takes a byte, so that the fuel is never used up: for
-- `next` and `processTokens` this is among the results. `processTokens` has two units for each
-- byte, since a byte may also give rise to a pending concatenation. A loop of a scanner whose fuel
-- runs out is counted in the state (`spins`), and then `next` gives no token (`spun`), as where the
-- loop of the source would not end; the inner loops are so part of what the results on `next` and
-- `processTokens` say. `isMatch` has a unit for each byte of the expression and each place in the
-- text where it may start again, and the search of `findBreakLine` one for each pair; that they
-- answer is among the results too.
--
-- Memory. The bit fields of a handle lie in its `U32` from the low end on. Items of a free list are
-- addresses into a memory that holds their numbers; the array that `findMatch` copies into holds
-- what was on the stack before, which is an argument.
--
-- Not modelled: the expression parser, the code generation of the nodes for variables, calls and
-- objects and of the statements `foreach`, `try` and declarations, the opcodes of the evaluator on
-- texts, variables, objects and calls, namespaces, the embedding interface, the telnet servers, all
-- of `torqueSim` and `wasm`, and the functions of the tokenizer that print a token. `read` is
-- without `linkTypes` and without the note of `calcBreakList` to the debugger; the theorem on
-- breakpoints takes the pairs as the last loop of `calcBreakList` leaves them.
-- `CodeStream::emitSTE` gets its first word from the function that is installed as `STEtoCode`,
-- which is an argument there. `StringStack` is without the operations that need the table of types
-- of the embedding interface (`setConsoleValue`, `performOp` and its kin), and without the pointer
-- to its buffer that it publishes.
pub mod Prelude
pub mod Lexer
pub mod Compiler
pub mod CodeBlock
pub mod StringStack
pub mod Escape
pub mod Opcodes
pub mod Codegen
pub mod Evaluator
pub mod Execution
pub mod FindMatch
pub mod FreeList
