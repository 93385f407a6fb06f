-- ===== src/Literal.antt =====
-- include/noam/util/literal.hpp: the literals that stand as template arguments.
pub mod Match
use noam.Base.{ℕ, suc, Bool, true, false, List, [], ◌∷◌, length, if◌then◌else◌}
use noam.State.{State, Memory, starts_with_array, starts_with_char, remove_prefix, same_chars}

-- `string_literal<N>`, `char_literal` and `empty_literal`, of which `any_literal` is built.
pub data Literal : Type 0 where
  string_literal : List ℕ → Literal
  char_literal : ℕ → Literal
  empty_literal : Literal

abbrev pub size : Literal → ℕ
size (string_literal str) = length str
size (char_literal ch) = 1
size empty_literal = 0

-- `check_and_update`: whether the state starts with the literal, and the state behind it. The
-- characters of a string literal stand in an array of their own.
unfoldable pub check_and_update : Literal → Memory → State → Bool × State
check_and_update (string_literal str) m st =
    if starts_with_array m st str then (true, remove_prefix st (length str)) else (false, st)
check_and_update (char_literal ch) m st =
    if starts_with_char m st ch then (true, remove_prefix st 1) else (false, st)
check_and_update empty_literal m st = (true, st)

-- `(Literals.check_and_update(st) || ...)`
unfoldable pub check_any : List Literal → Memory → State → Bool × State
check_any [] m st = (false, st)
check_any (lit ∷ lits) m st =
    let (found, next) = check_and_update lit m st in
    if found then (true, next) else check_any lits m next
