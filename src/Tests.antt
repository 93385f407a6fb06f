-- ===== src/Tests.antt =====
-- Memories and states for the tests of the other components.
mod States
mod Characters
mod Grammars
mod Objects
mod Coroutines
mod Digits
mod Documents
mod Programs
mod Integers
mod Outputs
mod Benchmarks
mod Recursion
use noam.Base.{ℕ, ◌+◌, ◌-◌, ◌<◌, ◌≤◌, List, get_or, arith}
use noam.State.{State, Memory}
use noam.State.View.{IsValid}

-- A text from address 1 on, with zeroes behind it.
abbrev pub text_memory : List ℕ → Memory
text_memory text a = get_or text (a - 1) 0

-- The first characters of the text.
abbrev pub first : ℕ → State
first n = record { begin = 1; end = n + 1 }

pub first-IsValid : (n : ℕ) → n < 1000 → IsValid (first n)
first-IsValid n h = record { nonnull = omega arith; ordered = omega arith; fits = omega arith }
