-- ===== src/State.antt =====
-- include/noam/state.hpp: the nullable view of a range of characters that every parser reads.
-- A pointer is an address, 0 is the null pointer, and the characters stand in a memory.
pub mod View
pub mod Prefix
pub mod Order
pub mod Slice
pub mod Assertions
use noam.Base.{
  ℕ, zero, suc, ◌+◌, ◌-◌, ◌%◌, ◌^◌, compare, Ordering, Bool, true, false, not, ◌&&◌, ltb, leb, ◌==◌,
  if◌then◌else◌, Option, none, some, List, length, get_or, ◌>>=◌,
}
use noam.Base.Int.{ℤ, pos, sub_ℕ, ltb_ℤ, eq_ℤ, pos_part, size_t_mod, to_size_t}

-- The character at each address, as a byte.
abbrev pub Memory : Type 0
Memory = ℕ → ℕ

pub record State : Type 0 where
  pub begin : ℕ
  pub end : ℕ

abbrev pub null_state : State
null_state = record { begin = 0; end = 0 }

-- Constructors: from two pointers, from a pointer and a size, and from a C string (with fuel for
-- the search of its end).
abbrev pub of_size : ℕ → ℕ → State
of_size ptr count = record { begin = ptr; end = ptr + count }

unfoldable pub get_end_of_c_string : ℕ → Memory → ℕ → Option ℕ
get_end_of_c_string zero m ptr = none
get_end_of_c_string (suc fuel) m ptr =
    let rest = get_end_of_c_string fuel m (ptr + 1) in if m ptr == 0 then some ptr else rest

unfoldable pub of_c_string : ℕ → Memory → ℕ → Option State
of_c_string fuel m ptr = do
  ends ← get_end_of_c_string fuel m ptr
  some (record { begin = ptr; end = ends })

-- An array of `n` characters, less its last one where that is '\0'.
unfoldable pub of_array : Memory → ℕ → ℕ → State
of_array m array n = record {
  begin = array;
  end = array + n - (if m (array + n - 1) == 0 then 1 else 0);
}

abbrev pub good : State → Bool
good st = not (st.begin == 0)

abbrev pub null : State → Bool
null st = st.begin == 0

abbrev pub empty : State → Bool
empty st = leb st.end st.begin

abbrev pub has : State → Bool
has st = ltb st.begin st.end

abbrev pub size : State → ℤ
size st = sub_ℕ st.end st.begin

abbrev pub at : Memory → State → ℕ → ℕ
at m st index = m (st.begin + index)

abbrev pub first : Memory → State → ℕ
first m st = m st.begin

abbrev pub last : Memory → State → ℕ
last m st = m (st.end - 1)

abbrev pub substr : State → ℕ → State
substr st start = record { begin = st.begin + start; end = st.end }

-- `size() - start` is computed in `size_t`, and wraps.
unfoldable pub substr_count : State → ℕ → ℕ → State
substr_count st start count =
    let room = (to_size_t (size st) + size_t_mod - start) % size_t_mod in
    if ltb room count then of_size (st.begin + start) room else of_size (st.begin + start) count

abbrev pub remove_prefix : State → ℕ → State
remove_prefix st n = record st { begin = st.begin + n }

abbrev pub remove_suffix : State → ℕ → State
remove_suffix st n = record st { end = st.end - n }

abbrev pub swap : State → State → State × State
swap st other = (other, st)

-- The loop that compares `count` characters one by one, from `i` on.
unfoldable pub same_chars : (ℕ → ℕ) → (ℕ → ℕ) → ℕ → ℕ → Bool
same_chars f g i zero = true
same_chars f g i (suc count) =
    let rest = same_chars f g (i + 1) count in if not (f i == g i) then false else rest

unfoldable pub starts_with : Memory → State → State → Bool
starts_with m st prefix =
    if ltb_ℤ (size st) (size prefix)
    then false
    else same_chars (at m prefix) (at m st) 0 (pos_part (size prefix))

-- The overload for an array of characters, whose last one is not compared.
unfoldable pub starts_with_array : Memory → State → List ℕ → Bool
starts_with_array m st prefix =
    if ltb_ℤ (size st) (pos (length prefix))
    then false
    else same_chars (λ i. get_or prefix i 0) (at m st) 0 (length prefix)

abbrev pub starts_with_char : Memory → State → ℕ → Bool
starts_with_char m st ch = ltb st.begin st.end && m st.begin == ch

-- `operator==`
unfoldable pub eq : Memory → State → State → Bool
eq m st other =
    if not (eq_ℤ (size other) (size st))
    then false
    else same_chars (at m other) (at m st) 0 (pos_part (size other))

-- A character's place in the order of `char`, which is signed or unsigned as the compiler has it.
abbrev pub char_rank : Bool → ℕ → ℕ
char_rank signed c = if signed then (c + 128) % 256 else c

-- The loop of `operator<=>` goes on past two equal characters, and returns any other order.
unfoldable pub unless_eq : Ordering → Ordering → Ordering
unless_eq Ordering.lt next = Ordering.lt
unless_eq Ordering.gt next = Ordering.gt
unless_eq Ordering.eq next = next

-- The loop over the common length; `rest` is returned behind it.
unfoldable pub compare_chars : Bool → (ℕ → ℕ) → (ℕ → ℕ) → ℕ → ℕ → Ordering → Ordering
compare_chars signed f g i zero rest = rest
compare_chars signed f g i (suc count) rest =
    let next = compare_chars signed f g (i + 1) count rest in
    unless_eq (compare (char_rank signed (f i)) (char_rank signed (g i))) next

-- `operator<=>`; a negative size counts as 0.
unfoldable pub order : Bool → Memory → State → State → Ordering
order signed m st other =
    let s1 = pos_part (size st) in
    let s2 = pos_part (size other) in
    let count = if ltb s1 s2 then s1 else s2 in
    compare_chars signed (at m st) (at m other) 0 count (compare s1 s2)

-- `clear`, `get_state`, `set_state` and the literal operator `_st`.
abbrev pub clear : State → State
clear st = record st { begin = 0; end = 0 }

abbrev pub get_state : State → State
get_state st = st

abbrev pub set_state : State → State → State
set_state st other = other

abbrev pub literal_st : ℕ → ℕ → State
literal_st ptr len = of_size ptr len
