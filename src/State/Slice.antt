-- ===== src/State/Slice.antt =====
-- `substr` and the constructors of include/noam/state.hpp against the views.
use noam.Base.{
  ℕ, zero, suc, ◌+◌, ◌-◌, ◌%◌, ◌^◌, ◌≤◌, ◌<◌, ◌≡◌, ◌≢◌, refl, sym, ap, some, take, drop, ltb,
  lt→ltb, not_lt→ltb, le→leb, if◌then◌else◌, arith, Bool-cases, inl, inr,
}
use native.Mathlib.Decide.{dec_lt}
use noam.Base.Int.{size_t_mod}
use noam.State.{Memory, State, of_size, substr, substr_count, get_end_of_c_string, of_c_string}
use noam.State.View.{IsValid, chars, view}

pub chars-drop : (m : Memory) (a n k : ℕ) → drop k (chars m a n) ≡ chars m (a + k) (n - k)
unfolding chars
chars-drop m a n zero =
    let e : a + 0 ≡ a = omega arith in let e' : n - 0 ≡ n = omega arith in rw (e, e')
chars-drop m a zero (suc k) = let e : zero - suc k ≡ 0 = omega arith in rw e
chars-drop m a (suc n) (suc k) =
    let e : suc n - suc k ≡ n - k = omega arith in
    let e' : a + suc k ≡ suc a + k = omega arith in rw (e, e') (chars-drop m (suc a) n k)

pub chars-take : (m : Memory) (a n k : ℕ) → k ≤ n → take k (chars m a n) ≡ chars m a k
unfolding chars
chars-take m a n zero h = refl
chars-take m a zero (suc k) h = absurd (omega arith)
chars-take m a (suc n) (suc k) h = rw (chars-take m (suc a) n k (omega arith))

pub chars-take_all : (m : Memory) (a n k : ℕ) → n ≤ k → take k (chars m a n) ≡ chars m a n
unfolding chars
chars-take_all m a zero zero h = refl
chars-take_all m a zero (suc k) h = refl
chars-take_all m a (suc n) zero h = absurd (omega arith)
chars-take_all m a (suc n) (suc k) h = rw (chars-take_all m (suc a) n k (omega arith))

-- `substr` drops the first characters of the view, up to its end.
pub view-substr :
    (m : Memory) (st : State) (start : ℕ) → view m (substr st start) ≡ drop start (view m st)
view-substr m st start =
    let e : st.end - (st.begin + start) ≡ st.end - st.begin - start = omega arith in
    rw e (sym (chars-drop m st.begin (st.end - st.begin) start))

substr_count_in_range :
    (st : State) (start count : ℕ)
    → IsValid st
    → st.begin + start ≤ st.end
    → substr_count st start count
      ≡ of_size
          (st.begin + start)
          (if ltb (st.end - st.begin - start) count then st.end - st.begin - start else count)
unfolding substr_count
substr_count_in_range st start count v h =
    let e : (st.end - st.begin) % size_t_mod + size_t_mod - start
        ≡ st.end - st.begin - start + size_t_mod =
      omega arith in
    let e' : (st.end - st.begin - start + size_t_mod) % size_t_mod ≡ st.end - st.begin - start =
      omega arith in
    rw (le→leb _ _ v.ordered, e, e')
      (elim (Bool-cases (ltb (st.end - st.begin - start) count)) [
        | inl less ↦ rw less
        | inr more ↦ rw more
      ])

-- From a start in range, the view of `substr(start, count)` has the `count` characters
-- behind `start`, or as many as there are.
pub view-substr_count :
    (m : Memory) (st : State) (start count : ℕ)
    → IsValid st
    → st.begin + start ≤ st.end
    → view m (substr_count st start count) ≡ take count (drop start (view m st))
view-substr_count m st start count v h =
    rw (substr_count_in_range st start count v h, chars-drop m st.begin (st.end - st.begin) start)
      (elim (dec_lt (st.end - st.begin - start) count) [
        | yes less ↦
            rw
              (
                lt→ltb _ _ less,
                chars-take_all m (st.begin + start) (st.end - st.begin - start) count (omega arith),
              )
              (ap (chars m (st.begin + start)) (omega arith))
        | no more ↦
            rw
              (
                not_lt→ltb _ _ more,
                chars-take m (st.begin + start) (st.end - st.begin - start) count (omega arith),
              )
              (ap (chars m (st.begin + start)) (omega arith))
      ])

-- From a start behind the end the size wraps: the result has `count` characters, which all
-- stand behind the end of the state.
pub substr_count_out_of_range :
    (st : State) (start count : ℕ)
    → IsValid st
    → st.end < st.begin + start
    → start < 2 ^ 62
    → count < 2 ^ 63
    → substr_count st start count ≡ of_size (st.begin + start) count
unfolding substr_count
substr_count_out_of_range st start count v h k l =
    let e : ((st.end - st.begin) % size_t_mod + size_t_mod - start) % size_t_mod
        ≡ st.end - st.begin + size_t_mod - start =
      omega arith in
    rw (
      le→leb _ _ v.ordered,
      e,
      not_lt→ltb (st.end - st.begin + size_t_mod - start) count (omega arith),
    )

get_end_of_c_string_lem :
    (fuel : ℕ) (m : Memory) (ptr n : ℕ)
    → n < fuel
    → ((i : ℕ) → i < n → m (ptr + i) ≢ 0)
    → m (ptr + n) ≡ 0
    → get_end_of_c_string fuel m ptr ≡ some (ptr + n)
unfolding get_end_of_c_string
get_end_of_c_string_lem zero m ptr n h k z = absurd (omega arith)
get_end_of_c_string_lem (suc fuel) m ptr zero h k z =
    let e : ptr + zero ≡ ptr = omega arith in let z' : m ptr ≡ 0 = rw e at z in rw (z', e)
get_end_of_c_string_lem (suc fuel) m ptr (suc n) h k z =
    let e : ptr + 0 ≡ ptr = omega arith in
    let nonzero : m ptr ≢ 0 = rw e at (k 0 (omega arith)) in
    let shift : (i : ℕ) → ptr + 1 + i ≡ ptr + suc i = λ i. omega arith in
    let rest =
      get_end_of_c_string_lem fuel m (ptr + 1) n (omega arith)
        (λ i l. rw (shift i) (k (suc i) (omega arith))) (rw (shift n) z) in
    rw (rest, shift n) (ground (arith, nonzero))

-- The state of a C string ends at the first '\0': where `n` characters that are not '\0' stand
-- before one, the search ends with fuel above `n`, and the state has these `n` characters.
pub of_c_string_lem :
    (fuel : ℕ) (m : Memory) (ptr n : ℕ)
    → n < fuel
    → ((i : ℕ) → i < n → m (ptr + i) ≢ 0)
    → m (ptr + n) ≡ 0
    → of_c_string fuel m ptr ≡ some (of_size ptr n)
unfolding of_c_string
of_c_string_lem fuel m ptr n h k z = rw (get_end_of_c_string_lem fuel m ptr n h k z, of_c_string)
