-- ===== src/Formatting/Names.antt =====
-- `get_name_of_type` of include/noam/util/reflection.hpp gives the name of the type.
use noam.Base.{
  ℕ, ◌+◌, ◌-◌, ◌%◌, ◌<◌, ◌≡◌, refl, false, List, ◌++◌, length, drop, some, append_assoc,
  length-append, drop-append, take-append, not_lt→ltb, arith,
}
use noam.Base.Int.{size_t_mod}
use noam.Formatting.{
  find_last, substring, Compiler, clang, gcc, msvc, start_token, end_token, get_name_of_type,
}
use noam.Formatting.Finds.{occurs, occurs_before, find_first-token, find_last-token}

-- The end token of a compiler, without its first character.
abbrev pub end_token_rest : Compiler → List ℕ
end_token_rest compiler = drop 1 (end_token compiler)

find_last-end_token :
    (compiler : Compiler) (front after : List ℕ)
    → occurs (end_token compiler) (end_token_rest compiler ++ after) ≡ false
    → find_last (end_token compiler) (front ++ (end_token compiler ++ after)) ≡ some (length front)
find_last-end_token clang front after h = find_last-token _ _ front after h
find_last-end_token gcc front after h = find_last-token _ _ front after h
find_last-end_token msvc front after h = find_last-token _ _ front after h

substring-middle :
    (front middle behind : List ℕ)
    → substring (front ++ (middle ++ behind)) (length front) (length middle) ≡ some middle
substring-middle front middle behind =
    let sizes = length-append front (middle ++ behind) in
    rw
      (
        not_lt→ltb (length (front ++ (middle ++ behind))) (length front) (omega (arith, sizes)),
        drop-append front (middle ++ behind),
        take-append middle behind,
      )
      refl

-- Where the compiler names the function by a text of fewer than 2 ^ 64 characters, in which the name of the type
-- stands between the start token, which stands nowhere before it, and the end token, which stands
-- nowhere behind it, `get_name_of_type` returns the name of the type, for each of the compilers
-- that it tells apart.
pub get_name_of_type_lem :
    (compiler : Compiler) (before type_name after : List ℕ)
    → occurs_before
        (start_token compiler)
        before
        (start_token compiler ++ (type_name ++ (end_token compiler ++ after)))
      ≡ false
    → occurs (end_token compiler) (end_token_rest compiler ++ after) ≡ false
    → length (before ++ (start_token compiler ++ (type_name ++ (end_token compiler ++ after))))
      < size_t_mod
    → get_name_of_type compiler
        (before ++ (start_token compiler ++ (type_name ++ (end_token compiler ++ after))))
      ≡ some type_name
unfolding get_name_of_type
get_name_of_type_lem compiler before type_name after first last fits =
    let s = start_token compiler in
    let rest = end_token compiler ++ after in
    let front = before ++ s in
    let e1 = find_first-token s before (type_name ++ rest) first in
    let e2 : before ++ (s ++ (type_name ++ rest)) ≡ (front ++ type_name) ++ rest =
      simp append_assoc in
    let e3 = find_last-end_token compiler (front ++ type_name) after last in
    let n1 = length-append before s in
    let n2 = length-append front type_name in
    let n3 = length-append (front ++ type_name) rest in
    let small = rw e2 at fits in
    let start : (length before + length s) % size_t_mod ≡ length front =
      omega (arith, n1, n2, n3, small) in
    let count : (length (front ++ type_name) + size_t_mod - length front) % size_t_mod
        ≡ length type_name =
      omega (arith, n1, n2, n3, small) in
    let e4 = append_assoc front type_name rest in
    rw (e1, start, e2, e3, count, e4, substring-middle front type_name rest) refl
