-- ===== src/Receiver/Directory.antt =====
-- The directory of variables in DiodeReceiver.cpp: the two passes over the input file and the
-- insertion sort of `Initialise`, and the binary search `GetLocalVariableIndex`.
pub mod Search
pub mod Sort
use marte2hieratika.Base.{
  ℕ, zero, suc, ◌+◌, ◌/◌, ◌%◌, ◌≡◌, Bool, true, false, List, [], ◌∷◌, Option, none, some, ltb, leb,
  ◌==◌, ◌||◌, if◌then◌else◌, get_or, set, add32, sub32, replicate,
}
use marte2hieratika.Marte.{Text, StringHelper}

-- `StringHelper::Copy` three times: the names at `i` and `j` change places.
unfoldable pub swap_names : List Text → ℕ → ℕ → List Text
swap_names names i j = set (set names j (get_or names i [])) i (get_or names j [])

module _ (s : StringHelper) where
  open s use {compare}

  -- The first pass of `Initialise` over the variables of the file, in order: it counts from
  -- `firstVariableName` on, and stops at `maxNumberOfVariables`.
  unfoldable pub count_variables : Text → ℕ → List Text → Bool → ℕ → ℕ
  count_variables first max [] start n = n
  count_variables first max (v ∷ vs) start n =
      let start' = start || (compare v first == 0) in
      let n' = if start' then n + 1 else n in
      let rest = count_variables first max vs start' n' in
      if start' then (if leb max n' then n' else rest) else rest

  -- `for (j = counter; j > 0; j--)`: the name at `j` moves down while it precedes the one below.
  unfoldable pub sift_name : ℕ → List Text → List Text
  sift_name zero names = names
  sift_name (suc j) names =
      let rest = sift_name j (swap_names names (suc j) j) in
      if compare (get_or names (suc j) []) (get_or names j []) == 1 then rest else names

  -- The second pass: the names are copied into the array and sorted in.
  unfoldable pub fill_names : Text → ℕ → List Text → Bool → ℕ → List Text → List Text
  fill_names first max [] start counter names = names
  fill_names first max (v ∷ vs) start counter names =
      let start' = start || (compare v first == 0) in
      let names' = if start' then sift_name counter (set names counter v) else names in
      let counter' = if start' then counter + 1 else counter in
      let rest = fill_names first max vs start' counter' names' in
      if start' then (if leb max counter' then names' else rest) else rest

  -- The names of `pvs` after both passes.
  unfoldable pub load_names : Text → ℕ → List Text → List Text
  load_names first max vs =
      fill_names first max vs false 0 (replicate (count_variables first max vs false 0) [])

  -- One comparison of the loop in `GetLocalVariableIndex`: 2 outside the array.
  pub probe : List Text → ℕ → Text → ℕ → ℕ
  probe names n name index = if leb n index then 2 else compare (get_or names index []) name

  -- The loop, on fuel; its result is `ok` and `index`, and `none` when the fuel runs out.
  pub search_loop : List Text → ℕ → Text → ℕ → ℕ → ℕ → ℕ → Option (Bool × ℕ)
  search_loop names n name zero range_1 range index = none
  search_loop names n name (suc fuel) range_1 range index =
      let res = probe names n name index in
      let left =
        (let index' = (if range % 2 == 1 then sub32 index 1 else index) in
          search_loop names n name fuel range (range / 2) (sub32 index' (range / 2))) in
      let right =
        (let range_1' = (if range_1 % 2 == 0 then sub32 range 1 else range) in
          search_loop names n name fuel range_1' (range_1' / 2) (add32 index (range_1' / 2 + 1))) in
      let again = search_loop names n name fuel range_1 range index in
      if ltb 0 range_1
      then if res == 0
        then some (true, index)
        else if res == 2
        then left
        else if res == 1
        then right
        else again
      else some (false, index)

  pub get_local_variable_index : List Text → ℕ → Text → Option (Bool × ℕ)
  get_local_variable_index names n name = search_loop names n name (suc n) n (n / 2) (n / 2)
