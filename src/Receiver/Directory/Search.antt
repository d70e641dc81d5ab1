-- ===== src/Receiver/Directory/Search.antt =====
-- The binary search of `GetLocalVariableIndex` over a sorted array.
use marte2hieratika.Base.{
  ℕ_discrete, dec_lt, ◌∙◌, ℕ, zero, suc, ◌+◌, ◌-◌, ◌/◌, ◌≤◌, ◌<◌, ◌≡◌, refl, ◌≢◌, Bool, true, false,
  List, [], some, get_or, arith, subst, sym, u32_mod,
}
use marte2hieratika.Marte.{Text, StringHelper}
use marte2hieratika.Marte.Order.{Le}
use marte2hieratika.Receiver.Directory.{probe, search_loop, get_local_variable_index}

module _ (s : StringHelper) where
  open s use {compare, compare_range, compare_eq, compare_swap}

  -- The first `n` names of the array are in order.
  abbrev pub Ascending : List Text → ℕ → Type 0
  Ascending names n = (a b : ℕ) → a < b → b < n → Le s (get_or names a []) (get_or names b [])

module _ (s : StringHelper) (names : List Text) (n : ℕ) (name : Text) where
  open s use {compare, compare_range, compare_eq, compare_swap}

  -- What the loop answers for the window of `r` entries from `lo` on.
  abbrev pub Answers : ℕ → ℕ → Bool × ℕ → Type 0
  Answers lo r (true, i) = (i < n) × (get_or names i [] ≡ name)
  Answers lo r (false, i) = (k : ℕ) → lo ≤ k → k < lo + r → get_or names k [] ≢ name

  module _ (small : n < u32_mod) (sorted : Ascending s names n) where
    absent_above :
        (i k : ℕ) → compare (get_or names i []) name ≡ 2 → i ≤ k → k < n → get_or names k [] ≢ name
    absent_above i k h le lt e = elim (ℕ_discrete i k) [
      | yes same ↦ omega (
        arith,
        (compare_eq (get_or names i []) name).1
            (subst (λ x. get_or names x [] ≡ name) (sym same) e),
      )
      | no other ↦ sorted i k (omega arith) lt (
          subst (λ x. compare x (get_or names i []) ≡ 1) (sym e)
            ((compare_swap name (get_or names i [])).1 h))
    ]

    absent_below :
        (i k : ℕ) → compare (get_or names i []) name ≡ 1 → k ≤ i → i < n → get_or names k [] ≢ name
    absent_below i k h le lt e = elim (ℕ_discrete k i) [
      | yes same ↦ omega (
        arith,
        (compare_eq (get_or names i []) name).1 (subst (λ x. get_or names x [] ≡ name) same e),
      )
      | no other ↦
          sorted k i (omega arith) lt (subst (λ x. compare (get_or names i []) x ≡ 1) (sym e) h)
    ]

    probe_inside : (i : ℕ) → i < n → probe s names n name i ≡ compare (get_or names i []) name
    unfolding probe
    probe_inside i h = ground arith

    step_hit :
        (fuel r i : ℕ)
        → probe s names n name i ≡ 0
        → search_loop s names n name (suc fuel) (suc r) (suc r / 2) i ≡ some (true, i)
    unfolding search_loop
    step_hit fuel r i h = ground arith

    step_left :
        (fuel lo r : ℕ)
        → lo + suc r ≤ n
        → probe s names n name (lo + suc r / 2) ≡ 2
        → search_loop s names n name (suc fuel) (suc r) (suc r / 2) (lo + suc r / 2)
          ≡ search_loop s names n name fuel (suc r / 2) (suc r / 2 / 2) (lo + suc r / 2 / 2)
    unfolding search_loop
    step_left fuel lo r k h = ground arith

    step_right :
        (fuel lo r : ℕ)
        → lo + suc r ≤ n
        → probe s names n name (lo + suc r / 2) ≡ 1
        → search_loop s names n name (suc fuel) (suc r) (suc r / 2) (lo + suc r / 2)
          ≡ search_loop s names n name fuel
              (r - suc r / 2)
              ((r - suc r / 2) / 2)
              (suc (lo + suc r / 2) + (r - suc r / 2) / 2)
    unfolding search_loop
    step_right fuel lo r k h = ground arith

    step_empty : (fuel i : ℕ) → search_loop s names n name (suc fuel) 0 0 i ≡ some (false, i)
    unfolding search_loop
    step_empty fuel i = refl

    -- An answer for one part of a window serves for the whole where the rest is excluded.
    widen_left :
        (lo mid r : ℕ) (res : Bool × ℕ)
        → ((k : ℕ) → lo + mid ≤ k → k < lo + r → get_or names k [] ≢ name)
        → Answers lo mid res
        → Answers lo r res
    widen_left lo mid r (true, j) out ans = ans
    widen_left lo mid r (false, j) out ans =
        λ k a b. elim (dec_lt k (lo + mid)) [ yes p ↦ ans k a p | no p ↦ out k (omega arith) b ]

    widen_right :
        (lo lo' r r' : ℕ) (res : Bool × ℕ)
        → lo + r ≡ lo' + r'
        → ((k : ℕ) → lo ≤ k → k < lo' → get_or names k [] ≢ name)
        → Answers lo' r' res
        → Answers lo r res
    widen_right lo lo' r r' (true, j) e out ans = ans
    widen_right lo lo' r r' (false, j) e out ans = λ k a b. elim (dec_lt k lo') [
      | yes p ↦ out k a p
      | no p ↦ ans k (omega arith) (omega arith)
    ]

    abbrev Answered : ℕ → ℕ → ℕ → Type 0
    Answered fuel lo r =
        (res : Bool × ℕ) × (search_loop s names n name fuel r (r / 2) (lo + r / 2) ≡ some res)
        × Answers lo r res

    search_window :
        (fuel lo r : ℕ)
        → lo + suc r ≤ n
        → Answered fuel lo (suc r / 2)
        → Answered fuel (suc (lo + suc r / 2)) (r - suc r / 2)
        → Answered (suc fuel) lo (suc r)
    search_window fuel lo r k (res, e, ans) (res', e', ans') =
        let i = lo + suc r / 2 in
        let inside : i < n = omega arith in
        elim (ℕ_discrete (compare (get_or names i []) name) 0) [
          | yes hit ↦ (
            (true, i),
            step_hit fuel r i (probe_inside i inside ∙ hit),
            (inside, (compare_eq (get_or names i []) name).0 hit),
          )
          | no miss ↦ elim (ℕ_discrete (compare (get_or names i []) name) 2) [
            | yes follows ↦ (
              res,
              step_left fuel lo r k (probe_inside i inside ∙ follows) ∙ e,
              widen_left lo (suc r / 2) (suc r) res
                  (λ j a b. absent_above i j follows a (omega arith)) ans,
            )
            | no other ↦
                let precedes : compare (get_or names i []) name ≡ 1 =
                  omega (arith, compare_range (get_or names i []) name) in
                (
                  res',
                  step_right fuel lo r k (probe_inside i inside ∙ precedes) ∙ e',
                  widen_right lo (suc i) (suc r) (r - suc r / 2) res' (omega arith)
                      (λ j a b. absent_below i j precedes (omega arith) inside) ans',
                )
          ]
        ]

    search_loop_lem : (fuel lo r : ℕ) → r < fuel → lo + r ≤ n → Answered fuel lo r
    search_loop_lem zero lo r h k = elim h [ ]
    search_loop_lem (suc fuel) lo zero h k =
        ((false, lo + 0), step_empty fuel (lo + 0), λ j a b. absurd (omega arith))
    search_loop_lem (suc fuel) lo (suc r) h k =
        search_window fuel lo r k (search_loop_lem fuel lo (suc r / 2) (omega arith) (omega arith))
          (search_loop_lem fuel (suc (lo + suc r / 2)) (r - suc r / 2) (omega arith) (omega arith))

    -- The search of `GetLocalVariableIndex` over a sorted array of fewer than 2^32 names ends
    -- within its fuel: with an index inside the array whose name is the one sought, or with `false`
    -- where no entry of the array has that name.
    pub get_local_variable_index_lem :
        (res : Bool × ℕ) × (get_local_variable_index s names n name ≡ some res) × Answers 0 n res
    unfolding get_local_variable_index
    get_local_variable_index_lem =
        let start : 0 + n / 2 ≡ n / 2 = omega arith in
        rw start at (search_loop_lem (suc n) 0 n (omega arith) (omega arith))
