-- ===== src/Subscriber/Parse/Selected.antt =====
-- The descriptors after the two passes of `ParseAndSubscribe`.
use mathlib.Core.List.{Perm}
use marte2hieratika.Base.{
  Bool, ◌≢◌, ℕ, ◌+◌, ◌≤◌, ◌≡◌, refl, sym, ap, ◌∙◌, List, [], ◌∷◌, ◌++◌, append_assoc, length,
  length-append, map, get_or, set, take, replicate, arith, true, false, ℕ_discrete, dec_le,
}
use marte2hieratika.Marte.{Text, StringHelper}
use marte2hieratika.Receiver.Directory.{load_names}
use marte2hieratika.Receiver.Directory.Sort.{
  room, take_nil, take-room_last, take-room_more, selected_none, selected_here, selected_past,
  selected, load_names-perm,
}
use marte2hieratika.Subscriber.{PvDescriptor, no_pv, EpicsParserAndSubscriber}
use marte2hieratika.Subscriber.Parse.{count_variables, fill_descriptors, parse}

-- A descriptor for each name, numbered from `i` on.
abbrev pub numbered : ℕ → List Text → List PvDescriptor
numbered i [] = []
numbered i (v ∷ vs) = record no_pv { index = i; pv_name = v } ∷ numbered (i + 1) vs

names-numbered : (i : ℕ) (vs : List Text) → map (λ pv. pv.pv_name) (numbered i vs) ≡ vs
names-numbered i [] = refl
names-numbered i (v ∷ vs) = ap (◌∷◌ v) (names-numbered (i + 1) vs)

set-behind {ℓ} :
    {A : Type ℓ} (xs ys : List A) (y v : A) → set (xs ++ (y ∷ ys)) (length xs) v ≡ xs ++ (v ∷ ys)
set-behind [] ys y v = refl
set-behind (x ∷ xs) ys y v = ap (◌∷◌ x) (set-behind xs ys y v)

get_or-behind {ℓ} :
    {A : Type ℓ} (xs ys : List A) (y d : A) → get_or (xs ++ (y ∷ ys)) (length xs) d ≡ y
get_or-behind [] ys y d = refl
get_or-behind (x ∷ xs) ys y d = get_or-behind xs ys y d

module _ (s : StringHelper) (first : Text) (limit : ℕ) where
  open s use {compare}

  count_started :
      (n : ℕ) (vs : List Text)
      → count_variables s first limit vs true n ≡ n + length (take (room limit n) vs)
  unfolding count_variables
  count_started n [] = rw (take_nil {0} _) (omega arith)
  count_started n (v ∷ vs) = elim (dec_le limit (n + 1)) [
    | yes p ↦ rw (take-room_last limit n v vs p) (ground arith)
    | no p ↦ rw (take-room_more limit n v vs p) (ground (arith, count_started (n + 1) vs))
  ]

  count_none : count_variables s first limit [] false 0 ≡ 0
  unfolding count_variables
  count_none = refl

  fill_none :
      (start : Bool) (n : ℕ) (pvs : List PvDescriptor)
      → fill_descriptors s first limit [] start n pvs ≡ pvs
  unfolding fill_descriptors
  fill_none start n pvs = refl

  -- One variable is filled in.
  abbrev named_at : ℕ → Text → List PvDescriptor → List PvDescriptor
  named_at n v pvs = set pvs n (record (get_or pvs n no_pv) { index = n; pv_name = v })

  fill_last :
      (n : ℕ) (v : Text) (vs : List Text) (pvs : List PvDescriptor)
      → limit ≤ n + 1
      → fill_descriptors s first limit (v ∷ vs) true n pvs ≡ named_at n v pvs
  unfolding fill_descriptors
  fill_last n v vs pvs h = ground arith

  fill_more :
      (n : ℕ) (v : Text) (vs : List Text) (pvs : List PvDescriptor)
      → ¬ (limit ≤ n + 1)
      → fill_descriptors s first limit (v ∷ vs) true n pvs
        ≡ fill_descriptors s first limit vs true (n + 1) (named_at n v pvs)
  unfolding fill_descriptors
  fill_more n v vs pvs h = ground arith

  named_behind :
      (ready rest : List PvDescriptor) (v : Text)
      → named_at (length ready) v (ready ++ (no_pv ∷ rest))
        ≡ ready ++ (record no_pv { index = length ready; pv_name = v } ∷ rest)
  named_behind ready rest v =
      ap
        (λ (pv : PvDescriptor).
          set (ready ++ (no_pv ∷ rest)) (length ready)
            (record pv { index = length ready; pv_name = v }))
        (get_or-behind ready rest no_pv no_pv)
      ∙ set-behind ready rest no_pv _

  fill_started :
      (vs : List Text) (ready : List PvDescriptor)
      → fill_descriptors s first limit vs true
          (length ready)
          (ready ++ replicate (length (take (room limit (length ready)) vs)) no_pv)
        ≡ ready ++ numbered (length ready) (take (room limit (length ready)) vs)
  fill_started [] ready = rw (take_nil {0} _) (fill_none true (length ready) (ready ++ []))
  fill_started (v ∷ vs) ready =
      let next = record no_pv { index = length ready; pv_name = v } in
      let size : length (ready ++ (next ∷ [])) ≡ length ready + 1 =
        length-append ready (next ∷ []) in
      elim (dec_le limit (length ready + 1)) [
        | yes p ↦
            rw (take-room_last limit (length ready) v vs p)
              (fill_last (length ready) v vs _ p ∙ named_behind ready [] v)
        | no p ↦
            let after = take (room limit (length ready + 1)) vs in
            rw (take-room_more limit (length ready) v vs p) (
              fill_more (length ready) v vs _ p
              ∙ ap (fill_descriptors s first limit vs true (length ready + 1)) (
                  named_behind ready (replicate (length after) no_pv) v
                  ∙ sym (append_assoc ready (next ∷ []) (replicate (length after) no_pv)))
              ∙ rw size at (fill_started vs (ready ++ (next ∷ [])))
              ∙ append_assoc ready (next ∷ []) (numbered (length ready + 1) after))
      ]

  start_here :
      (v : Text) (vs : List Text) (pvs : List PvDescriptor)
      → compare v first ≡ 0
      → (count_variables s first limit (v ∷ vs) false 0
          ≡ count_variables s first limit (v ∷ vs) true 0)
        × (fill_descriptors s first limit (v ∷ vs) false 0 pvs
            ≡ fill_descriptors s first limit (v ∷ vs) true 0 pvs)
  unfolding count_variables fill_descriptors
  start_here v vs pvs e = rw e (refl, refl)

  start_past :
      (v : Text) (vs : List Text) (pvs : List PvDescriptor)
      → compare v first ≢ 0
      → (count_variables s first limit (v ∷ vs) false 0 ≡ count_variables s first limit vs false 0)
        × (fill_descriptors s first limit (v ∷ vs) false 0 pvs
            ≡ fill_descriptors s first limit vs false 0 pvs)
  unfolding count_variables fill_descriptors
  start_past v vs pvs e = (ground arith, ground arith)

  abbrev chosen : List Text → List Text
  chosen vs = selected s first limit vs

  parse_waiting :
      (vs : List Text)
      → (count_variables s first limit vs false 0 ≡ length (chosen vs))
        × (fill_descriptors s first limit vs false 0 (replicate (length (chosen vs)) no_pv)
            ≡ numbered 0 (chosen vs))
  parse_waiting [] = rw (selected_none s first limit) (count_none, fill_none false 0 [])
  parse_waiting (v ∷ vs) = elim (ℕ_discrete (compare v first) 0) [
    | yes e ↦ rw (selected_here s first limit v vs e) (
      (start_here v vs [] e).0 ∙ count_started 0 (v ∷ vs) ∙ omega arith,
      (start_here v vs _ e).1 ∙ fill_started (v ∷ vs) [],
    )
    | no e ↦ rw (selected_past s first limit v vs e) (
      (start_past v vs [] e).0 ∙ (parse_waiting vs).0,
      (start_past v vs _ e).1 ∙ (parse_waiting vs).1,
    )
  ]

  -- `ParseAndSubscribe` makes a descriptor for each variable of the file from `firstVariableName`
  -- on, at most `MaxNumberOfVariables` of them (but one at least where there is one), numbered in
  -- the order of the file; and DiodeReceiver, with the same file and the same two settings, holds
  -- the same names in another order.
  pub parse-selected :
      (t : EpicsParserAndSubscriber) (vs : List Text)
      → ((parse s t first limit vs).pv_descriptor ≡ numbered 0 (selected s first limit vs))
        × ((parse s t first limit vs).number_of_variables ≡ length (selected s first limit vs))
        × Perm
            (load_names s first limit vs)
            (map (λ pv. pv.pv_name) (parse s t first limit vs).pv_descriptor)
  unfolding parse
  parse-selected t vs =
      let waiting = parse_waiting vs in
      let filled =
        ap (λ n. fill_descriptors s first limit vs false 0 (replicate n no_pv)) waiting.0
        ∙ waiting.1 in
      (
        filled,
        waiting.0,
        rw (filled, names-numbered 0 (selected s first limit vs))
            (load_names-perm s first limit vs).0,
      )
