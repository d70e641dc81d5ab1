-- ===== src/Subscriber/Memory/Regions.antt =====
-- The regions of the variables in the memory of a thread.
use marte2hieratika.Base.{
  length-map, true, false, ◌%◌, u64_mod, ◌*◌, ℕ, zero, suc, ◌+◌, ◌≤◌, ◌<◌, ◌≡◌, refl, List, [], ◌∷◌,
  map, length, get_or, arith, add32, u32_mod, ltb, Bool-cases, inl, inr, if◌then◌else◌,
}
use native.Mathlib.Nat.{mod-eq_of_lt}
use marte2hieratika.Subscriber.{PvDescriptor, no_pv, value_size}
use marte2hieratika.Subscriber.Memory.{discard_large, sum_sizes, place, lay_out}

-- The bytes of a subscribed variable: its value and its timestamp. A variable without elements has
-- none.
abbrev pub region_size : PvDescriptor → ℕ
region_size pv = if ltb 0 pv.number_of_elements then value_size pv + 8 else 0

abbrev pub total_size : List PvDescriptor → ℕ
total_size [] = 0
total_size (pv ∷ pvs) = region_size pv + total_size pvs

region_whole :
    (pv : PvDescriptor) → ltb 0 pv.number_of_elements ≡ true → region_size pv ≡ value_size pv + 8
region_whole pv e = rw e refl

region_none : (pv : PvDescriptor) → ltb 0 pv.number_of_elements ≡ false → region_size pv ≡ 0
region_none pv e = rw e refl

-- What the first loop adds for a variable is its region, or the eight bytes of a timestamp that
-- nobody writes.
region_bounds :
    (pv : PvDescriptor) → (region_size pv ≤ value_size pv + 8) × (value_size pv ≤ region_size pv)
region_bounds pv = elim (Bool-cases (ltb 0 pv.number_of_elements)) [
  | inl e ↦ let w = region_whole pv e in (omega arith, omega arith)
  | inr e ↦
      let none : pv.number_of_elements ≡ 0 = ground arith in
      let empty : value_size pv ≡ 0 = rw none (omega arith) in
      let w = region_none pv e in (omega (arith, w), omega (arith, empty))
]

-- The place behind a variable, and the region of it.
place_next :
    (pv : PvDescriptor) (start : ℕ)
    → start + region_size pv < u32_mod
    → (if ltb 0 pv.number_of_elements then add32 start (value_size pv + 8) else start)
      ≡ start + region_size pv
place_next pv start h = elim (Bool-cases (ltb 0 pv.number_of_elements)) [
  | inl e ↦ rw e (omega (arith, region_whole pv e))
  | inr e ↦ rw e (omega (arith, region_none pv e))
]

abbrev pub placed_at : List PvDescriptor → ℕ → ℕ → PvDescriptor
placed_at pvs start i = get_or (place pvs start) i no_pv

pub place-above :
    (pvs : List PvDescriptor) (start i : ℕ)
    → start + total_size pvs < u32_mod
    → i < length pvs
    → (start ≤ (placed_at pvs start i).offset)
      × ((placed_at pvs start i).offset + region_size (placed_at pvs start i)
          ≤ start + total_size pvs)
unfolding place
place-above [] start i h lt = absurd (omega arith)
place-above (pv ∷ pvs) start zero h lt = ground arith
place-above (pv ∷ pvs) start (suc i) h lt =
    let ih = place-above pvs (start + region_size pv) i (omega arith) (omega arith) in
    rw (place_next pv start (omega arith)) (omega (arith, ih.0), omega (arith, ih.1))

pub place-apart :
    (pvs : List PvDescriptor) (start i j : ℕ)
    → start + total_size pvs < u32_mod
    → i < j
    → j < length pvs
    → (placed_at pvs start i).offset + region_size (placed_at pvs start i)
      ≤ (placed_at pvs start j).offset
unfolding place
place-apart [] start i j h ij lt = absurd (omega arith)
place-apart (pv ∷ pvs) start zero zero h ij lt = absurd (omega arith)
place-apart (pv ∷ pvs) start (suc i) zero h ij lt = absurd (omega arith)
place-apart (pv ∷ pvs) start zero (suc j) h ij lt =
    let above = place-above pvs (start + region_size pv) j (omega arith) (omega arith) in
    rw (place_next pv start (omega arith)) (omega (arith, above.0))
place-apart (pv ∷ pvs) start (suc i) (suc j) h ij lt =
    let ih =
      place-apart pvs (start + region_size pv) i j (omega arith) (omega arith) (omega arith) in
    rw (place_next pv start (omega arith)) (omega (arith, ih))

-- The first loop makes room for all the regions.
pub sum_sizes_lem :
    (limit : ℕ) (pvs : List PvDescriptor) (size : ℕ)
    → size + 8 * length pvs + total_size (map (discard_large limit) pvs) < u32_mod
    → size + total_size (map (discard_large limit) pvs) ≤ sum_sizes limit pvs size
unfolding sum_sizes discard_large
sum_sizes_lem limit [] size h = omega arith
sum_sizes_lem limit (pv ∷ pvs) size h = elim (Bool-cases (ltb limit pv.number_of_elements)) [
  | inl e ↦
      let gone : region_size (discard_large limit pv) ≡ 0 = rw e refl in
      let ih = sum_sizes_lem limit pvs size (omega (arith, h, gone)) in
      rw (gone, e) (omega (arith, ih))
  | inr e ↦
      let kept : region_size (discard_large limit pv) ≡ region_size pv = rw e refl in
      let bounds = region_bounds pv in
      let whole : (size + (value_size pv + 8)) % u64_mod ≡ size + (value_size pv + 8) =
        mod-eq_of_lt (omega (arith, h, kept, bounds.1)) in
      let ih =
        sum_sizes_lem limit pvs (size + (value_size pv + 8)) (omega (arith, h, kept, bounds.1)) in
      rw (kept, e, whole) (omega (arith, ih, bounds.0))
]

-- Where the sizes of a range of variables do not reach 2^32, with eight bytes more for each,
-- `FillMemorySizes` gives each variable with elements a region of its own in the memory of the
-- thread, of as many bytes as its value has and eight more: the region of a variable ends before
-- that of a later one begins, and the later one ends inside the memory. A variable without elements
-- has no bytes there.
pub lay_out-apart :
    (limit : ℕ) (pvs : List PvDescriptor) (i j : ℕ)
    → 8 * length pvs + total_size (map (discard_large limit) pvs) < u32_mod
    → i < j
    → j < length pvs
    → let (placed, size) = lay_out limit pvs 0 in
      ((get_or placed i no_pv).offset + region_size (get_or placed i no_pv)
        ≤ (get_or placed j no_pv).offset)
      × ((get_or placed j no_pv).offset + region_size (get_or placed j no_pv) ≤ size)
unfolding lay_out
lay_out-apart limit pvs i j h ij lt =
    let kept = map (discard_large limit) pvs in
    let same = length-map pvs (discard_large limit) in
    let room = sum_sizes_lem limit pvs 0 (omega arith) in
    let inside = place-above kept 0 j (omega arith) (omega (arith, same)) in
    (place-apart kept 0 i j (omega arith) ij (omega (arith, same)), omega (arith, room, inside.1))
