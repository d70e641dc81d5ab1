-- ===== src/Receiver/Start/Ready.antt =====
-- The shape that `Start` gives a DiodeReceiver.
use marte2hieratika.Base.{
  ℕ, zero, suc, ◌+◌, ◌*◌, ◌≤◌, ◌<◌, ◌≡◌, refl, ap, ◌∙◌, inl, List, [], ◌∷◌, map, length, get_or,
  replicate, length-replicate, add32, mul32, u32_mod, arith,
}
use native.Mathlib.Nat.{mod-eq_of_lt}
use marte2hieratika.Marte.{Text, StringHelper}
use marte2hieratika.Receiver.{PvRecDescriptor, Receiver, no_pv, index_init_id}
use marte2hieratika.Receiver.Directory.Search.{Ascending}
use marte2hieratika.Receiver.Store.Layout.{IsStarted, names_of, region_end}
use marte2hieratika.Receiver.Start.{place_from, sum_from, start}

-- The bytes of all values and timestamps.
abbrev pub bytes_of : List PvRecDescriptor → ℕ
bytes_of [] = 0
bytes_of (pv ∷ pvs) = pv.total_size + 8 + bytes_of pvs

sum_from_lem :
    (pvs : List PvRecDescriptor) (total : ℕ)
    → total + bytes_of pvs < u32_mod
    → sum_from pvs total ≡ total + bytes_of pvs
unfolding sum_from
sum_from_lem [] total h = omega arith
sum_from_lem (pv ∷ pvs) total h =
    let next : add32 total (pv.total_size + 8) ≡ total + (pv.total_size + 8) =
      mod-eq_of_lt (omega arith) in
    rw next (sum_from_lem pvs (total + (pv.total_size + 8)) (omega arith) ∙ omega arith)

length-place_from :
    (pvs : List PvRecDescriptor) (total : ℕ) → length (place_from pvs total) ≡ length pvs
unfolding place_from
length-place_from [] total = refl
length-place_from (pv ∷ pvs) total = ap suc (length-place_from pvs _)

names-place_from :
    (pvs : List PvRecDescriptor) (total : ℕ)
    → map (λ pv. pv.pv_name) (place_from pvs total) ≡ map (λ pv. pv.pv_name) pvs
unfolding place_from
names-place_from [] total = refl
names-place_from (pv ∷ pvs) total =
    ap (◌∷◌ pv.pv_name) (names-place_from pvs (add32 total (pv.total_size + 8)))

abbrev placed_at : List PvRecDescriptor → ℕ → ℕ → PvRecDescriptor
placed_at pvs total i = get_or (place_from pvs total) i no_pv

placed_inside :
    (pvs : List PvRecDescriptor) (total i : ℕ)
    → total + bytes_of pvs < u32_mod
    → i < length pvs
    → (total ≤ (placed_at pvs total i).offset)
      × (region_end (placed_at pvs total i) ≤ total + bytes_of pvs)
unfolding place_from
placed_inside [] total i h lt = absurd (omega arith)
placed_inside (pv ∷ pvs) total zero h lt = (omega arith, omega arith)
placed_inside (pv ∷ pvs) total (suc i) h lt =
    let next : add32 total (pv.total_size + 8) ≡ total + (pv.total_size + 8) =
      mod-eq_of_lt (omega arith) in
    let ih = placed_inside pvs (total + (pv.total_size + 8)) i (omega arith) (omega arith) in
    rw next (omega (arith, ih.0), omega (arith, ih.1))

placed_apart :
    (pvs : List PvRecDescriptor) (total i j : ℕ)
    → total + bytes_of pvs < u32_mod
    → i < j
    → j < length pvs
    → region_end (placed_at pvs total i) ≤ (placed_at pvs total j).offset
unfolding place_from
placed_apart [] total i j h ij lt = absurd (omega arith)
placed_apart (pv ∷ pvs) total i zero h ij lt = absurd (omega arith)
placed_apart (pv ∷ pvs) total zero (suc j) h ij lt =
    let next : add32 total (pv.total_size + 8) ≡ total + (pv.total_size + 8) =
      mod-eq_of_lt (omega arith) in
    let above = placed_inside pvs (total + (pv.total_size + 8)) j (omega arith) (omega arith) in
    rw next (omega (arith, above.0))
placed_apart (pv ∷ pvs) total (suc i) (suc j) h ij lt =
    let next : add32 total (pv.total_size + 8) ≡ total + (pv.total_size + 8) =
      mod-eq_of_lt (omega arith) in
    rw next
      (placed_apart pvs (total + (pv.total_size + 8)) i j (omega arith) (omega arith) (omega arith))

get_or-replicate {ℓ} : {A : Type ℓ} (n : ℕ) (a : A) (k : ℕ) → get_or (replicate n a) k a ≡ a
get_or-replicate zero a k = refl
get_or-replicate (suc n) a zero = refl
get_or-replicate (suc n) a (suc k) = get_or-replicate n a k

-- `Start` leaves a well-formed receiver: every variable has a region of its own in the buffers for
-- its value and its timestamp, the flags and the cache of indices have their sizes, and no index is
-- mapped. Twice the number of variables and the bytes of all values and timestamps are below 2^32,
-- and the names are in the order of `StringHelper::Compare`.
pub start-IsStarted :
    (s : StringHelper) (sender : ℕ → Text) (r : Receiver)
    → length r.pvs ≡ r.number_of_variables
    → 2 * r.number_of_variables < u32_mod
    → bytes_of r.pvs < u32_mod
    → Ascending s (names_of r) r.number_of_variables
    → IsStarted s sender (start r)
unfolding start
start-IsStarted s sender r count few small sorted =
    let total = sum_from_lem r.pvs 0 (omega arith) in
    let size = length-replicate {A = ℕ} (sum_from r.pvs 0) 0 in
    record {
      laid = record {
        count = length-place_from r.pvs 0 ∙ count;
        few = omega arith;
        inside = λ i lt.
            let p = placed_inside r.pvs 0 i (omega arith) (omega arith) in
            omega (arith, p.1, size, total);
        apart = λ i j ij lt. placed_apart r.pvs 0 i j (omega arith) ij (omega arith);
        prec_size = refl;
        flags_size = length-replicate r.number_of_variables 0;
        mapping_size =
            let twice : mul32 2 r.number_of_variables ≡ 2 * r.number_of_variables =
              mod-eq_of_lt few in
            omega (arith, twice, length-replicate (mul32 2 r.number_of_variables) index_init_id);
      };
      sorted = rw (names-place_from r.pvs 0) sorted;
      mapped = λ k. inl (get_or-replicate (mul32 2 r.number_of_variables) index_init_id k);
    }
