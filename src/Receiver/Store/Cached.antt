-- ===== src/Receiver/Store/Cached.antt =====
-- The cache of indices in `GetLocalIndex`, asked again.
use marte2hieratika.Base.{
  ◌==◌, map, Option, some, none, Bool, ==_iff, get_or-set_self, ℕ, ◌<◌, ◌≡◌, refl, ◌∙◌, ◌⊎◌, inl,
  inr, true, false, get_or, set, arith,
}
use marte2hieratika.Marte.{Text, StringHelper}
use marte2hieratika.Receiver.{index_init_id, index_not_found_id, Receiver}
use marte2hieratika.Receiver.Message.{Header}
use marte2hieratika.Receiver.Store.{get_local_variable_index, find_index, resolve_index}
use marte2hieratika.Receiver.Store.Layout.{IsStarted}
use marte2hieratika.Receiver.Store.Resolve.{Resolved}

module _ (s : StringHelper) where
  -- What `GetLocalIndex` does with a header depends on the name and the index only.
  pub find_index_same :
      (r : Receiver) (h k : Header)
      → h.var_name ≡ k.var_name
      → h.received_index ≡ k.received_index
      → find_index s r h ≡ find_index s r k
  unfolding find_index resolve_index
  find_index_same r h k e i = rw (e, i) refl

  module _ (sender : ℕ → Text) (r : Receiver) (h : Header) (v : IsStarted s sender r)
      (known : h.received_index < r.number_of_variables) where
    -- An index that was found is in the cache from then on.
    cached_index :
        (i : ℕ)
        → (i < r.number_of_variables) ⊎ (i ≡ index_not_found_id)
        → find_index s (record r { pv_mapping = set r.pv_mapping h.received_index i }) h
          ≡ (record r { pv_mapping = set r.pv_mapping h.received_index i }, i)
    unfolding find_index
    cached_index i found =
        let entry =
          get_or-set_self r.pv_mapping h.received_index i index_init_id
            (omega (arith, v.laid.mapping_size)) in
        let other : (i == index_init_id) ≡ false = elim found [
          | inl inside ↦ ground (arith, v.laid.few)
          | inr missing ↦ ground arith
        ] in
        rw (entry, other) refl

    resolve_cases :
        (o : Option (Bool × ℕ))
        → get_local_variable_index s (map (λ pv. pv.pv_name) r.pvs) r.number_of_variables h.var_name
          ≡ o
        → ((i : ℕ) × (resolve_index s r h
              ≡ (record r { pv_mapping = set r.pv_mapping h.received_index i }, i)))
          ⊎ (resolve_index s r h ≡ (r, index_not_found_id))
    unfolding resolve_index
    resolve_cases none e = inr (rw (e, resolve_index) refl)
    resolve_cases (some (true, i)) e = inl (i, rw (e, resolve_index) refl)
    resolve_cases (some (false, i)) e = inr (rw (e, resolve_index) refl)

    abbrev entry : ℕ
    entry = get_or r.pv_mapping h.received_index index_init_id

    find_index_unset : entry ≡ index_init_id → find_index s r h ≡ resolve_index s r h
    unfolding find_index
    find_index_unset unset = rw ((==_iff _ _).1 unset) refl

    find_index_set : entry < r.number_of_variables → find_index s r h ≡ (r, entry)
    unfolding find_index
    find_index_set inside =
        let other : (entry == index_init_id) ≡ false = ground (arith, v.laid.few) in rw other refl

    found_range :
        (p : Receiver × ℕ)
        → Resolved s sender r h.var_name p
        → (p.1 < r.number_of_variables) ⊎ (p.1 ≡ index_not_found_id)
    found_range (q, i) (started, inl (lt, same), only) = inl lt
    found_range (q, i) (started, inr (missing, absent), only) = inr missing

    resolve_again :
        entry ≡ index_init_id
        → Resolved s sender r h.var_name (resolve_index s r h)
        → find_index s (resolve_index s r h).0 h ≡ resolve_index s r h
    resolve_again unset found = elim (resolve_cases _ refl) [
      | inl (i, e) ↦ let range = found_range _ found in rw e (cached_index i (rw e at range))
      | inr e ↦ rw e (find_index_unset unset ∙ e)
    ]

    -- `GetLocalIndex` asked again for the same header gives the same index, and keeps the cache.
    pub find_index_again :
        Resolved s sender r h.var_name (find_index s r h)
        → find_index s (find_index s r h).0 h ≡ find_index s r h
    find_index_again found = elim (v.mapped h.received_index) [
      | inl unset ↦ let e = find_index_unset unset in rw e (resolve_again unset (rw e at found))
      | inr (inside, named) ↦ rw (find_index_set inside) (find_index_set inside)
    ]
