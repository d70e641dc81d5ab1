-- ===== src/Receiver/Store/Resolve.antt =====
-- The cache of indices in `GetLocalIndex`, against the names.
use marte2hieratika.Base.{
  ℕ, ◌<◌, ◌≡◌, refl, sym, ◌∙◌, ◌≢◌, ◌⊎◌, inl, inr, Bool, true, false, [], some, get_or, set,
  get_or-set_self, get_or-set_ne, length-set, arith, ◌==◌, ℕ_discrete, ==_iff,
}
use marte2hieratika.Marte.{Text, StringHelper}
use marte2hieratika.Receiver.{Receiver, index_init_id, index_not_found_id}
use marte2hieratika.Receiver.Directory.{get_local_variable_index}
use marte2hieratika.Receiver.Directory.Search.{Answers, get_local_variable_index_lem}
use marte2hieratika.Receiver.Message.{Header, base_name}
use marte2hieratika.Receiver.Store.{resolve_index, find_index}
use marte2hieratika.Receiver.Store.Layout.{IsStarted, names_of}

module _ (s : StringHelper) (sender : ℕ → Text) where
  -- What `GetLocalIndex` finds for a name: the variable that has it, or that none has.
  abbrev pub Resolves : Receiver → Text → ℕ → Type 0
  Resolves r name i =
      ((i < r.number_of_variables) × (get_or (names_of r) i [] ≡ name))
      ⊎ ((i ≡ index_not_found_id)
          × ((k : ℕ) → k < r.number_of_variables → get_or (names_of r) k [] ≢ name))

  cache : Receiver → ℕ → ℕ → Receiver
  cache r k i = record r { pv_mapping = set r.pv_mapping k i }

  cache-IsStarted :
      (r : Receiver) (k i : ℕ)
      → IsStarted s sender r
      → k < r.number_of_variables
      → i < r.number_of_variables
      → get_or (names_of r) i [] ≡ base_name s (sender k)
      → IsStarted s sender (cache r k i)
  unfolding cache
  cache-IsStarted r k i v hk hi e = record {
    laid = record {
      count = v.laid.count;
      few = v.laid.few;
      inside = v.laid.inside;
      apart = v.laid.apart;
      prec_size = v.laid.prec_size;
      flags_size = v.laid.flags_size;
      mapping_size = rw (length-set r.pv_mapping k i) v.laid.mapping_size;
    };
    sorted = v.sorted;
    mapped = λ j. elim (ℕ_discrete k j) [
      | yes same ↦
          rw
            (
              ← same,
              get_or-set_self r.pv_mapping k i index_init_id (omega (arith, v.laid.mapping_size)),
            )
            (inr (hi, e))
      | no other ↦ rw (get_or-set_ne r.pv_mapping i index_init_id other) (v.mapped j)
    ];
  }

  -- Nothing but the cache changes.
  abbrev pub SameStore : Receiver → Receiver → Type 0
  SameStore r r' = r' ≡ record r { pv_mapping = r'.pv_mapping }

  abbrev pub Resolved : Receiver → Text → Receiver × ℕ → Type 0
  Resolved r name (r', i) = IsStarted s sender r' × Resolves r name i × SameStore r r'

  module _ (r : Receiver) (h : Header) (v : IsStarted s sender r)
      (known : h.received_index < r.number_of_variables)
      (named : h.var_name ≡ base_name s (sender h.received_index)) where
    answer-Resolved :
        (res : Bool × ℕ)
        → get_local_variable_index s (names_of r) r.number_of_variables h.var_name ≡ some res
        → Answers s (names_of r) r.number_of_variables h.var_name 0 r.number_of_variables res
        → Resolved r h.var_name (resolve_index s r h)
    unfolding resolve_index cache
    answer-Resolved (true, i) e (inside, found) =
        rw (e, resolve_index)
          (
            cache-IsStarted r h.received_index i v known inside (found ∙ named),
            inl (inside, found),
            refl,
          )
    answer-Resolved (false, i) e absent =
        rw (e, resolve_index) (v, inr (refl, λ k lt. absent k (omega arith) (omega arith)), refl)

    resolve_index_lem : Resolved r h.var_name (resolve_index s r h)
    resolve_index_lem =
        let (res, e, ans) =
          get_local_variable_index_lem s (names_of r) r.number_of_variables h.var_name
            (omega (arith, v.laid.few)) v.sorted in
        answer-Resolved res e ans

    -- `GetLocalIndex` finds the variable of the name that was received, or `INDEX_NOT_FOUND_ID` if
    -- there is none, also where the cache answers; the receiver stays well-formed and changes in
    -- its cache only. The receiver is a started one, the index that was received is known, and the
    -- name is that of the sender's variable of this index, less what follows a dot.
    pub find_index_lem : Resolved r h.var_name (find_index s r h)
    unfolding find_index
    find_index_lem = elim (v.mapped h.received_index) [
      | inl unset ↦ rw ((==_iff _ _).1 unset) resolve_index_lem
      | inr (inside, found) ↦ rw (cached inside) (v, inl (inside, found ∙ sym named), refl)
    ]
      where
        cached :
            get_or r.pv_mapping h.received_index index_init_id < r.number_of_variables
            → (get_or r.pv_mapping h.received_index index_init_id == index_init_id) ≡ false
        cached inside = ground (arith, v.laid.few)
