-- ===== src/Receiver/Store/Whole.antt =====
-- A whole message through `GetLocalIndex` and `ReadVarValueAndSkip`: the bytes that its effect
-- depends on, and what stays.
use marte2hieratika.Base.{
  ℕ, ◌+◌, ◌≤◌, ◌<◌, ◌≡◌, refl, sym, ap, ◌∙◌, inl, inr, Bool, true, List, [], get_or, take, slice,
  arith,
}
use marte2hieratika.Marte.{Text, StringHelper}
use marte2hieratika.Receiver.{Receiver}
use marte2hieratika.Receiver.Message.{Header}
use marte2hieratika.Receiver.Store.{
  find_index, resolve_index, mark_changed, Converter, control_ok, store_value, write_value,
}
use marte2hieratika.Receiver.Store.Step.{
  after_message, after_known, after_unknown, control_ok-true, store_value-IsStarted,
}
use marte2hieratika.Receiver.Store.Layout.{IsStarted, names_of, pv_at}
use marte2hieratika.Receiver.Store.Resolve.{Resolved, Resolves}
use marte2hieratika.Receiver.Store.Cached.{find_index_again}

-- What a message never changes: the variables and the limits.
pub record SameShape (r q : Receiver) : Type 0 where
  pub pvs : q.pvs ≡ r.pvs
  pub variables : q.number_of_variables ≡ r.number_of_variables
  pub array_size : q.max_array_size ≡ r.max_array_size

-- A header's block lies inside every variable of its name.
abbrev pub IsRoomy : Receiver → Header → Type 0
IsRoomy r h =
    (j : ℕ)
    → j < r.number_of_variables
    → get_or (names_of r) j [] ≡ h.var_name
    → (0 < (pv_at r j).total_size) × (h.received_size + h.received_offset ≤ (pv_at r j).total_size)

module _ (s : StringHelper) (c : Converter) (sender : ℕ → Text) where
  store_value_bytes :
      (r : Receiver) (i : ℕ) (h : Header) (bytes more : List ℕ) (thread : ℕ)
      → take h.received_size bytes ≡ take h.received_size more
      → slice bytes h.received_size 8 ≡ slice more h.received_size 8
      → store_value c r i h true bytes thread ≡ store_value c r i h true more thread
  unfolding store_value write_value
  store_value_bytes r i h bytes more thread e f = rw (e, f) refl

  pub find_index_shape : (r : Receiver) (h : Header) → SameShape r (find_index s r h).0
  unfolding find_index resolve_index
  find_index_shape r h = record {
    pvs = ground arith;
    variables = ground arith;
    array_size = ground arith;
  }

  store_value_shape :
      (r : Receiver) (i : ℕ) (h : Header) (control : Bool) (bytes : List ℕ) (thread : ℕ)
      → SameShape r (store_value c r i h control bytes thread)
  unfolding store_value mark_changed
  store_value_shape r i h control bytes thread = record {
    pvs = ground arith;
    variables = ground arith;
    array_size = ground arith;
  }

  control_ok_shape :
      (r q : Receiver) (h : Header) (i : ℕ) → SameShape r q → control_ok q h i ≡ control_ok r h i
  unfolding control_ok
  control_ok_shape r q h i e = rw (e.pvs, e.variables) refl

  pub SameShape-trans : (a b d : Receiver) → SameShape a b → SameShape b d → SameShape a d
  SameShape-trans a b d e f = record {
    pvs = f.pvs ∙ e.pvs;
    variables = f.variables ∙ e.variables;
    array_size = f.array_size ∙ e.array_size;
  }

  -- Of a message that fits, only the bytes of the value and of the timestamp count; the receiver
  -- keeps its shape; and it is the same whether the index was looked up before or not.
  pub record Whole (r : Receiver) (h : Header) (bytes : List ℕ) (thread : ℕ) : Type 0 where
    pub started : IsStarted s sender (after_message s c r h bytes thread)
    pub shape : SameShape r (after_message s c r h bytes thread)
    pub again :
        after_message s c (find_index s r h).0 h bytes thread ≡ after_message s c r h bytes thread
    pub local :
        (more : List ℕ)
        → take h.received_size bytes ≡ take h.received_size more
        → slice bytes h.received_size 8 ≡ slice more h.received_size 8
        → after_message s c r h bytes thread ≡ after_message s c r h more thread

  module _ (r : Receiver) (h : Header) (bytes : List ℕ) (thread : ℕ) (v : IsStarted s sender r)
      (known : h.received_index < r.number_of_variables) (roomy : IsRoomy r h) where
    whole_by :
        (q : Receiver) (i : ℕ)
        → find_index s r h ≡ (q, i)
        → find_index s q h ≡ (q, i)
        → SameShape r q
        → IsStarted s sender q
        → Resolves s sender r h.var_name i
        → Whole r h bytes thread
    whole_by q i e again shape started (inl (inside, named)) =
        let at : i < q.number_of_variables = omega (arith, shape.variables, inside) in
        let fits = roomy i inside named in
        let same : control_ok q h i ≡ control_ok r h i = control_ok_shape r q h i shape in
        let control = control_ok-true s c r h i inside fits.0 fits.1 in
        let stored : (bs : List ℕ)
            → after_message s c r h bs thread ≡ store_value c q i h true bs thread =
          λ bs.
            after_known s c r h bs thread q i e at
            ∙ ap (λ k. store_value c q i h k bs thread) control in
        record {
          started =
              rw (stored bytes)
                (store_value-IsStarted s c sender q i h true bytes thread started at);
          shape =
              rw (stored bytes)
                (SameShape-trans r q _ shape (store_value_shape q i h true bytes thread));
          again =
              ap (λ p. after_message s c p.0 h bytes thread) e
              ∙ after_known s c q h bytes thread q i again at
              ∙ ap (λ k. store_value c q i h k bytes thread) (same ∙ control)
              ∙ sym (stored bytes);
          local = λ more eq stamp.
              stored bytes ∙ store_value_bytes q i h bytes more thread eq stamp ∙ sym (stored more);
        }
    whole_by q i e again shape started (inr (missing, absent)) =
        let past : q.number_of_variables ≤ i =
          omega (arith, shape.variables, missing, v.laid.few) in
        let skipped : (bs : List ℕ) → after_message s c r h bs thread ≡ q =
          λ bs. after_unknown s c r h bs thread q i e past in
        record {
          started = rw (skipped bytes) started;
          shape = rw (skipped bytes) shape;
          again =
              ap (λ p. after_message s c p.0 h bytes thread) e
              ∙ after_unknown s c q h bytes thread q i again past
              ∙ sym (skipped bytes);
          local = λ more eq stamp. skipped bytes ∙ sym (skipped more);
        }

    pub message-Whole : Resolved s sender r h.var_name (find_index s r h) → Whole r h bytes thread
    message-Whole found =
        whole_by (find_index s r h).0 (find_index s r h).1 refl
          (find_index_again s sender r h v known found) (find_index_shape r h) found.0 found.1
