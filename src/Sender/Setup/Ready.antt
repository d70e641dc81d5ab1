-- ===== src/Sender/Setup/Ready.antt =====
-- What the set-up of a PrioritySender establishes.
use marte2hieratika.Base.{
  ℕ, zero, suc, ◌+◌, ◌*◌, ◌/◌, ◌%◌, ◌≤◌, ◌<◌, ◌≡◌, refl, sym, ap, ◌∙◌, true, Option, none, some,
  arith, leb, ltb, count, length, mul32, add32, u32_mod, if◌then◌else◌, Bool-cases, inl, inr,
}
use native.Mathlib.Nat.{mul-le-mul_right, mul_comm, div-add-mod, mod-lt, mod-eq_of_lt}
use marte2hieratika.Sender.{PrioritySender}
use marte2hieratika.Sender.Cycle.Order.{IsOrdered}
use marte2hieratika.Sender.Setup.{
  ◌>>=◌, Configuration, Settings, constructed, read_send_only_changed, read_defaults, initialise,
  in_order, set_data_source,
}

length-in_order : (i k : ℕ) → length (in_order i k) ≡ k
unfolding in_order
length-in_order i zero = refl
length-in_order i (suc k) = ap suc (length-in_order (i + 1) k)

count-in_order :
    (a i k : ℕ) → count a (in_order i k) ≡ (if leb i a then (if ltb a (i + k) then 1 else 0) else 0)
unfolding in_order
count-in_order a i zero = ground arith
count-in_order a i (suc k) = ground (arith, count-in_order a (i + 1) k)

in_order_once : (a n : ℕ) → count a (in_order 0 n) ≡ (if ltb a n then 1 else 0)
in_order_once a n = ground (arith, count-in_order a 0 n)

-- The number of chunks, rounded up.
abbrev chunks : ℕ → ℕ → ℕ
chunks n sent = if ltb 0 (n % sent) then add32 (n / sent) 1 else n / sent

chunks_lem :
    (n sent : ℕ)
    → 0 < sent
    → n < u32_mod
    → (n ≤ chunks n sent * sent) × (chunks n sent * sent < n + sent)
chunks_lem n sent pos few =
    let q = n / sent in
    let whole : sent * q + n % sent ≡ n = div-add-mod n sent in
    let rest : n % sent < sent = mod-lt n pos in
    let more : 1 * q ≤ sent * q = mul-le-mul_right q pos in
    let turned : q * sent ≡ sent * q = mul_comm q sent in
    elim (Bool-cases (ltb 0 (n % sent))) [
      | inl e ↦
          let some_left : 0 < n % sent = ground arith in
          let next : add32 q 1 ≡ q + 1 = mod-eq_of_lt (omega (arith, more, whole, some_left)) in
          let larger : (q + 1) * sent ≡ q * sent + sent = omega arith in
          rw (e, next, larger, turned) (omega (arith, whole, rest), omega (arith, whole, some_left))
      | inr e ↦
          let none_left : n % sent ≡ 0 = ground arith in
          rw (e, turned) (omega (arith, whole, none_left), omega (arith, whole, none_left))
    ]

-- `SetDataSource` on a sender whose window has not moved returns true and leaves a list, and a copy
-- for the pool threads, that name every variable exactly once, and the number of chunks is the
-- number of variables over that of the signals sent per cycle, rounded up. The signals sent per
-- cycle, not 0, are at most the variables, and these are fewer than 2^32.
pub set_data_source-IsOrdered :
    (t : PrioritySender) (total n : ℕ)
    → t.current_idx ≡ 0
    → 0 < t.number_of_pool_threads * t.number_of_signal_to_be_sent
    → t.number_of_pool_threads * t.number_of_signal_to_be_sent ≤ n
    → n < u32_mod
    → let (t', ok) = set_data_source t total n in
      let sent = t.number_of_pool_threads * t.number_of_signal_to_be_sent in
      (ok ≡ true)
      × IsOrdered t'
      × (n ≤ t'.number_of_chunks * sent)
      × (t'.number_of_chunks * sent < n + sent)
unfolding set_data_source
set_data_source-IsOrdered t total n start pos enough few =
    let sent = t.number_of_pool_threads * t.number_of_signal_to_be_sent in
    let whole : mul32 t.number_of_pool_threads t.number_of_signal_to_be_sent ≡ sent =
      mod-eq_of_lt (omega arith) in
    let taken : leb sent n ≡ true = ground arith in
    let (above, below) = chunks_lem n sent pos few in
    rw (whole, taken)
      (
        refl,
        record {
          positive = omega arith;
          listed = length-in_order 0 n;
          each_once = λ a. in_order_once a n;
          threads_listed = length-in_order 0 n;
          threads_each_once = λ a. in_order_once a n;
          idx_in = omega (arith, start);
        },
        above,
        below,
      )

-- The field of a result.
abbrev send_only_of : Option (PrioritySender × Settings) → ℕ
send_only_of none = 0
send_only_of (some (t, x)) = t.send_only_changed

bind_zero {ℓ} :
    {A : Type ℓ} (o : Option A) (f : A → Option (PrioritySender × Settings))
    → ((a : A) → send_only_of (f a) ≡ 0)
    → send_only_of (o >>= f) ≡ 0
bind_zero none f h = refl
bind_zero (some a) f h = h a

read_zero : (o : Option ℕ) → read_send_only_changed o 0 ≡ 0
unfolding read_send_only_changed
read_zero none = refl
read_zero (some v) = refl

-- Whatever the configuration is, `Initialise` of a new PrioritySender, where it succeeds, leaves
-- `sendOnlyChanged` at 0.
pub initialise-send_all :
    (threads : ℕ) (config : Configuration) (t : PrioritySender) (x : Settings)
    → initialise (constructed threads) config ≡ some (t, x)
    → t.send_only_changed ≡ 0
unfolding initialise constructed read_defaults
initialise-send_all threads config t x e =
    sym (ap send_only_of e)
    ∙ bind_zero config.number_of_signal_per_thread _ (λ signals. bind_zero config.server_ip _ (λ ip.
      bind_zero config.server_port _ (λ port.
        bind_zero config.number_of_cpus _
          (λ cpus. bind_zero config.msec_period _ (λ period. read_zero config.send_only_changed)))))
