-- ===== src/Sender/Pool/Round.antt =====
-- What the pool threads send between two rounds in which the loop hands variables out.
pub mod Running
pub mod Tiles
use marte2hieratika.Base.{
  ℕ, zero, suc, ◌+◌, ◌≤◌, ◌<◌, ◌≡◌, ◌≢◌, ◌⊎◌, refl, ap, sym, subst, ◌∙◌, Bool, true, false, ◌||◌,
  List, [], ◌∷◌, ◌++◌, Option, none, some, length, get_elem?, set, get_elem?-set_self,
  get_elem?-set_ne, tally, tally-set, add32, u32_mod, ◌==◌, Bool-cases, inl, inr, arith, hits,
  count, sum_to, sum_to-add, sum_to-hits, sum_to-zero, sum_to-count, sum_to-le, AllBelow,
  ℕ_discrete,
}
use marte2hieratika.Subscriber.{PvDescriptor}
use marte2hieratika.Sender.{PrioritySender}
use marte2hieratika.Sender.Cycle.{Loop}
use marte2hieratika.Sender.Share.{take_share, vars_per_thread, list_positions, share_out}
use marte2hieratika.Sender.Pool.{
  Phase, starting, connecting, idle, waiting, entering, sending, failing, Pool, Action, thread,
  look, round, with_sender, move, finish, thread_step, hands_out, act, positions_taken,
}
use marte2hieratika.Sender.Pool.Guarded.{IsGuarded, rests, pool_threads, finished}

-- Steps without an error in which the loop does not hand out, and the positions that are taken.
pub data Sends (pvs : List PvDescriptor) : Pool → List ℕ → Pool → Type 0 where
  done : {p : Pool} → Sends pvs p [] p
  by_thread :
      {p q r : Pool} {ps : List ℕ} (k : ℕ)
      → act pvs (thread k false) p ≡ some q
      → Sends pvs q ps r
      → Sends pvs p (positions_taken k p ++ ps) r
  by_look :
      {p q r : Pool} {ps : List ℕ} → act pvs look p ≡ some q → Sends pvs q ps r → Sends pvs p ps r
  by_round :
      {p q r : Pool} {ps : List ℕ} (memory flags : List ℕ)
      → ((c f : ℕ) → p.seen ≡ some (c, f) → hands_out p f ≡ false)
      → act pvs (round memory flags) p ≡ some q
      → Sends pvs q ps r
      → Sends pvs p ps r

-- A thread on its way back with a share.
abbrev pub carries : Phase → ℕ
carries starting = 0
carries connecting = 0
carries idle = 1
carries waiting = 0
carries entering = 0
carries sending = 1
carries failing = 0

-- How many shares a thread has taken, by its phase and whether the event is posted.
abbrev pub Fits : Phase → Bool → ℕ → Type 0
Fits starting posted c = ⊥
Fits connecting posted c = ⊥
Fits idle posted c = c ≡ 1
Fits waiting posted c = (c ≡ 0) ⊎ ((c ≡ 1) × (posted ≡ false))
Fits entering posted c = c ≡ 0
Fits sending posted c = c ≡ 1
Fits failing posted c = ⊥

-- `c` is how many shares each thread has taken; the threads that took one are counted or on their
-- way back.
pub record IsRunning (c : ℕ → ℕ) (p : Pool) : Type 0 where
  pub guard : IsGuarded p
  pub fits : (k : ℕ) (phase : Phase) → get_elem? p.phases k ≡ some phase → Fits phase p.posted (c k)
  pub total : sum_to (pool_threads p) c ≡ finished p + tally carries p.phases

-- A thread that is between the waits has its share, also when the event is reset.
pub reset-Fits : (phase : Phase) (posted : Bool) (c : ℕ) → Fits phase posted c → Fits phase false c
reset-Fits starting posted c h = h
reset-Fits connecting posted c h = h
reset-Fits idle posted c h = h
reset-Fits waiting posted c (inl h) = inl h
reset-Fits waiting posted c (inr (h, b)) = inr (h, refl)
reset-Fits entering posted c h = h
reset-Fits sending posted c h = h
reset-Fits failing posted c h = h

module _ {ℓ} {A : Type ℓ} where
  pub length_of_get : (xs : List A) (k : ℕ) (a : A) → get_elem? xs k ≡ some a → k < length xs
  length_of_get [] k a e = cc
  length_of_get (x ∷ xs) zero a e = omega arith
  length_of_get (x ∷ xs) (suc k) a e = omega (arith, length_of_get xs k a e)

-- The thread `k` goes to the phase `to`, and the others stay.
pub moved-Fits :
    (phases : List Phase) (k : ℕ) (from to : Phase) (posted posted' : Bool) (c c' : ℕ → ℕ)
    → get_elem? phases k ≡ some from
    → ((j : ℕ) (phase : Phase) → get_elem? phases j ≡ some phase → Fits phase posted' (c j))
    → Fits to posted' (c' k)
    → ((j : ℕ) → k ≢ j → c' j ≡ c j)
    → (j : ℕ) (phase : Phase) → get_elem? (set phases k to) j ≡ some phase
    → Fits phase posted' (c' j)
moved-Fits phases k from to posted posted' c c' e others here same j phase there =
    elim (ℕ_discrete k j) [
      | yes eq ↦
          let self = get_elem?-set_self phases k to (length_of_get phases k from e) in
          let at : get_elem? (set phases k to) k ≡ some phase =
            ap (get_elem? (set phases k to)) eq ∙ there in
          let what : to ≡ phase = cc in
          subst (λ i. Fits phase posted' (c' i)) eq (subst (λ f. Fits f posted' (c' k)) what here)
      | no ne ↦
          subst (Fits phase posted') (sym (same j ne))
            (others j phase (sym (get_elem?-set_ne phases to ne) ∙ there))
    ]
