-- ===== src/Receiver/Setup/Started.antt =====
-- From the configuration to a started receiver.
use marte2hieratika.Base.{
  WhereSome, bind-WhereSome, ℕ, suc, ◌*◌, ◌<◌, ◌≡◌, refl, ap, ◌∙◌, Bool, true, false, List, [], ◌∷◌,
  map, some, length, if◌then◌else◌, ltb, u32_mod, subst,
}
use marte2hieratika.Marte.{Text, StringHelper}
use marte2hieratika.Channels.{ChannelAccess, Channel}
use marte2hieratika.Receiver.{PvRecDescriptor, Receiver}
use marte2hieratika.Receiver.Directory.{load_names}
use marte2hieratika.Receiver.Directory.Search.{Ascending}
use marte2hieratika.Receiver.Directory.Sort.{load_names-Ascending, length-load_names}
use marte2hieratika.Receiver.Connect.{void_any_type, set_type, cainfo, connect, typed}
use marte2hieratika.Receiver.Store.Layout.{IsStarted, names_of}
use marte2hieratika.Receiver.Start.{start}
use marte2hieratika.Receiver.Start.Ready.{bytes_of, start-IsStarted}
use marte2hieratika.Receiver.Setup.{
  or_default, Configuration, Settings, new_pvs, with_variables, initialise, connect_all, connected,
}

module _ (s : StringHelper) (ca : ChannelAccess) where
  record IsNamed (name : Text) (pv : PvRecDescriptor) : Type 0 where
    same : pv.pv_name ≡ name

  if-IsNamed :
      (b : Bool) (p q : PvRecDescriptor) (name : Text)
      → IsNamed name p
      → IsNamed name q
      → IsNamed name (if b then p else q)
  if-IsNamed true p q name e f = e
  if-IsNamed false p q name e f = f

  set_type-IsNamed :
      (pv : PvRecDescriptor) (name : Text) → IsNamed name pv → IsNamed name (set_type s ca pv)
  unfolding set_type
  set_type-IsNamed pv name v =
      let typed-IsNamed : (size at : ℕ) → IsNamed name (typed s ca pv size at) =
        λ size at. record { same = v.same } in
      let text : IsNamed name (record (typed s ca pv 8 9) { pv_type = ca.dbf_double }) = record {
        same = v.same;
      } in
      if-IsNamed _ _ _ _ (typed-IsNamed 8 9) (
        if-IsNamed _ _ _ _ (typed-IsNamed 4 8) (
          if-IsNamed _ _ _ _ (typed-IsNamed 4 4) (
            if-IsNamed _ _ _ _ (typed-IsNamed 4 5) (
              if-IsNamed _ _ _ _ (typed-IsNamed 2 2) (
                if-IsNamed _ _ _ _ (typed-IsNamed 2 3) (
                  if-IsNamed _ _ _ _ (typed-IsNamed 1 0) (
                    if-IsNamed _ _ _ _ (typed-IsNamed 1 1)
                      (if-IsNamed _ _ _ _ (typed-IsNamed ca.max_string_size 10) text))))))))

  connect-IsNamed :
      (limit : ℕ) (pv : PvRecDescriptor) (ch : Channel)
      → IsNamed pv.pv_name (connect s ca limit pv ch)
  unfolding connect cainfo
  connect-IsNamed limit pv ch =
      let known = record (cainfo s ca pv ch) { total_size = 0; at = void_any_type } in
      let limited =
        (if ltb limit known.number_of_elements
          then record known { number_of_elements = 0 }
          else known) in
      let kept : IsNamed pv.pv_name limited =
        if-IsNamed (ltb limit known.number_of_elements) (record known { number_of_elements = 0 })
          known pv.pv_name (record { same = refl }) (record { same = refl }) in
      let filled : IsNamed pv.pv_name
          (if ltb 0 limited.number_of_elements then set_type s ca limited else limited) =
        if-IsNamed (ltb 0 limited.number_of_elements) (set_type s ca limited) limited pv.pv_name
          (set_type-IsNamed limited pv.pv_name kept) kept in
      if-IsNamed ch.created
        (if ltb 0 limited.number_of_elements then set_type s ca limited else limited) pv pv.pv_name
        filled (record { same = refl })

  names-connect_all :
      (limit : ℕ) (pvs : List PvRecDescriptor) (channels : ℕ → Channel) (n : ℕ)
      → map (λ pv. pv.pv_name) (connect_all s ca limit pvs channels n) ≡ map (λ pv. pv.pv_name) pvs
  unfolding connect_all
  names-connect_all limit [] channels n = refl
  names-connect_all limit (pv ∷ pvs) channels n =
      ap (λ name. name ∷ map (λ p. p.pv_name) (connect_all s ca limit pvs channels (suc n)))
        (connect-IsNamed limit pv (channels n)).same
      ∙ ap (◌∷◌ pv.pv_name) (names-connect_all limit pvs channels (suc n))

  length-connect_all :
      (limit : ℕ) (pvs : List PvRecDescriptor) (channels : ℕ → Channel) (n : ℕ)
      → length (connect_all s ca limit pvs channels n) ≡ length pvs
  unfolding connect_all
  length-connect_all limit [] channels n = refl
  length-connect_all limit (pv ∷ pvs) channels n =
      ap suc (length-connect_all limit pvs channels (suc n))

  names-new_pvs :
      (fresh : ℕ → PvRecDescriptor) (names : List Text) (n : ℕ)
      → map (λ pv. pv.pv_name) (new_pvs fresh names n) ≡ names
  unfolding new_pvs
  names-new_pvs fresh [] n = refl
  names-new_pvs fresh (name ∷ names) n = ap (◌∷◌ name) (names-new_pvs fresh names (suc n))

  length-new_pvs :
      (fresh : ℕ → PvRecDescriptor) (names : List Text) (n : ℕ)
      → length (new_pvs fresh names n) ≡ length names
  unfolding new_pvs
  length-new_pvs fresh [] n = refl
  length-new_pvs fresh (name ∷ names) n = ap suc (length-new_pvs fresh names (suc n))

  -- What `Initialise` leaves: a descriptor for each variable, in order.
  abbrev Loaded : Receiver → Type 0
  Loaded r = (length r.pvs ≡ r.number_of_variables) × Ascending s (names_of r) r.number_of_variables

  with_variables-Loaded :
      (fresh : ℕ → PvRecDescriptor) (threads : ℕ) (config : Configuration) (first : Text)
      (variables : List Text)
      → Loaded (with_variables s fresh threads config first variables)
  unfolding with_variables
  with_variables-Loaded fresh threads config first variables =
      let limit = or_default config.max_number_of_variables 0xFFFF_FFFF in
      let size = length-load_names s first limit variables in
      (
        length-new_pvs fresh (load_names s first limit variables) 0 ∙ size,
        subst
            (Ascending s
              (map (λ pv. pv.pv_name) (new_pvs fresh (load_names s first limit variables) 0)))
            size
            (rw (names-new_pvs fresh (load_names s first limit variables) 0)
              (load_names-Ascending s first limit variables)),
      )

  initialise-WhereSome :
      (fresh : ℕ → PvRecDescriptor) (threads : ℕ) (config : Configuration)
      → WhereSome (λ o. Loaded o.0) (initialise s fresh threads config)
  unfolding initialise
  initialise-WhereSome fresh threads config = bind-WhereSome _ config.server_port _ (λ port p.
      bind-WhereSome _ config.variables _ (λ variables v.
        bind-WhereSome _ config.first_variable_name _ (λ first f.
          bind-WhereSome _ config.number_of_cpus _
            (λ cpus c. with_variables-Loaded fresh threads config first variables))))

  -- Where `Initialise` succeeds, whatever stood in the new array of descriptors, `Start`, after the
  -- threads have asked for the types of all variables with any answers of channel access, leaves a
  -- well-formed receiver. Twice the number of variables and the bytes of all values and timestamps
  -- are below 2^32.
  pub start-initialise :
      (sender : ℕ → Text) (fresh : ℕ → PvRecDescriptor) (threads : ℕ) (config : Configuration)
      (r : Receiver) (x : Settings) (channels : ℕ → Channel)
      → initialise s fresh threads config ≡ some (r, x)
      → 2 * r.number_of_variables < u32_mod
      → bytes_of (connected s ca r channels).pvs < u32_mod
      → IsStarted s sender (start (connected s ca r channels))
  unfolding connected
  start-initialise sender fresh threads config r x channels e few small =
      let loaded =
        subst (WhereSome (λ o. Loaded o.0)) e (initialise-WhereSome fresh threads config) in
      let names = names-connect_all r.max_array_size r.pvs channels 0 in
      start-IsStarted s sender (connected s ca r channels)
        (length-connect_all r.max_array_size r.pvs channels 0 ∙ loaded.0) few small
        (rw names loaded.1)
