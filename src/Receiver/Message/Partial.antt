-- ===== src/Receiver/Message/Partial.antt =====
-- `ReadVarNameAndIndex` on the part of a message that has come so far.
use marte2hieratika.Base.{
  ℕ, suc, ◌+◌, ◌≤◌, ◌<◌, ◌≡◌, refl, true, false, List, [], ◌∷◌, ◌++◌, none, length, arith,
}
use marte2hieratika.Marte.{Lacks, StringHelper}
use marte2hieratika.Receiver.{Receiver, pv_name_max_size_rec}
use marte2hieratika.Receiver.Message.{
  resync, quote, locate_loop, read_fields, read_name, read_var_name_and_index,
}
use marte2hieratika.Receiver.Message.Scan.{quoted, locate_name, length-quoted}

module _ (s : StringHelper) where
  locate_none :
      (payload name : List ℕ) (i : ℕ)
      → Lacks quote name
      → locate_loop s payload i name
        ≡ record { payload = payload; found = false; ok = true; at = 0 }
  unfolding locate_loop
  locate_none payload [] i l = refl
  locate_none payload (c ∷ cs) i l = ground (arith, locate_none payload cs (i + 1) l.1, l.0)

  locate_short :
      (payload name rest : List ℕ) (i : ℕ)
      → Lacks quote name
      → length rest < 2
      → locate_loop s payload i (name ++ (34 ∷ rest))
        ≡ record { payload = payload; found = true; ok = false; at = 0 }
  unfolding locate_loop
  locate_short payload [] rest i l h = ground arith
  locate_short payload (c ∷ cs) rest i l h =
      ground (arith, locate_short payload cs rest (i + 1) l.1 h, l.0)

  pub read_nil : (r : Receiver) → read_var_name_and_index s r [] ≡ ([], none)
  unfolding read_var_name_and_index resync
  read_nil r = ground arith

  -- A name that has not ended, or whose pattern is not complete.
  pub read_in_name :
      (r : Receiver) (name : List ℕ)
      → Lacks quote name
      → read_var_name_and_index s r (34 ∷ name) ≡ (34 ∷ name, none)
  unfolding read_var_name_and_index
  read_in_name r name l = rw (locate_none (34 ∷ name) name 1 l) (ground arith)

  pub read_in_pattern :
      (r : Receiver) (name rest : List ℕ)
      → Lacks quote name
      → length rest < 2
      → read_var_name_and_index s r (34 ∷ (name ++ (34 ∷ rest)))
        ≡ (34 ∷ (name ++ (34 ∷ rest)), none)
  unfolding read_var_name_and_index
  read_in_pattern r name rest l h =
      rw (locate_short (34 ∷ (name ++ (34 ∷ rest))) name rest 1 l h) (ground arith)

  -- Fewer than twelve bytes of the fields.
  pub read_in_fields :
      (r : Receiver) (name fields : List ℕ)
      → Lacks quote name
      → length name ≤ pv_name_max_size_rec
      → length fields < 12
      → read_var_name_and_index s r (quoted name fields) ≡ (quoted name fields, none)
  unfolding read_var_name_and_index read_name read_fields
  read_in_fields r name fields l fits h =
      let start : 1 + length name ≡ suc (length name) = omega arith in
      rw (locate_name s (quoted name fields) name fields 1 l, start)
        (ground (arith, length-quoted name fields))
