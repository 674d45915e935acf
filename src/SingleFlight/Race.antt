-- ===== src/SingleFlight/Race.antt =====
-- How a run of `SingleFlight` (crates/proton-drive-rs/src/single_flight.rs) can load a key twice at once.
use proton_sdk_rs.Base.{
  ℕ, ◌<◌, ◌≡◌, ap, ◌∙◌, String, false, none, some, ◌==◌, str_eq_refl, arith, inl, inr, Bool-cases,
  ==→eq,
}
use proton_sdk_rs.Base.Maps.{lookup, erase, lookup-erase}
use proton_sdk_rs.Errors.{Result}
use proton_sdk_rs.SingleFlight.{
  idle, clearing, returned, Flight, shared, begun, settled, begin, settle, Reach, here, next, fresh,
}
use proton_sdk_rs.SingleFlight.Loads.{update_self, update_other}
use proton_sdk_rs.SingleFlight.Shared.{Reach-IsShared, fresh-IsShared}

module _ {V : Type 0} where
  -- A load of the key that is started and not done
  abbrev pub IsRunning : Flight V → String → ℕ → Type 0
  IsRunning s key load = (load < s.started) × (s.load_key load ≡ key) × (s.outcome load ≡ none)

  different :
      (s : Flight V) (late new : ℕ) (key : String) (result : Result V)
      → s.caller late ≡ clearing key result
      → s.caller new ≡ idle
      → (new == late) ≡ false
  different s late new key result is_late is_new = elim (Bool-cases (new == late)) [
    | inl same ↦
        let e : s.caller new ≡ s.caller late = ap s.caller (==→eq new late same) in
        absurd (ground arith)
    | inr other ↦ other
  ]

  -- When a caller that has yet to clear the slot finds a newer load there, a further caller can start
  -- another load of the key beside it: the late `remove` takes the newer load's slot.
  pub run_doubled :
      {s : Flight V} (late new : ℕ) (key : String) (load : ℕ) (result : Result V)
      → Reach fresh s
      → s.caller late ≡ clearing key result
      → lookup key s.inflight ≡ some load
      → s.outcome load ≡ none
      → s.caller new ≡ idle
      → (t : Flight V) × Reach s t
        × IsRunning t key load
        × IsRunning t key s.started
        × (load < s.started)
  unfolding settled begun
  run_doubled {s} late new key load result reached is_late slot running is_new =
      let v = Reach-IsShared fresh-IsShared reached in
      let (old, of_key) = v.slots key load slot in
      let apart : (load == s.started) ≡ false = ground arith in
      let between = settled s late key result in
      let others = different s late new key result is_late is_new in
      let erased : lookup key (erase key s.inflight) ≡ none =
        ground (arith, lookup-erase key key s.inflight, str_eq_refl key) in
      (
        begun between new key,
        next (next here (settle s late key result is_late)) (
            begin between new key
              (update_other s.caller late new (returned key (shared result)) others ∙ is_new)
              erased),
        (
          omega arith,
          update_other s.load_key s.started load key apart ∙ of_key,
          update_other s.outcome s.started load none apart ∙ running,
        ),
        (omega arith, update_self s.load_key s.started key, update_self s.outcome s.started none),
        old,
      )
