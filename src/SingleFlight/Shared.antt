-- ===== src/SingleFlight/Shared.antt =====
-- What the callers of `SingleFlight::run` (crates/proton-drive-rs/src/single_flight.rs) get, and how
-- many loads they start.
use proton_sdk_rs.Base.{
  ℕ, suc, ◌+◌, ◌≤◌, ◌<◌, ◌≡◌, refl, ap, ◌∙◌, sym, String, false, some, ◌==◌, str_eq, str_eq→eq,
  arith, Bool-cases, inl, inr,
}
use mathlib.Core.Path.{subst}
use proton_sdk_rs.Base.Maps.{lookup, erase, lookup-put, lookup-erase}
use proton_sdk_rs.Errors.{Result}
use proton_sdk_rs.SingleFlight.Loads.{
  loads_of, count_key, taken-le, update_self, update_other, Came, IsServed, IsShared,
  IsServed-Later, Later-same, IsServed-after, begun-Later, finished-Later, begun-counted,
  settled-counted,
}
use proton_sdk_rs.SingleFlight.{
  idle, waiting, clearing, returned, update, Flight, shared, joined, begun, finished, observed,
  settled, dropped, Step, join, begin, finish, observe, settle, drop, Reach, here, next, fresh,
}

module _ {V : Type 0} where
  begun-slots :
      (s : Flight V) (c : ℕ) (key : String)
      → IsShared s
      → (other : String) (load : ℕ) → lookup other (begun s c key).inflight ≡ some load
      → (load < suc s.started) × ((begun s c key).load_key load ≡ other)
  unfolding begun
  begun-slots s c key v other load found =
      let put_there = lookup-put other key s.started s.inflight in
      elim (Bool-cases (str_eq key other)) [
        | inl same ↦
            let is_new : s.started ≡ load = ground arith in
            (
              omega arith,
              ap (update s.load_key s.started key) (sym is_new)
                  ∙ update_self s.load_key s.started key
                  ∙ str_eq→eq key other same,
            )
        | inr differ ↦
            let (old, of_key) = v.slots other load (ground arith) in
            let apart : (load == s.started) ≡ false = ground arith in
            (omega arith, update_other s.load_key s.started load key apart ∙ of_key)
      ]

  settled-slots :
      (s : Flight V) (key : String)
      → IsShared s
      → (other : String) (load : ℕ) → lookup other (erase key s.inflight) ≡ some load
      → (load < s.started) × (s.load_key load ≡ other)
  settled-slots s key v other load found =
      let erased = lookup-erase other key s.inflight in
      elim (Bool-cases (str_eq key other)) [
        | inl same ↦ absurd (ground arith)
        | inr differ ↦ v.slots other load (ground arith)
      ]

  waited-Came :
      (s : Flight V) (c : ℕ) (key : String) (load : ℕ) (result : Result V)
      → IsShared s
      → s.caller c ≡ waiting key load
      → s.outcome load ≡ some result
      → Came s key result
  waited-Came s c key load result v is_waiting came =
      let (old, of_key) = subst (IsServed s) is_waiting (v.served c) in (load, old, of_key, came)

  cleared-Came :
      (s : Flight V) (c : ℕ) (key : String) (result : Result V)
      → IsShared s
      → s.caller c ≡ clearing key result
      → Came s key result
  cleared-Came s c key result v is_clearing = subst (IsServed s) is_clearing (v.served c)

  Step-IsShared : {s t : Flight V} → Step s t → IsShared s → IsShared t
  unfolding joined begun finished observed settled dropped
  Step-IsShared (join s c key load is_idle found) v = record {
    slots = v.slots;
    served =
        IsServed-after s (joined s c key load) c (waiting key load) (Later-same s _ refl refl refl)
          v.served (v.slots key load found);
    counted = v.counted;
  }
  Step-IsShared (begin s c key is_idle empty) v = record {
    slots = begun-slots s c key v;
    served =
        IsServed-after s (begun s c key) c (waiting key s.started) (begun-Later s c key) v.served
          (omega arith, update_self s.load_key s.started key);
    counted = λ other. begun-counted s c key other empty (v.counted other);
  }
  Step-IsShared (finish s load result old open_) v = record {
    slots = v.slots;
    served = λ m.
        IsServed-Later s (finished s load result) (finished-Later s load result open_) (s.caller m)
          (v.served m);
    counted = v.counted;
  }
  Step-IsShared (observe s c key load result is_waiting came) v = record {
    slots = v.slots;
    served =
        IsServed-after s (observed s c key result) c (clearing key result)
          (Later-same s _ refl refl refl) v.served
          (waited-Came s c key load result v is_waiting came);
    counted = v.counted;
  }
  Step-IsShared (settle s c key result is_clearing) v = record {
    slots = settled-slots s key v;
    served =
        IsServed-after s (settled s c key result) c (returned key (shared result))
          (Later-same s _ refl refl refl) v.served
          (result, cleared-Came s c key result v is_clearing, refl);
    counted = λ other. settled-counted s key other (v.counted other);
  }
  Step-IsShared (drop s c) v = record {
    slots = v.slots;
    served = IsServed-after s (dropped s c) c idle (Later-same s _ refl refl refl) v.served tt;
    counted = v.counted;
  }

  pub fresh-IsShared : IsShared (fresh {V = V})
  unfolding lookup
  fresh-IsShared = record {
    slots = λ key load found. absurd (ground arith);
    served = λ c. tt;
    counted = λ key. omega arith;
  }

  pub Reach-IsShared : {s t : Flight V} → IsShared s → Reach s t → IsShared t
  Reach-IsShared v here = v
  Reach-IsShared v (next r step) = Step-IsShared step (Reach-IsShared v r)

  -- However the callers of `run` interleave, and whichever go away: an outcome that a caller returns
  -- is what a load of its key came to, with a shared error rebuilt, and a key has at most one load
  -- more than its slot was cleared. So all the callers of a key before the first clears its slot
  -- share one load.
  pub run-Shared :
      {s : Flight V}
      → Reach fresh s
      → ((c : ℕ) (key : String) (result : Result V)
          → s.caller c ≡ returned key result
          → (told : Result V) × Came s key told × (result ≡ shared told))
        × ((key : String) → loads_of s.load_key key s.started ≤ count_key key s.cleared + 1)
  run-Shared {s} reached =
      let v = Reach-IsShared fresh-IsShared reached in
      (
        λ c key result is_returned. subst (IsServed s) is_returned (v.served c),
        λ key. omega (arith, v.counted key, taken-le (lookup key s.inflight)),
      )
