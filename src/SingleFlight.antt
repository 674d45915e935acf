-- ===== src/SingleFlight.antt =====
-- crates/proton-drive-rs/src/single_flight.rs: concurrent loads of one key share a request. Tasks
-- interleave at their awaits, so `run` is a relation of the steps between them. The two sections
-- under its mutex hold no await and are a step each; the mutex itself, and who waits for it, is left
-- out. Loads are numbered in the order in which they start; what a load comes to, and when, is the
-- environment's choice.
pub mod Loads
pub mod Shared
pub mod Race
use proton_sdk_rs.Base.{
  ℕ, zero, suc, ◌+◌, ◌<◌, ◌≡◌, String, Bool, true, false, Option, none, some, List, [], ◌∷◌, ◌==◌,
  str_eq, if◌then◌else◌,
}
use proton_sdk_rs.Base.Maps.{Map, lookup, put, erase}
use proton_sdk_rs.Errors.{Result, ok, err, rebuilt}

-- Where a caller of `run` stands: before the lock, at `shared.await`, before the lock that clears the
-- slot, or after `run`; with its key, its load or its outcome.
pub data Caller (V : Type 0) : Type 0 where
  idle : Caller V
  waiting : String → ℕ → Caller V
  clearing : String → Result V → Caller V
  returned : String → Result V → Caller V

-- A function with one value changed.
unfoldable pub update {ℓ} : {A : Type ℓ} → (ℕ → A) → ℕ → A → ℕ → A
update f n value m = if m == n then value else f m

-- `SingleFlight`, with its loads and callers. `cleared` are the keys whose slot was cleared so far.
pub record Flight (V : Type 0) : Type 0 where
  pub inflight : Map ℕ
  pub started : ℕ
  pub load_key : ℕ → String
  pub outcome : ℕ → Option (Result V)
  pub caller : ℕ → Caller V
  pub cleared : List String

-- `outcome.map_err(…)`: an API error keeps its code.
unfoldable pub shared : {V : Type 0} → Result V → Result V
shared (ok value) = ok value
shared (err e) = err (rebuilt e)

module _ {V : Type 0} where
  -- The first locked section where the slot is taken: the caller joins the load.
  unfoldable pub joined : Flight V → ℕ → String → ℕ → Flight V
  joined s c key load = record s { caller = update s.caller c (waiting key load) }

  -- The same where it is empty: the caller starts a load.
  unfoldable pub begun : Flight V → ℕ → String → Flight V
  begun s c key = record s {
    inflight = put key s.started s.inflight;
    started = suc s.started;
    load_key = update s.load_key s.started key;
    outcome = update s.outcome s.started none;
    caller = update s.caller c (waiting key s.started);
  }

  -- The load completes.
  unfoldable pub finished : Flight V → ℕ → Result V → Flight V
  finished s load result = record s { outcome = update s.outcome load (some result) }

  -- `shared.await` returns.
  unfoldable pub observed : Flight V → ℕ → String → Result V → Flight V
  observed s c key result = record s { caller = update s.caller c (clearing key result) }

  -- The second locked section: the slot of the key is removed, and `run` returns.
  unfoldable pub settled : Flight V → ℕ → String → Result V → Flight V
  settled s c key result = record s {
    inflight = erase key s.inflight;
    caller = update s.caller c (returned key (shared result));
    cleared = key ∷ s.cleared;
  }

  -- A caller goes away, at any await, or asks again.
  unfoldable pub dropped : Flight V → ℕ → Flight V
  dropped s c = record s { caller = update s.caller c idle }

  pub data Step : Flight V → Flight V → Type 0 where
    join :
        (s : Flight V) (c : ℕ) (key : String) (load : ℕ)
        → s.caller c ≡ idle
        → lookup key s.inflight ≡ some load
        → Step s (joined s c key load)
    begin :
        (s : Flight V) (c : ℕ) (key : String)
        → s.caller c ≡ idle
        → lookup key s.inflight ≡ none
        → Step s (begun s c key)
    finish :
        (s : Flight V) (load : ℕ) (result : Result V)
        → load < s.started
        → s.outcome load ≡ none
        → Step s (finished s load result)
    observe :
        (s : Flight V) (c : ℕ) (key : String) (load : ℕ) (result : Result V)
        → s.caller c ≡ waiting key load
        → s.outcome load ≡ some result
        → Step s (observed s c key result)
    settle :
        (s : Flight V) (c : ℕ) (key : String) (result : Result V)
        → s.caller c ≡ clearing key result
        → Step s (settled s c key result)
    drop : (s : Flight V) (c : ℕ) → Step s (dropped s c)

  pub data Reach (s : Flight V) : Flight V → Type 0 where
    here : Reach s s
    next : {t u : Flight V} → Reach s t → Step t u → Reach s u

  -- `SingleFlight::default`
  abbrev pub fresh : Flight V
  fresh = record {
    inflight = [];
    started = 0;
    load_key = λ load. "";
    outcome = λ load. none;
    caller = λ c. idle;
    cleared = [];
  }
