-- ===== src/SingleFlight/Loads.antt =====
-- The loads of crates/proton-drive-rs/src/single_flight.rs across the steps of its callers: none is lost
-- or changed, and each start is counted.
use proton_sdk_rs.Base.{
  ℕ, zero, suc, ◌+◌, ◌≤◌, ◌<◌, ◌≡◌, refl, ap, ◌∙◌, sym, String, true, false, Option, none, some,
  List, [], ◌∷◌, ◌==◌, ==→eq, str_eq, str_eq→eq, if◌then◌else◌, arith, Bool-cases, inl, inr,
}
use proton_sdk_rs.Base.Maps.{lookup, erase, lookup-put, lookup-erase}
use proton_sdk_rs.Errors.{Result}
use proton_sdk_rs.SingleFlight.{
  Caller, idle, waiting, clearing, returned, update, Flight, shared, begun, finished,
}

-- How many of the first `n` loads are of the key.
abbrev pub loads_of : (ℕ → String) → String → ℕ → ℕ
loads_of key_at key zero = 0
loads_of key_at key (suc n) =
    if str_eq (key_at n) key then suc (loads_of key_at key n) else loads_of key_at key n

abbrev pub count_key : String → List String → ℕ
count_key key [] = 0
count_key key (other ∷ keys) =
    if str_eq other key then suc (count_key key keys) else count_key key keys

abbrev pub taken : Option ℕ → ℕ
taken none = 0
taken (some _) = 1

pub update_self {ℓ} : {A : Type ℓ} (f : ℕ → A) (n : ℕ) (value : A) → update f n value n ≡ value
unfolding update
update_self f n value = let same : (n == n) ≡ true = ground arith in rw same refl

pub update_other {ℓ} :
    {A : Type ℓ} (f : ℕ → A) (n m : ℕ) (value : A) → (m == n) ≡ false → update f n value m ≡ f m
unfolding update
update_other f n m value differ = rw differ refl

-- A new load of a key counts once, for its key.
loads_of-update :
    (key_at : ℕ → String) (key new : String) (n m : ℕ)
    → m ≤ n
    → loads_of (update key_at n new) key m ≡ loads_of key_at key m
loads_of-update key_at key new n zero h = refl
loads_of-update key_at key new n (suc m) h =
    let differ : (m == n) ≡ false = ground arith in
    let same : update key_at n new m ≡ key_at m = update_other key_at n m new differ in
    let later = loads_of-update key_at key new n m (omega arith) in rw (same, later) refl

pub taken-le : (slot : Option ℕ) → taken slot ≤ 1
taken-le none = omega arith
taken-le (some load) = omega arith

module _ {V : Type 0} where
  -- A started load of the key came to the outcome.
  abbrev pub Came : Flight V → String → Result V → Type 0
  Came s key result =
      (load : ℕ) × (load < s.started) × (s.load_key load ≡ key) × (s.outcome load ≡ some result)

  -- What is true of a caller.
  abbrev pub IsServed : Flight V → Caller V → Type 0
  IsServed s idle = Unit
  IsServed s (waiting key load) = (load < s.started) × (s.load_key load ≡ key)
  IsServed s (clearing key result) = Came s key result
  IsServed s (returned key result) = (told : Result V) × Came s key told × (result ≡ shared told)

  pub record IsShared (s : Flight V) : Type 0 where
    pub slots :
        (key : String) (load : ℕ)
        → lookup key s.inflight ≡ some load
        → (load < s.started) × (s.load_key load ≡ key)
    pub served : (c : ℕ) → IsServed s (s.caller c)
    pub counted :
        (key : String)
        → loads_of s.load_key key s.started
          ≤ count_key key s.cleared + taken (lookup key s.inflight)

  -- The loads of `s` are in `t`, with what they came to.
  unfoldable pub Later : Flight V → Flight V → Type 0
  Later s t =
      (load : ℕ)
      → load < s.started
      → (load < t.started)
        × (t.load_key load ≡ s.load_key load)
        × ((result : Result V) → s.outcome load ≡ some result → t.outcome load ≡ some result)

  Came-Later :
      (s t : Flight V) (key : String) (result : Result V)
      → Later s t
      → Came s key result
      → Came t key result
  unfolding Later
  Came-Later s t key result later (load, old, of_key, came) =
      let (still, same, keeps) = later load old in (load, still, same ∙ of_key, keeps result came)

  pub IsServed-Later :
      (s t : Flight V) → Later s t → (caller : Caller V) → IsServed s caller → IsServed t caller
  unfolding Later
  IsServed-Later s t later idle h = tt
  IsServed-Later s t later (waiting key load) (old, of_key) =
      let (still, same, keeps) = later load old in (still, same ∙ of_key)
  IsServed-Later s t later (clearing key result) h = Came-Later s t key result later h
  IsServed-Later s t later (returned key result) (told, h, same) =
      (told, Came-Later s t key told later h, same)

  -- After a step that changes one caller, it and the others are served.
  pub IsServed-after :
      (s t : Flight V) (c : ℕ) (caller : Caller V)
      → Later s t
      → ((m : ℕ) → IsServed s (s.caller m))
      → IsServed t caller
      → (m : ℕ) → IsServed t (update s.caller c caller m)
  unfolding update
  IsServed-after s t c caller later served mine m = elim (Bool-cases (m == c)) [
    | inl same ↦ rw same mine
    | inr other ↦ rw other (IsServed-Later s t later (s.caller m) (served m))
  ]

  -- A step that leaves the loads alone
  pub Later-same :
      (s t : Flight V)
      → t.started ≡ s.started
      → t.load_key ≡ s.load_key
      → t.outcome ≡ s.outcome
      → Later s t
  unfolding Later
  Later-same s t a b d load old =
      (omega arith, ap (λ f. f load) b, λ result h. ap (λ f. f load) d ∙ h)

  pub begun-Later : (s : Flight V) (c : ℕ) (key : String) → Later s (begun s c key)
  unfolding Later begun update
  begun-Later s c key load old =
      let differ : (load == s.started) ≡ false = ground arith in
      (
        omega arith,
        update_other s.load_key s.started load key differ,
        λ result h. update_other s.outcome s.started load none differ ∙ h,
      )

  pub finished-Later :
      (s : Flight V) (load : ℕ) (result : Result V)
      → s.outcome load ≡ none
      → Later s (finished s load result)
  unfolding Later finished
  finished-Later s done result open_ load old = (
    old,
    refl,
    λ r h. elim (Bool-cases (load == done)) [
      | inl same ↦
          let e : s.outcome load ≡ s.outcome done = ap s.outcome (==→eq load done same) in
          absurd (ground arith)
      | inr differ ↦ update_other s.outcome done load (some result) differ ∙ h
    ],
  )

  pub begun-counted :
      (s : Flight V) (c : ℕ) (key other : String)
      → lookup key s.inflight ≡ none
      → loads_of s.load_key other s.started
        ≤ count_key other s.cleared + taken (lookup other s.inflight)
      → loads_of (begun s c key).load_key other (suc s.started)
        ≤ count_key other s.cleared + taken (lookup other (begun s c key).inflight)
  unfolding begun
  begun-counted s c key other empty h =
      let before = loads_of-update s.load_key other key s.started s.started (omega arith) in
      let new : update s.load_key s.started key s.started ≡ key =
        update_self s.load_key s.started key in
      let found = lookup-put other key s.started s.inflight in
      elim (Bool-cases (str_eq key other)) [
        | inl same ↦
            let none_there : lookup other s.inflight ≡ none =
              ap (λ k. lookup k s.inflight) (sym (str_eq→eq key other same)) ∙ empty in
            ground arith
        | inr differ ↦ ground arith
      ]

  pub settled-counted :
      (s : Flight V) (key other : String)
      → loads_of s.load_key other s.started
        ≤ count_key other s.cleared + taken (lookup other s.inflight)
      → loads_of s.load_key other s.started
        ≤ count_key other (key ∷ s.cleared) + taken (lookup other (erase key s.inflight))
  settled-counted s key other h =
      let found = lookup-erase other key s.inflight in
      elim (Bool-cases (str_eq key other)) [
        | inl same ↦ ground (arith, taken-le (lookup other s.inflight))
        | inr differ ↦ ground arith
      ]
