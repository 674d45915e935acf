-- ===== src/Client/Context.antt =====
-- `context_share_id` and `run_context_share_mutation` of crates/proton-drive-rs/src/client.rs: lookups hold
-- the read guard of `context_share_gate`, mutations its write guard, and tasks interleave at their
-- awaits. `truth` is the share through which the server reaches a node; only the mutations of this
-- client change it here.
use proton_sdk_rs.Base.{
  ◌≡◌, ◌≢◌, refl, ap, ◌∙◌, sym, String, Bool, true, false, some, List, [], ◌∷◌, inl, inr, arith,
  Bool-cases,
}
use mathlib.Core.Path.{subst}
use proton_sdk_rs.Events.{NodeUid}
use proton_sdk_rs.Batch.{uid_eq, uid_eq→eq}
use proton_sdk_rs.Batch.Uids.{UidMap, find, drop_uid, put_uid, find-drop_uid, find-put_uid}

-- The cache, the guards that are held, and the lookups in flight: those that hold a read guard and are
-- not answered, and those that have their answer and not stored it.
pub record Gate : Type 0 where
  pub context_share_ids : UidMap String
  pub truth : NodeUid → String
  pub is_writing : Bool
  pub asking : List NodeUid
  pub answered : List (NodeUid × String)

-- The lists without one element.
pub data Removes {ℓ} {A : Type ℓ} : A → List A → List A → Type ℓ where
  first : (x : A) (xs : List A) → Removes x (x ∷ xs) xs
  later : {x : A} {xs ys : List A} (y : A) → Removes x xs ys → Removes x (y ∷ xs) (y ∷ ys)

pub data GateStep : Gate → Gate → Type 0 where
  -- A lookup takes a read guard, which no writer holds.
  enter :
      (g : Gate) (uid : NodeUid)
      → g.is_writing ≡ false
      → GateStep g (record g { asking = uid ∷ g.asking })
  -- It finds its share in the cache, or goes away.
  leave :
      (g : Gate) (uid : NodeUid) (rest : List NodeUid)
      → Removes uid g.asking rest
      → GateStep g (record g { asking = rest })
  -- The server answers it.
  answer :
      (g : Gate) (uid : NodeUid) (rest : List NodeUid)
      → Removes uid g.asking rest
      → GateStep g (record g { asking = rest; answered = (uid, g.truth uid) ∷ g.answered })
  -- It stores the answer and gives the guard back; or it goes away before.
  store :
      (g : Gate) (uid : NodeUid) (share : String) (rest : List (NodeUid × String))
      → Removes (uid, share) g.answered rest
      → GateStep g
          (record g { context_share_ids = put_uid uid share g.context_share_ids; answered = rest })
  give_up :
      (g : Gate) (uid : NodeUid) (share : String) (rest : List (NodeUid × String))
      → Removes (uid, share) g.answered rest
      → GateStep g (record g { answered = rest })
  -- The LRU evicts an entry.
  evict :
      (g : Gate) (uid : NodeUid)
      → GateStep g (record g { context_share_ids = drop_uid uid g.context_share_ids })
  -- A mutation takes the write guard, which nobody else holds, and clears the cache.
  lock :
      (g : Gate)
      → g.is_writing ≡ false
      → g.asking ≡ []
      → g.answered ≡ []
      → GateStep g (record g { is_writing = true; context_share_ids = [] })
  -- The server commits its request, also where the answer will be an error.
  commit :
      (g : Gate) (truth : NodeUid → String)
      → g.is_writing ≡ true
      → GateStep g (record g { truth = truth })
  -- It clears the cache again and gives the guard back.
  unlock :
      (g : Gate)
      → g.is_writing ≡ true
      → GateStep g (record g { is_writing = false; context_share_ids = [] })

pub data GateReach (g : Gate) : Gate → Type 0 where
  here : GateReach g g
  next : {h k : Gate} → GateReach g h → GateStep h k → GateReach g k

-- A client that has looked nothing up.
abbrev pub opened : (NodeUid → String) → Gate
opened truth = record {
  context_share_ids = [];
  truth = truth;
  is_writing = false;
  asking = [];
  answered = [];
}

-- What the server holds of a node
abbrev IsTrue : (NodeUid → String) → NodeUid × String → Type 0
IsTrue truth (uid, share) = share ≡ truth uid

abbrev AllTrue : (NodeUid → String) → List (NodeUid × String) → Type 0
AllTrue truth [] = Unit
AllTrue truth (known ∷ answered) = IsTrue truth known × AllTrue truth answered

record IsFresh (g : Gate) : Type 0 where
  cached :
      (uid : NodeUid) (share : String)
      → find uid g.context_share_ids ≡ some share
      → share ≡ g.truth uid
  on_the_way : AllTrue g.truth g.answered
  -- A writer is alone, with an empty cache.
  alone : g.is_writing ≡ true → (g.answered ≡ []) × (g.asking ≡ []) × (g.context_share_ids ≡ [])

Removes-AllTrue :
    (truth : NodeUid → String) {known : NodeUid × String} {answered rest : List (NodeUid × String)}
    → Removes known answered rest
    → AllTrue truth answered
    → IsTrue truth known × AllTrue truth rest
Removes-AllTrue truth (first known rest) all = all
Removes-AllTrue truth (later y r) (here_, all) =
    let (mine, others) = Removes-AllTrue truth r all in (mine, (here_, others))

Removes-nil {ℓ} : {A : Type ℓ} {x : A} {xs ys : List A} → Removes x xs ys → xs ≢ []
Removes-nil (first x xs) h = cc
Removes-nil (later y r) h = cc

find_nil : (uid : NodeUid) (share : String) → find {V = String} uid [] ≡ some share → ⊥
unfolding find
find_nil uid share h = absurd (ground arith)

-- Nothing is cached in an empty cache.
nothing_cached :
    (truth : NodeUid → String) (cache : UidMap String) (uid : NodeUid) (share : String)
    → cache ≡ []
    → find uid cache ≡ some share
    → share ≡ truth uid
nothing_cached truth cache uid share empty found =
    absurd (find_nil uid share (ap (find uid) (sym empty) ∙ found))

stored_fresh :
    (g : Gate) (uid other : NodeUid) (share found_share : String)
    → IsFresh g
    → share ≡ g.truth uid
    → find other (put_uid uid share g.context_share_ids) ≡ some found_share
    → found_share ≡ g.truth other
stored_fresh g uid other share found_share fresh is_true found =
    let put_there = find-put_uid other uid share g.context_share_ids in
    elim (Bool-cases (uid_eq uid other)) [
      | inl same ↦
          let e : share ≡ found_share = ground arith in
          sym e ∙ is_true ∙ ap g.truth (uid_eq→eq uid other same)
      | inr differ ↦ fresh.cached other found_share (ground arith)
    ]

evicted_fresh :
    (g : Gate) (uid other : NodeUid) (share : String)
    → IsFresh g
    → find other (drop_uid uid g.context_share_ids) ≡ some share
    → share ≡ g.truth other
evicted_fresh g uid other share fresh found =
    let dropped = find-drop_uid other uid g.context_share_ids in
    elim (Bool-cases (uid_eq uid other)) [
      | inl same ↦ absurd (ground arith)
      | inr differ ↦ fresh.cached other share (ground arith)
    ]

drop_nil : (uid : NodeUid) → drop_uid {V = String} uid [] ≡ []
unfolding drop_uid
drop_nil uid = refl

GateStep-IsFresh : {g h : Gate} → GateStep g h → IsFresh g → IsFresh h
GateStep-IsFresh (enter g uid free) f = record {
  cached = f.cached;
  on_the_way = f.on_the_way;
  alone = λ w. absurd (ground arith);
}
GateStep-IsFresh (leave g uid rest r) f = record {
  cached = f.cached;
  on_the_way = f.on_the_way;
  alone = λ w. absurd (Removes-nil r (f.alone w).1);
}
GateStep-IsFresh (answer g uid rest r) f = record {
  cached = f.cached;
  on_the_way = (refl, f.on_the_way);
  alone = λ w. absurd (Removes-nil r (f.alone w).1);
}
GateStep-IsFresh (store g uid share rest r) f =
    let (is_true, others) = Removes-AllTrue g.truth r f.on_the_way in
    record {
      cached = λ other found_share. stored_fresh g uid other share found_share f is_true;
      on_the_way = others;
      alone = λ w. absurd (Removes-nil r (f.alone w).0);
    }
GateStep-IsFresh (give_up g uid share rest r) f =
    let (is_true, others) = Removes-AllTrue g.truth r f.on_the_way in
    record {
      cached = f.cached;
      on_the_way = others;
      alone = λ w. absurd (Removes-nil r (f.alone w).0);
    }
GateStep-IsFresh (evict g uid) f = record {
  cached = λ other share. evicted_fresh g uid other share f;
  on_the_way = f.on_the_way;
  alone = λ w. let (a, b, c) = f.alone w in (a, b, ap (drop_uid uid) c ∙ drop_nil uid);
}
GateStep-IsFresh (lock g free none_asking none_answered) f = record {
  cached = λ uid share found. nothing_cached g.truth [] uid share refl found;
  on_the_way = f.on_the_way;
  alone = λ w. (none_answered, none_asking, refl);
}
GateStep-IsFresh (commit g truth writing) f =
    let (a, b, c) = f.alone writing in
    record {
      cached = λ uid share found. nothing_cached truth g.context_share_ids uid share c found;
      on_the_way = subst (AllTrue truth) (sym a) tt;
      alone = λ w. (a, b, c);
    }
GateStep-IsFresh (unlock g writing) f = record {
  cached = λ uid share found. nothing_cached g.truth [] uid share refl found;
  on_the_way = f.on_the_way;
  alone = λ w. absurd (ground arith);
}

opened-IsFresh : (truth : NodeUid → String) → IsFresh (opened truth)
opened-IsFresh truth = record {
  cached = λ uid share found. absurd (find_nil uid share found);
  on_the_way = tt;
  alone = λ w. absurd (ground arith);
}

GateReach-IsFresh : {g h : Gate} → IsFresh g → GateReach g h → IsFresh h
GateReach-IsFresh f here = f
GateReach-IsFresh f (next r step) = GateStep-IsFresh step (GateReach-IsFresh f r)

-- However lookups and mutations interleave, and whichever lookups go away: a share that the cache holds
-- for a node is the one through which the server reaches the node now, as far as this client's own
-- mutations go; no lookup puts a share back that a mutation has made stale.
pub context_share_ids-fresh :
    {g : Gate} (truth : NodeUid → String) (uid : NodeUid) (share : String)
    → GateReach (opened truth) g
    → find uid g.context_share_ids ≡ some share
    → share ≡ g.truth uid
context_share_ids-fresh truth uid share reached found =
    (GateReach-IsFresh (opened-IsFresh truth) reached).cached uid share found
