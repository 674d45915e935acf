-- ===== src/Batch/Moves/Told.antt =====
-- What `move_nodes` of crates/proton-drive-rs/src/client.rs tells its caller.
use proton_sdk_rs.Base.{
  ◌≤◌, ◌≡◌, refl, ap, ◌∙◌, sym, ◌⊎◌, inl, inr, true, false, Option, none, some, List, [], ◌∷◌,
  arith, Bool-cases,
}
use proton_sdk_rs.Errors.{ProtonError, Result, ok, err, refuse, to_string}
use proton_sdk_rs.Events.{NodeUid}
use proton_sdk_rs.Batch.{Outcome, occurrences, uid_eq, uid_eq→eq}
use proton_sdk_rs.Batch.Uids.{UidMap, find, drop_uid, put_uid, find-drop_uid, find-put_uid}
use proton_sdk_rs.Batch.Moves.Report.{collect_uids, error_of, outcome_at, remember, results_of}

-- The outcome is one of the node's.
abbrev pub OutcomeOf : NodeUid → Result (Unit {0}) → List Outcome → Type 0
OutcomeOf uid outcome [] = ⊥
OutcomeOf uid outcome ((other, o) ∷ outcomes) =
    ((other ≡ uid) × (o ≡ outcome)) ⊎ OutcomeOf uid outcome outcomes

-- The result is the outcome, or for a failure a new error with its text.
abbrev pub Tells : Result (Unit {0}) → Result (Unit {0}) → Type 0
Tells (ok _) result = result ≡ ok tt
Tells (err e) result = (result ≡ err e) ⊎ (result ≡ refuse (to_string e))

-- Each result tells an outcome of its node.
abbrev pub AllTold : List Outcome → List Outcome → Type 0
AllTold outcomes [] = Unit
AllTold outcomes ((uid, result) ∷ results) =
    ((outcome : Result (Unit {0})) × OutcomeOf uid outcome outcomes × Tells outcome result)
    × AllTold outcomes results

abbrev pub uids_of : List Outcome → List NodeUid
uids_of [] = []
uids_of ((uid, _) ∷ outcomes) = uid ∷ uids_of outcomes

collect_uids-OutcomeOf :
    (uid : NodeUid) (o : Result (Unit {0})) (outcomes : List Outcome)
    (before : UidMap (Result (Unit {0})))
    → find uid (collect_uids outcomes before) ≡ some o
    → OutcomeOf uid o outcomes ⊎ (find uid before ≡ some o)
unfolding collect_uids
collect_uids-OutcomeOf uid o [] before found = inr found
collect_uids-OutcomeOf uid o ((other, p) ∷ outcomes) before found =
    elim (collect_uids-OutcomeOf uid o outcomes (put_uid other p before) found) [
      | inl later ↦ inl (inr later)
      | inr here ↦ elim (Bool-cases (uid_eq other uid)) [
        | inl same ↦
            inl (inl (uid_eq→eq other uid same, ground (arith, find-put_uid uid other p before)))
        | inr differ ↦ inr (ground (arith, find-put_uid uid other p before))
      ]
    ]

-- An entry stays an entry.
collect_uids_kept :
    (uid : NodeUid) (outcomes : List Outcome) (before : UidMap (Result (Unit {0})))
    → (o : Result (Unit {0})) × (find uid before ≡ some o)
    → (o : Result (Unit {0})) × (find uid (collect_uids outcomes before) ≡ some o)
unfolding collect_uids
collect_uids_kept uid [] before found = found
collect_uids_kept uid ((other, p) ∷ outcomes) before (o, found) =
    collect_uids_kept uid outcomes (put_uid other p before) (elim (Bool-cases (uid_eq other uid)) [
      | inl same ↦ (p, ground (arith, find-put_uid uid other p before))
      | inr differ ↦ (o, ground (arith, find-put_uid uid other p before))
    ])

collect_uids_there :
    (uid : NodeUid) (outcomes : List Outcome) (before : UidMap (Result (Unit {0})))
    → 1 ≤ occurrences uid outcomes
    → (o : Result (Unit {0})) × (find uid (collect_uids outcomes before) ≡ some o)
unfolding collect_uids
collect_uids_there uid [] before h = absurd (omega arith)
collect_uids_there uid ((other, p) ∷ outcomes) before h = elim (Bool-cases (uid_eq other uid)) [
  | inl same ↦
      collect_uids_kept uid outcomes (put_uid other p before)
        (p, ground (arith, find-put_uid uid other p before))
  | inr differ ↦ collect_uids_there uid outcomes (put_uid other p before) (ground arith)
]

module _ (told : List Outcome) where
  -- What is known of a node before its next place: its outcome, or the error of its first place.
  unfoldable pub Known : UidMap (Result (Unit {0})) → UidMap (Option ProtonError) → NodeUid → Type 0
  Known outcomes repeats uid =
      (o : Result (Unit {0})) × OutcomeOf uid o told
      × ((find uid outcomes ≡ some o)
          ⊎ ((find uid outcomes ≡ none) × (find uid repeats ≡ some (error_of o))))

  Tells-self : (o : Result (Unit {0})) → Tells o o
  Tells-self (ok u) = refl
  Tells-self (err e) = inl refl

  Tells-again : (o : Result (Unit {0})) → Tells o (outcome_at none (some (error_of o)))
  unfolding outcome_at
  Tells-again (ok u) = refl
  Tells-again (err e) = inr refl

  Known-Tells :
      (outcomes : UidMap (Result (Unit {0}))) (repeats : UidMap (Option ProtonError))
      (uid : NodeUid)
      → Known outcomes repeats uid
      → (o : Result (Unit {0})) × OutcomeOf uid o told
        × Tells o (outcome_at (find uid outcomes) (find uid repeats))
  unfolding outcome_at Known
  Known-Tells outcomes repeats uid (o, mine, inl found) = (o, mine, rw found (Tells-self o))
  Known-Tells outcomes repeats uid (o, mine, inr (gone, kept)) =
      (o, mine, rw (gone, kept) (Tells-again o))

  -- What a place leaves of its own node, and of another.
  kept_same :
      (uid other : NodeUid) (o : Result (Unit {0})) (found : Option (Result (Unit {0})))
      (repeats : UidMap (Option ProtonError)) {here : Option (Result (Unit {0}))}
      → uid_eq uid other ≡ true
      → here ≡ found
      → (here ≡ some o) ⊎ ((here ≡ none) × (find other repeats ≡ some (error_of o)))
      → find other (remember uid found repeats) ≡ some (error_of o)
  unfolding remember
  kept_same uid other o none repeats same alike (inl known) = cc
  kept_same uid other o none repeats same alike (inr (gone, kept)) = kept
  kept_same uid other o (some p) repeats same alike (inl known) =
      ground (arith, find-put_uid other uid (error_of p) repeats)
  kept_same uid other o (some p) repeats same alike (inr (gone, kept)) = cc

  kept_other :
      (uid other : NodeUid) (found : Option (Result (Unit {0})))
      (repeats : UidMap (Option ProtonError)) (o : Result (Unit {0}))
      {here before : Option (Result (Unit {0}))}
      → here ≡ before
      → uid_eq uid other ≡ false
      → (before ≡ some o) ⊎ ((before ≡ none) × (find other repeats ≡ some (error_of o)))
      → (here ≡ some o)
        ⊎ ((here ≡ none) × (find other (remember uid found repeats) ≡ some (error_of o)))
  unfolding remember
  kept_other uid other found repeats o e differ (inl known) = inl (e ∙ known)
  kept_other uid other none repeats o e differ (inr (gone, kept)) = inr (e ∙ gone, kept)
  kept_other uid other (some p) repeats o e differ (inr (gone, kept)) =
      inr (e ∙ gone, ground (arith, find-put_uid other uid (error_of p) repeats))

  -- What is known of the others, and of the node itself, after its place.
  Known-after :
      (outcomes : UidMap (Result (Unit {0}))) (repeats : UidMap (Option ProtonError))
      (uid other : NodeUid) (found : Option (Result (Unit {0})))
      → find uid outcomes ≡ found
      → Known outcomes repeats other
      → Known (drop_uid uid outcomes) (remember uid found repeats) other
  unfolding Known remember
  Known-after outcomes repeats uid other found is_found (o, mine, state) =
      let dropped = find-drop_uid other uid outcomes in
      elim (Bool-cases (uid_eq uid other)) [
        | inl same ↦
            let alike : find other outcomes ≡ found =
              ap (λ u. find u outcomes) (sym (uid_eq→eq uid other same)) ∙ is_found in
            let gone : find other (drop_uid uid outcomes) ≡ none = ground arith in
            (o, mine, inr (gone, kept_same uid other o found repeats same alike state))
        | inr differ ↦
            let here : find other (drop_uid uid outcomes) ≡ find other outcomes = ground arith in
            (o, mine, kept_other uid other found repeats o here differ state)
      ]

  unfoldable pub AllKnown :
      UidMap (Result (Unit {0})) → UidMap (Option ProtonError) → List NodeUid → Type 0
  AllKnown outcomes repeats [] = Unit
  AllKnown outcomes repeats (uid ∷ uids) =
      Known outcomes repeats uid × AllKnown outcomes repeats uids

  AllKnown-after :
      (outcomes : UidMap (Result (Unit {0}))) (repeats : UidMap (Option ProtonError))
      (uid : NodeUid) (uids : List NodeUid)
      → AllKnown outcomes repeats uids
      → AllKnown (drop_uid uid outcomes) (remember uid (find uid outcomes) repeats) uids
  unfolding AllKnown
  AllKnown-after outcomes repeats uid [] h = tt
  AllKnown-after outcomes repeats uid (other ∷ uids) (here, h) = (
    Known-after outcomes repeats uid other (find uid outcomes) refl here,
    AllKnown-after outcomes repeats uid uids h,
  )

  pub results_of_lem :
      (uids : List NodeUid) (outcomes : UidMap (Result (Unit {0})))
      (repeats : UidMap (Option ProtonError))
      → AllKnown outcomes repeats uids
      → (uids_of (results_of uids outcomes repeats) ≡ uids)
        × AllTold told (results_of uids outcomes repeats)
  unfolding results_of AllKnown
  results_of_lem [] outcomes repeats h = (refl, tt)
  results_of_lem (uid ∷ uids) outcomes repeats (here, h) =
      let (same, all) =
        results_of_lem uids (drop_uid uid outcomes) (remember uid (find uid outcomes) repeats)
          (AllKnown-after outcomes repeats uid uids h) in
      (ap (λ us. uid ∷ us) same, (Known-Tells outcomes repeats uid here, all))

  -- Each node of the list has an outcome.
  abbrev pub AllThere : List NodeUid → Type 0
  AllThere [] = Unit
  AllThere (uid ∷ uids) = (1 ≤ occurrences uid told) × AllThere uids

  pub collect-AllKnown :
      (uids : List NodeUid) → AllThere uids → AllKnown (collect_uids told []) [] uids
  unfolding AllKnown Known find
  collect-AllKnown [] h = tt
  collect-AllKnown (uid ∷ uids) (here, h) =
      let (o, found) = collect_uids_there uid told [] here in
      let mine : OutcomeOf uid o told = elim (collect_uids-OutcomeOf uid o told [] found) [
        | inl yes_ ↦ yes_
        | inr no_ ↦ absurd (ground arith)
      ] in
      ((o, mine, inl found), collect-AllKnown uids h)
