-- ===== src/Batch/Moves/Prepared.antt =====
-- What `prepare_moves` of crates/proton-drive-rs/src/client.rs makes of its items: each is an outcome or
-- a move, once, and no outcome is a success.
use proton_sdk_rs.Base.{
  ℕ, suc, ◌+◌, ◌*◌, ◌≤◌, ◌≡◌, refl, String, Option, none, some, List, [], ◌∷◌, ◌++◌, length,
  if◌then◌else◌, arith,
}
use proton_sdk_rs.Base.Maps.{Map, lookup}
use proton_sdk_rs.Errors.{ProtonError, Result, ok, err, OnSuccess, OnSuccess-bind}
use proton_sdk_rs.Events.{NodeUid}
use proton_sdk_rs.Client.ParentKeys.{LinkDto}
use proton_sdk_rs.Batch.{Outcome, occurrences, uid_eq, chunks}
use proton_sdk_rs.Batch.Moves.{MoveRun}
use proton_sdk_rs.Batch.Moves.Queue.{total}
use proton_sdk_rs.Batch.Moves.Settle.{weight, held, share, occurrences-append, total-append}
use proton_sdk_rs.Batch.Moves.Confirm.{AllNamed, AllNamed-append}
use proton_sdk_rs.Batch.Moves.Prepare.{
  NodeMoveItem, MoveParts, MoveSetup, rejection, seen_after, screened, screen, prepared_move,
  add_parts, add_target, add_targets, fetch_links, link_ids_of, prepare_targets, prepare_moves,
}

-- How often a node is among the items.
abbrev pub count_items : NodeUid → List NodeMoveItem → ℕ
count_items uid [] = 0
count_items uid (item ∷ items) =
    if uid_eq item.uid uid then suc (count_items uid items) else count_items uid items

-- No outcome is a success.
abbrev pub AllErrors : List Outcome → Type 0
AllErrors [] = Unit
AllErrors ((uid, ok _) ∷ outcomes) = ⊥
AllErrors ((uid, err _) ∷ outcomes) = AllErrors outcomes

AllErrors-push :
    (outcomes : List Outcome) (uid : NodeUid) (e : ProtonError)
    → AllErrors outcomes
    → AllErrors (outcomes ++ ((uid, err e) ∷ []))
AllErrors-push [] uid e h = tt
AllErrors-push ((u, ok _) ∷ outcomes) uid e h = absurd h
AllErrors-push ((u, err f) ∷ outcomes) uid e h = AllErrors-push outcomes uid e h

-- Outcomes and targets that come from these items.
Screens : List NodeMoveItem → List Outcome × List NodeMoveItem → Type 0
Screens items (outcomes, targets) =
    ((uid : NodeUid) → occurrences uid outcomes + count_items uid targets ≡ count_items uid items)
    × AllErrors outcomes
    × (length targets ≤ length items)

screened-Screens :
    (item : NodeMoveItem) (items : List NodeMoveItem) (rejected : Option ProtonError)
    (rest : List Outcome × List NodeMoveItem)
    → Screens items rest
    → Screens (item ∷ items) (screened item rejected rest)
unfolding Screens
screened-Screens item items (some e) (outcomes, targets) (counts, errors, few) =
    (λ uid. ground (arith, counts uid), errors, omega arith)
screened-Screens item items none (outcomes, targets) (counts, errors, few) =
    (λ uid. ground (arith, counts uid), errors, omega arith)

screen-Screens :
    (parent : NodeUid) (seen : List String) (items : List NodeMoveItem)
    → Screens items (screen parent seen items)
unfolding screen Screens
screen-Screens parent seen [] = (λ uid. omega arith, tt, omega arith)
screen-Screens parent seen (item ∷ items) =
    screened-Screens item items (rejection parent seen item)
      (screen parent (seen_after parent seen item) items)
      (screen-Screens parent (seen_after parent seen item) items)

-- A run that holds each node of these items as often as they do, besides those of an earlier run.
Adds : List NodeMoveItem → MoveRun → MoveRun → Type 0
Adds items before run =
    ((uid : NodeUid) → share uid run ≡ share uid before + count_items uid items)
    × (AllErrors before.outcomes → AllErrors run.outcomes)
    × (AllNamed before.queue → AllNamed run.queue)
    × (total weight run.queue ≤ total weight before.queue + 2 * length items)

push_error-Adds :
    (item : NodeMoveItem) (e : ProtonError) (run : MoveRun)
    → Adds (item ∷ []) run (record run { outcomes = run.outcomes ++ ((item.uid, err e) ∷ []) })
unfolding Adds
push_error-Adds item e run = (
  λ uid. ground (arith, occurrences-append uid run.outcomes ((item.uid, err e) ∷ [])),
  λ errors. AllErrors-push run.outcomes item.uid e errors,
  λ named. named,
  omega arith,
)

module _ {K : Type 0} (setup : MoveSetup K) (key : K) (hash_key : List ℕ) (signing_key : K) where
  add_parts-Adds :
      (item : NodeMoveItem) (link : LinkDto) (parts : Result MoveParts) (run : MoveRun)
      → Adds (item ∷ []) run (add_parts setup key hash_key signing_key item link parts run)
  unfolding add_parts Adds prepared_move
  add_parts-Adds item link (err e) run = push_error-Adds item e run
  add_parts-Adds item link (ok parts) run = (
    λ uid. ground (arith, total-append (held uid) run.queue (prepared_move item link parts ∷ [])),
    λ errors. errors,
    λ named. AllNamed-append run.queue (prepared_move item link parts ∷ []) named (refl, tt),
    omega (arith, total-append weight run.queue (prepared_move item link parts ∷ [])),
  )

  add_target-Adds :
      (item : NodeMoveItem) (link : Option LinkDto) (run : MoveRun)
      → Adds (item ∷ []) run (add_target setup key hash_key signing_key item link run)
  unfolding add_target
  add_target-Adds item none run = push_error-Adds item _ run
  add_target-Adds item (some link) run = add_parts-Adds item link _ run

  Adds-cons :
      (item : NodeMoveItem) (items : List NodeMoveItem) (before between run : MoveRun)
      → Adds (item ∷ []) before between
      → Adds items between run
      → Adds (item ∷ items) before run
  unfolding Adds
  Adds-cons item items before between run (one, errors, named, few) (all, errors', named', fewer) =
      (
        λ uid. ground (arith, one uid, all uid),
        λ h. errors' (errors h),
        λ h. named' (named h),
        omega arith,
      )

  add_targets-Adds :
      (links : Map LinkDto) (targets : List NodeMoveItem) (run : MoveRun)
      → Adds targets run (add_targets setup key hash_key signing_key links targets run)
  unfolding add_targets Adds
  add_targets-Adds links [] run = (λ uid. omega arith, λ h. h, λ h. h, omega arith)
  add_targets-Adds links (item ∷ targets) run =
      let between =
        add_target setup key hash_key signing_key item (lookup item.uid.link_id links) run in
      Adds-cons item targets run between
        (add_targets setup key hash_key signing_key links targets between)
        (add_target-Adds item (lookup item.uid.link_id links) run)
        (add_targets-Adds links targets between)

-- A run that holds each node as often as the items do, with errors as its outcomes.
abbrev pub Holds : List NodeMoveItem → MoveRun → Type 0
Holds items run =
    ((uid : NodeUid) → share uid run ≡ count_items uid items)
    × AllErrors run.outcomes
    × AllNamed run.queue
    × (total weight run.queue ≤ 2 * length items)

module _ {K : Type 0} (setup : MoveSetup K) (parent : NodeUid) (items : List NodeMoveItem) where
  prepare_targets-Holds :
      (outcomes : List Outcome) (targets : List NodeMoveItem)
      → Screens items (outcomes, targets)
      → OnSuccess (Holds items) (prepare_targets setup parent outcomes targets)
  unfolding prepare_targets Screens Adds
  prepare_targets-Holds outcomes [] (counts, errors, few) =
      (λ uid. omega (arith, counts uid), errors, tt, omega arith)
  prepare_targets-Holds outcomes (target ∷ targets) (counts, errors, few) =
      OnSuccess-bind (Holds items) (setup.destination_key parent) _ (λ key.
        OnSuccess-bind (Holds items) (setup.destination_hash_key parent key) _ (λ hash_key.
          OnSuccess-bind (Holds items) setup.membership _ (λ member.
            OnSuccess-bind (Holds items)
              (fetch_links setup parent.volume_id (chunks (link_ids_of (target ∷ targets))) []) _
              (λ links.
                let (email, signing_key) = member in
                let start : MoveRun = record {
                  parent = parent;
                  email = email;
                  queue = [];
                  outcomes = outcomes;
                } in
                let (added, wrong, named, fewer) =
                  add_targets-Adds setup key hash_key signing_key links (target ∷ targets) start in
                (
                  λ uid. omega (arith, added uid, counts uid),
                  wrong errors,
                  named tt,
                  omega arith,
                )))))

  -- What `prepare_moves` prepares holds each node as often as the items list it.
  pub prepare_moves-Holds : OnSuccess (Holds items) (prepare_moves setup items parent)
  unfolding prepare_moves
  prepare_moves-Holds =
      prepare_targets-Holds (screen parent [] items).0 (screen parent [] items).1
        (screen-Screens parent [] items)
