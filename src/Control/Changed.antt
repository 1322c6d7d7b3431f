-- ===== src/Control/Changed.antt =====
-- packages/approvals/src/control.ts: the fence that `changeControlFence` leaves.
use crip_wallet.Base.{
  ℕ, ◌+◌, ◌≡◌, refl, sym, ap, subst, ◌∙◌, Bool, true, false, not, ◌&&◌, List, Option, some, arith,
}
use crip_wallet.Schemas.Money.{Text, units}
use crip_wallet.Schemas.Common.{same_text, same_text_iff}
use crip_wallet.Store.{Db, ControlScopeType, ControlState, ControlFence}
use crip_wallet.Store.Tables.{find, update}
use crip_wallet.Store.Tx.{
  Tx, ◌>>=◌, Holds, bind-Holds, gets-Holds, or_throw-Holds, require-Holds, if-Holds, pure-Holds,
  modify-Holds, control_target_not_found, invalid_command,
}
use crip_wallet.Ledger.Binding.{is_fence}
use crip_wallet.Audit.{AuditLibrary}
use crip_wallet.Control.{
  ControlCommand, pause, resume, revoke, ChangeControlFenceRequest, ControlFenceResult,
}
use crip_wallet.Control.Fences.{canonical_id}
use crip_wallet.Control.Statements.{fence_event_id}
use crip_wallet.Control.Change.{
  is_system, is_command_of, commanded, same_state, already_applied, next_state, result_of,
  changed_fence, apply_command, change_locked, change_control_fence,
}
use crip_wallet.Control.Frame.{
  SameFences, Keeps, append_control_event-Keeps, assert_target-Keeps, revoke_policy-Keeps,
  invalidate_affected_authorizations-Keeps,
}
use crip_wallet.Control.Later.{
  LaterFences, LaterRows, later_trans, kept_later, KeptRows, update-Later, find-update_own,
}
use crip_wallet.Control.Changing.{Found, locked_id, lock_mutation_fence-Found}

-- The fence of the request's scope, that of the system by its one identifier, is in the state that the command asks for, the result says so,
-- a change adds one to the version, and every other fence is as it was or newer.
pub record Changed (request : ChangeControlFenceRequest) (db : Db) (r : ControlFenceResult) (w : Db)
    : Type 0 where
  pub fence : ControlFence
  pub found : find (is_fence request.scope_type request.scope_id) w.fences ≡ some fence
  pub obeyed : fence.state ≡ commanded request.command
  pub reported : r ≡ result_of fence r.changed
  pub stepped :
      r.changed ≡ true
      → (f : ControlFence) → find (is_fence request.scope_type request.scope_id) db.fences ≡ some f
      → fence.fence_version ≡ f.fence_version + 1
  pub later : LaterFences db w
  pub own_id : locked_id request.scope_type request.scope_id ≡ request.scope_id

next_state-commanded :
    (scope : ControlScopeType) (command : ControlCommand)
    → is_command_of scope command ≡ true
    → next_state scope command ≡ commanded command
unfolding is_command_of next_state commanded
next_state-commanded ControlScopeType.system pause e = refl
next_state-commanded ControlScopeType.system resume e = refl
next_state-commanded ControlScopeType.system revoke e = cc
next_state-commanded ControlScopeType.owner revoke e = refl
next_state-commanded ControlScopeType.owner pause e = cc
next_state-commanded ControlScopeType.owner resume e = cc
next_state-commanded ControlScopeType.agent revoke e = refl
next_state-commanded ControlScopeType.agent pause e = cc
next_state-commanded ControlScopeType.agent resume e = cc
next_state-commanded ControlScopeType.policy revoke e = refl
next_state-commanded ControlScopeType.policy pause e = cc
next_state-commanded ControlScopeType.policy resume e = cc

same_state_sound : (s t : ControlState) → same_state s t ≡ true → t ≡ s
same_state_sound ControlState.active ControlState.active e = refl
same_state_sound ControlState.paused ControlState.paused e = refl
same_state_sound ControlState.revoked ControlState.revoked e = refl
same_state_sound ControlState.active ControlState.paused e = cc
same_state_sound ControlState.active ControlState.revoked e = cc
same_state_sound ControlState.paused ControlState.active e = cc
same_state_sound ControlState.paused ControlState.revoked e = cc
same_state_sound ControlState.revoked ControlState.active e = cc
same_state_sound ControlState.revoked ControlState.paused e = cc

-- A statement that leaves the fences alone, before the others
Keeps-then :
    {A B : Type 0} (P : B → Db → Type 0) (m : Tx A) (k : A → Tx B) (db : Db)
    → Keeps m
    → ((a : A) (w : Db) → w.fences ≡ db.fences → Holds P (k a w))
    → Holds P ((m >>= k) db)
Keeps-then P m k db keeps h = bind-Holds P db (SameFences db) m k (keeps db) h

-- One query has one answer.
same_found : {x : Option ControlFence} {f g : ControlFence} → x ≡ some f → x ≡ some g → f ≡ g
same_found e d = cc

module _ (library : AuditLibrary) (now : ℕ) (request : ChangeControlFenceRequest) where
  abbrev key : ControlFence → Bool
  key = is_fence request.scope_type request.scope_id

  module _ (allowed : is_command_of request.scope_type request.command ≡ true) (db : Db) where
    module _ (named : locked_id request.scope_type request.scope_id ≡ request.scope_id)
        (current : ControlFence) (d : Db)
        (held : Found request.scope_type request.scope_id db current d) where
      abbrev event : Text
      event = fence_event_id request.audit.event_id (current.fence_version + 1)

      abbrev after : ControlFence
      after = changed_fence (next_state request.scope_type request.command) event current

      abbrev rows : List ControlFence
      rows =
          update key (changed_fence (next_state request.scope_type request.command) event) d.fences

      next_version :
          (f : ControlFence)
          → find key db.fences ≡ some f
          → after.fence_version ≡ f.fence_version + 1
      next_version f e =
          ap (λ (x : ControlFence). x.fence_version + 1)
            (same_found held.0 (held.1 request.scope_type request.scope_id f e))

      changed : (w : Db) → w.fences ≡ rows → Changed request db (result_of after true) w
      changed w same = record {
        fence = after;
        found = ap (find key) same ∙ find-update_own key _ d.fences (λ x. refl) held.0;
        obeyed = next_state-commanded request.scope_type request.command allowed;
        reported = refl;
        stepped = λ _. next_version;
        own_id = named;
        later = subst (LaterRows db.fences) (sym same) (
            later_trans db.fences d.fences rows (kept_later db.fences d.fences held.1) (
              update-Later request.scope_type request.scope_id
                (next_state request.scope_type request.command) event d.fences));
      }

      apply_command-Changed :
          Holds (Changed request db) (apply_command library now request current d)
      unfolding apply_command
      apply_command-Changed =
          let P : ControlFenceResult → Db → Type 0 = Changed request db in
          let d1 = record d { fences = rows } in
          modify-Holds P d _ _ (
            gets-Holds P d1 (λ x. find key x.fences) _
              (or_throw-Holds P d1 (find key rows) control_target_not_found _ (λ next at.
                Keeps-then P _ _ d1 (append_control_event-Keeps library _) (λ _ d2 e2.
                  Keeps-then P _ _ d2 (revoke_policy-Keeps request.scope_type request.scope_id)
                    (λ _ d3 e3.
                      Keeps-then P _ _ d3 (invalidate_affected_authorizations-Keeps library now _)
                        (λ _ d4 e4. pure-Holds P d4 (result_of next true) (
                          subst (λ x. Changed request db (result_of x true) d4)
                            (same_found (find-update_own key _ d.fences (λ x. refl) held.0) at)
                            (changed d4 (e4 ∙ e3 ∙ e2)))))))))

    at_key :
        (w d : Db) (current : ControlFence)
        → locked_id request.scope_type request.scope_id ≡ request.scope_id
        → w.fences ≡ db.fences
        → Found request.scope_type (locked_id request.scope_type request.scope_id) w current d
        → Found request.scope_type request.scope_id db current d
    at_key w d current same e (at, kept) = (
      subst (λ id. find (is_fence request.scope_type id) d.fences ≡ some current) same at,
      subst (λ rows. KeptRows rows d.fences) e kept,
    )

    change_locked-Changed :
        locked_id request.scope_type request.scope_id ≡ request.scope_id
        → Holds (Changed request db) (change_locked library now request db)
    unfolding change_locked
    change_locked-Changed same =
        let P : ControlFenceResult → Db → Type 0 = Changed request db in
        Keeps-then P _ _ db (assert_target-Keeps request.scope_type request.scope_id) (λ _ w e.
          bind-Holds P w _ _ _ (lock_mutation_fence-Found request.scope_type request.scope_id w)
            (λ current d found.
              let held = at_key w d current same e found in
              if-Holds P d (already_applied request.command current.state) _ _
                (λ applied. pure-Holds P d (result_of current false) (record {
                  fence = current;
                  found = held.0;
                  obeyed = same_state_sound (commanded request.command) current.state applied;
                  reported = refl;
                  stepped = λ e. cc;
                  later = kept_later db.fences d.fences held.1;
                  own_id = same;
                }))
                (λ _. apply_command-Changed same current d held)))

  locked-own :
      not (is_system request.scope_type && not (same_text request.scope_id (units "system"))) ≡ true
      → locked_id request.scope_type request.scope_id ≡ request.scope_id
  locked-own e =
      elim request.scope_type
          as (λ s.
            not (is_system s && not (same_text request.scope_id (units "system"))) ≡ true
            → locked_id s request.scope_id ≡ request.scope_id) [
              | ControlScopeType.system ↦
                  λ d. sym ((same_text_iff request.scope_id (units "system")).0 (ground arith))
              | _ ↦ λ _. refl
            ]
        e

  -- A successful changeControlFence leaves the fence of its scope in the state that the command
  -- asks for and returns it; if it reports a change, the version is one more than that of the
  -- fence before, and every other fence is as it was or of a higher version.
  pub change_control_fence_lem :
      (db : Db) → Holds (Changed request db) (change_control_fence library now request db)
  unfolding change_control_fence
  change_control_fence_lem db =
      let P : ControlFenceResult → Db → Type 0 = Changed request db in
      require-Holds P db (canonical_id request.scope_id) control_target_not_found _ (λ _.
        require-Holds P db _ control_target_not_found _ (λ own.
          require-Holds P db (is_command_of request.scope_type request.command) invalid_command _
            (λ allowed. change_locked-Changed allowed db (locked-own own))))
