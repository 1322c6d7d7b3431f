-- ===== src/Control/Changing.antt =====
-- packages/approvals/src/control.ts: what `changeControlFence` has done when it succeeds.
use crip_wallet.Base.{◌≡◌, refl, Bool, true, false, ◌∷◌, any, none, some, if◌then◌else◌}
use crip_wallet.Schemas.Money.{Text, units}
use crip_wallet.Store.{Db, ControlScopeType, ControlState, ControlFence}
use crip_wallet.Store.ControlScopeType.{system, owner, agent, policy}
use crip_wallet.Store.Tables.{find}
use crip_wallet.Store.Tx.{
  Tx, ◌>>=◌, Holds, bind-Holds, weaken-Holds, gets-Holds, or_throw-Holds, require-Holds, pure-Holds,
  modify-Holds, control_target_not_found, authorization_revalidation_required,
}
use crip_wallet.Ledger.Binding.{is_fence, is_revoked_policy}
use crip_wallet.Control.Fences.{
  is_policy, is_agent, insert_fence, insert_or_find, ensure_fence, lock_mutation_fence,
}
use crip_wallet.Control.Later.{KeptFences, kept_trans, cons_kept}

-- The fence of a key, in a database that has every fence of the one before
abbrev pub Found : ControlScopeType → Text → Db → ControlFence → Db → Type 0
Found scope id db f w = (find (is_fence scope id) w.fences ≡ some f) × KeptFences db w

insert_fence_kept :
    (scope : ControlScopeType) (id : Text) (state : ControlState) (db : Db)
    → KeptFences db (insert_fence scope id state db)
unfolding insert_fence
insert_fence_kept scope id state db =
    elim (any (is_fence scope id) db.fences)
        as (λ b.
          any (is_fence scope id) db.fences ≡ b
          → KeptFences db (
              if b then db else record db {
                fences =
                    record {
                      scope_type = scope;
                      scope_id = id;
                      fence_version = 1;
                      state = state;
                      last_control_event_id = none;
                    }
                    ∷ db.fences;
              })) [ true ↦ λ e. λ _ _ _ d. d | false ↦ λ e. cons_kept _ db.fences e ]
      refl

insert_or_find-Found :
    (scope : ControlScopeType) (id : Text) (state : ControlState) (gone : Bool) (db : Db)
    → Holds (Found scope id db) (insert_or_find scope id state gone db)
unfolding insert_or_find
insert_or_find-Found scope id state gone db = modify-Holds _ db (insert_fence scope id state) _ (
    let w = insert_fence scope id state db in
    gets-Holds _ w _ _ (
      or_throw-Holds _ w (find (is_fence scope id) w.fences) control_target_not_found _ (λ f at.
        require-Holds _ w _ authorization_revalidation_required _
          (λ _. pure-Holds _ w f (at, insert_fence_kept scope id state db)))))

pub ensure_fence-Found :
    (scope : ControlScopeType) (id : Text) (db : Db)
    → Holds (Found scope id db) (ensure_fence scope id db)
unfolding ensure_fence
ensure_fence-Found system id db = insert_or_find-Found system id _ false db
ensure_fence-Found owner id db = insert_or_find-Found owner id _ false db
ensure_fence-Found agent id db = insert_or_find-Found agent id _ false db
ensure_fence-Found policy id db = gets-Holds _ db _ _ (
    or_throw-Holds _ db (find (is_policy id) db.policies) control_target_not_found _
      (λ p _. insert_or_find-Found policy id _ (is_revoked_policy p) db))

-- A fence that is taken before the next statements
pub ensure_fence_then :
    {B : Type 0} (P : B → Db → Type 0) (scope : ControlScopeType) (id : Text)
    (k : ControlFence → Tx B) (db : Db)
    → ((f : ControlFence) (w : Db) → Found scope id db f w → Holds P (k f w))
    → Holds P ((ensure_fence scope id >>= k) db)
ensure_fence_then P scope id k db h =
    bind-Holds P db (Found scope id db) (ensure_fence scope id) k (ensure_fence-Found scope id db) h

-- The last fence that is taken
ensure_fence_last :
    (scope : ControlScopeType) (id : Text) (db w : Db)
    → KeptFences db w
    → Holds (Found scope id db) (ensure_fence scope id w)
ensure_fence_last scope id db w later =
    weaken-Holds (Found scope id db) w (Found scope id w) (ensure_fence scope id)
      (ensure_fence-Found scope id w)
      (λ f v (at, l). (at, kept_trans db.fences w.fences v.fences later l))

-- The identifier of the system's fence is fixed.
abbrev pub locked_id : ControlScopeType → Text → Text
locked_id system id = units "system"
locked_id _ id = id

pub lock_mutation_fence-Found :
    (scope : ControlScopeType) (id : Text) (db : Db)
    → Holds (Found scope (locked_id scope id) db) (lock_mutation_fence scope id db)
unfolding lock_mutation_fence
lock_mutation_fence-Found system id db = ensure_fence-Found system (units "system") db
lock_mutation_fence-Found owner id db =
    ensure_fence_then (Found owner id db) system (units "system") _ db
      (λ s w (_, l). ensure_fence_last owner id db w l)
lock_mutation_fence-Found agent id db =
    ensure_fence_then (Found agent id db) system (units "system") _ db (λ s w (_, l).
      gets-Holds _ w _ _ (
        or_throw-Holds _ w (find (is_agent id) w.agents) control_target_not_found _ (λ a _.
          ensure_fence_then (Found agent id db) owner a.owner_id _ w (λ o v (_, m).
            ensure_fence_last agent id db v (kept_trans db.fences w.fences v.fences l m)))))
lock_mutation_fence-Found policy id db =
    ensure_fence_then (Found policy id db) system (units "system") _ db (λ s w (_, l).
      gets-Holds _ w _ _ (
        or_throw-Holds _ w (find (is_policy id) w.policies) control_target_not_found _ (λ p _.
          ensure_fence_then (Found policy id db) owner p.owner_id _ w (λ o v (_, m).
            ensure_fence_then (Found policy id db) agent p.agent_id _ v (λ a u (_, n).
              ensure_fence_last policy id db u (
                kept_trans db.fences v.fences u.fences (kept_trans db.fences w.fences v.fences l m)
                  n))))))
