-- ===== src/Control/Later.antt =====
-- packages/approvals/src/control.ts: how the rows of control_fences change. The version of a fence
-- grows with every change, and no fence disappears.
use crip_wallet.Base.{
  ◌<◌, ◌≡◌, refl, sym, ap, subst, ◌∙◌, ◌⊎◌, inl, inr, Bool, true, false, ◌&&◌, List, [], ◌∷◌, any,
  Option, some, arith, if◌then◌else◌,
}
use crip_wallet.Schemas.Money.{Text}
use crip_wallet.Schemas.Common.{same_text, same_text_iff}
use crip_wallet.Store.{Db, ControlScopeType, ControlState, ControlFence}
use crip_wallet.Store.Tables.{find, update}
use crip_wallet.Ledger.Binding.{same_scope, is_fence}
use crip_wallet.Control.Change.{changed_fence}

-- A fence is as it was, or its version has grown.
abbrev pub Newer : ControlFence → ControlFence → Type 0
Newer f g = (g ≡ f) ⊎ (f.fence_version < g.fence_version)

Newer-trans : (f g h : ControlFence) → Newer f g → Newer g h → Newer f h
Newer-trans f g h (inl e) (inl d) = inl (d ∙ e)
Newer-trans f g h (inl e) (inr d) =
    inr (subst (λ (x : ControlFence). x.fence_version < h.fence_version) e d)
Newer-trans f g h (inr e) (inl d) =
    inr (subst (λ (x : ControlFence). f.fence_version < x.fence_version) (sym d) e)
Newer-trans f g h (inr e) (inr d) = inr (omega arith)

-- Every fence is still there, as it was or newer.
abbrev pub LaterRows : List ControlFence → List ControlFence → Type 0
LaterRows rows later =
    (scope : ControlScopeType) (id : Text) (f : ControlFence)
    → find (is_fence scope id) rows ≡ some f
    → (g : ControlFence) × ((find (is_fence scope id) later ≡ some g) × Newer f g)

abbrev pub LaterFences : Db → Db → Type 0
LaterFences db w = LaterRows db.fences w.fences

pub later_trans : (a b c : List ControlFence) → LaterRows a b → LaterRows b c → LaterRows a c
later_trans a b c p q scope id f e =
    let (g, (g_at, fg)) = p scope id f e in
    let (h, (h_at, gh)) = q scope id g g_at in (h, (h_at, Newer-trans f g h fg gh))

same_scope_sound : (s t : ControlScopeType) → same_scope s t ≡ true → s ≡ t
same_scope_sound ControlScopeType.system ControlScopeType.system e = refl
same_scope_sound ControlScopeType.owner ControlScopeType.owner e = refl
same_scope_sound ControlScopeType.agent ControlScopeType.agent e = refl
same_scope_sound ControlScopeType.policy ControlScopeType.policy e = refl
same_scope_sound ControlScopeType.system ControlScopeType.owner e = cc
same_scope_sound ControlScopeType.system ControlScopeType.agent e = cc
same_scope_sound ControlScopeType.system ControlScopeType.policy e = cc
same_scope_sound ControlScopeType.owner ControlScopeType.system e = cc
same_scope_sound ControlScopeType.owner ControlScopeType.agent e = cc
same_scope_sound ControlScopeType.owner ControlScopeType.policy e = cc
same_scope_sound ControlScopeType.agent ControlScopeType.system e = cc
same_scope_sound ControlScopeType.agent ControlScopeType.owner e = cc
same_scope_sound ControlScopeType.agent ControlScopeType.policy e = cc
same_scope_sound ControlScopeType.policy ControlScopeType.system e = cc
same_scope_sound ControlScopeType.policy ControlScopeType.owner e = cc
same_scope_sound ControlScopeType.policy ControlScopeType.agent e = cc

pub same_scope_own : (s : ControlScopeType) → same_scope s s ≡ true
same_scope_own ControlScopeType.system = refl
same_scope_own ControlScopeType.owner = refl
same_scope_own ControlScopeType.agent = refl
same_scope_own ControlScopeType.policy = refl

pub is_fence_sound :
    (scope : ControlScopeType) (id : Text) (f : ControlFence)
    → is_fence scope id f ≡ true
    → (f.scope_type ≡ scope) × (f.scope_id ≡ id)
is_fence_sound scope id f e = (
  same_scope_sound f.scope_type scope (ground arith),
  (same_text_iff f.scope_id id).0 (ground arith),
)

-- Two keys that name one row are the same.
same_keys :
    (s t : ControlScopeType) (i j : Text) (f : ControlFence)
    → is_fence s i f ≡ true
    → is_fence t j f ≡ true
    → is_fence s i ≡ is_fence t j
same_keys s t i j f e d =
    let (s1, i1) = is_fence_sound s i f e in
    let (t1, j1) = is_fence_sound t j f d in
    ap (λ x. is_fence x i) (sym s1 ∙ t1) ∙ ap (is_fence t) (sym i1 ∙ j1)

find-any :
    {R : Type 0} (p : R → Bool) (rows : List R) {r : R} → find p rows ≡ some r → any p rows ≡ true
unfolding find
find-any p [] e = cc
find-any p (x ∷ rows) {r} e = ground (arith, find-any p rows {r = r})

-- Every fence is still there, as it was.
abbrev pub KeptRows : List ControlFence → List ControlFence → Type 0
KeptRows rows later =
    (scope : ControlScopeType) (id : Text) (f : ControlFence)
    → find (is_fence scope id) rows ≡ some f
    → find (is_fence scope id) later ≡ some f

abbrev pub KeptFences : Db → Db → Type 0
KeptFences db w = KeptRows db.fences w.fences

pub kept_trans : (a b c : List ControlFence) → KeptRows a b → KeptRows b c → KeptRows a c
kept_trans a b c p q scope id f e = q scope id f (p scope id f e)

pub kept_later : (a b : List ControlFence) → KeptRows a b → LaterRows a b
kept_later a b p scope id f e = (f, (p scope id f e, inl refl))

-- A new row is added only where no row has its key.
pub cons_kept :
    (r : ControlFence) (rows : List ControlFence)
    → any (is_fence r.scope_type r.scope_id) rows ≡ false
    → KeptRows rows (r ∷ rows)
unfolding find
cons_kept r rows fresh scope id f e =
    let own : is_fence r.scope_type r.scope_id r ≡ true =
      ap (λ b. b && same_text r.scope_id r.scope_id) (same_scope_own r.scope_type)
      ∙ (same_text_iff r.scope_id r.scope_id).1 refl in
    let apart : is_fence scope id r ≡ true → ⊥ = λ at. cc (
      fresh,
      find-any (is_fence scope id) rows e,
      same_keys scope r.scope_type id r.scope_id r at own,
    ) in
    ground (arith, apart)

module _ {R : Type 0} (p : R → Bool) (g : R → R) where
  abbrev Kept : Option R → R → Type 0
  Kept found r = (s : R) × ((found ≡ some s) × ((s ≡ r) ⊎ (s ≡ g r)))

  abbrev first : Bool → R → Option R → Option R
  first b x rest = if b then some x else rest

  hit :
      (c d : Bool) (x r : R) (rest : Option R)
      → d ≡ c
      → first c x rest ≡ some r
      → Kept (first d (g x) rest) r
  hit true true x r rest same e = (g x, (refl, inr (ap g (ground arith))))
  hit true false x r rest same e = cc
  hit false true x r rest same e = cc
  hit false false x r rest same e = (r, (e, inl refl))

  miss :
      (c : Bool) (x r : R) (rest rest' : Option R)
      → (rest ≡ some r → Kept rest' r)
      → first c x rest ≡ some r
      → Kept (first c x rest') r
  miss true x r rest rest' more e = (x, (refl, inl (ground arith)))
  miss false x r rest rest' more e = more e

  -- What an UPDATE of one row leaves of another key's row
  find-update :
      (q : R → Bool) (rows : List R) {r : R}
      → ((x : R) → p (g x) ≡ p x)
      → find p rows ≡ some r
      → Kept (find p (update q g rows)) r
  unfolding find update
  find-update q [] {r} same e = cc
  find-update q (x ∷ rows) {r} same e =
      elim (q x) as (λ b. Kept (find p (if b then g x ∷ rows else x ∷ update q g rows)) r) [
        | true ↦ hit (p x) (p (g x)) x r (find p rows) (same x) e
        | false ↦
            miss (p x) x r (find p rows) (find p (update q g rows)) (find-update q rows same) e
      ]

  -- The row of the key itself
  pub find-update_own :
      (rows : List R) {r : R}
      → ((x : R) → p (g x) ≡ p x)
      → find p rows ≡ some r
      → find p (update p g rows) ≡ some (g r)
  unfolding find update
  find-update_own [] {r} same e = cc
  find-update_own (x ∷ rows) {r} same e = ground (arith, find-update_own rows {r = r}, same x)

-- The UPDATE of a fence to a new state and the next version
pub update-Later :
    (scope : ControlScopeType) (id : Text) (state : ControlState) (event_id : Text)
    (rows : List ControlFence)
    → LaterRows rows (update (is_fence scope id) (changed_fence state event_id) rows)
update-Later scope id state event_id rows scope' id' f e =
    let g = changed_fence state event_id in
    let (s, (at, e')) =
      find-update (is_fence scope' id') g (is_fence scope id) rows (λ x. refl) e in
    (
      s,
      (
        at,
        elim e' as (λ _. Newer f s) [
          | inl same ↦ inl same
          | inr new ↦ inr (
              subst (λ (x : ControlFence). f.fence_version < x.fence_version) (sym new)
                (omega arith))
        ],
      ),
    )
