-- ===== src/Memory/Audited/Log.antt =====
-- What an audited write of memory/audited.rs is, next to the plain one.
use lore_auth_bridge.Base.{
  String, ◌≡◌, refl, ap, ◌∙◌, sym, subst, [], ◌∷◌, ◌++◌, Result, ok, err, CoreError, string_eq,
  arith, suc, saturate_i64,
}
use lore_auth_bridge.Model.{AdminAuditEntry}
use lore_auth_bridge.Memory.State.{State, World}
use lore_auth_bridge.Memory.Audited.{push_audit}

-- What an audited method does, given what the plain one does: the same error, and no write; where the
-- store has already what the call asks for, the same answer, and no write; and where it has not, the
-- same answer, and the same state with one entry of the actor more, on the action and its object.
pub data Refines {A : Type 0} (There : Type 0) (actor action object_type : String) (w : World)
    (p q : Result A × World) : Type 0 where
  fails :
      (e : CoreError)
      → p.0 ≡ err e
      → q.0 ≡ err e
      → p.1.state ≡ w.state
      → q.1.state ≡ w.state
      → Refines There actor action object_type w p q
  keeps :
      (a : A)
      → There
      → p.0 ≡ ok a
      → q.0 ≡ ok a
      → p.1.state ≡ w.state
      → q.1.state ≡ w.state
      → Refines There actor action object_type w p q
  writes :
      (a : A) (entry : AdminAuditEntry)
      → (¬ There)
      → p.0 ≡ ok a
      → q.0 ≡ ok a
      → entry.actor ≡ actor
      → entry.action ≡ action
      → entry.object_type ≡ object_type
      → q.1.state ≡ record (p.1.state) { admin_audit = w.state.admin_audit ++ entry ∷ [] }
      → Refines There actor action object_type w p q

abbrev logged : World → String → String → String → String → String → AdminAuditEntry
logged w actor action object_type object_id detail = record {
  id = w.env.new_v4 w.drawn;
  actor = actor;
  action = action;
  object_type = object_type;
  object_id = object_id;
  detail = detail;
  created_at = saturate_i64 (w.env.clock w.ticks);
}

push_audit-eq :
    (actor action object_type object_id detail : String) (w : World)
    → push_audit actor action object_type object_id detail w ≡ (
      ok tt,
      record w {
        drawn = suc w.drawn;
        ticks = suc w.ticks;
        state = record (w.state) {
          admin_audit =
              w.state.admin_audit ++ logged w actor action object_type object_id detail ∷ [];
        };
      },
    )
unfolding push_audit
push_audit-eq actor action object_type object_id detail w = ground arith

-- A method that computes the new state, with what its entry says, and then writes.
abbrev pub Planned : Type 0
Planned = Result (State × String × String)

abbrev pub plainly : World → Planned → Result (Unit {0}) × World
plainly w (err e) = (err e, w)
plainly w (ok (s, _, _)) = (ok tt, record w { state = s })

abbrev pub audited : String → String → String → World → Planned → Result (Unit {0}) × World
audited actor action object_type w (err e) = (err e, w)
audited actor action object_type w (ok (s, object_id, detail)) =
    push_audit actor action object_type object_id detail (record w { state = s })

abbrev pub IsLogless : World → Planned → Type 0
IsLogless w (err e) = Unit
IsLogless w (ok (s, _, _)) = s.admin_audit ≡ w.state.admin_audit

-- What is planned is not there yet.
abbrev pub IsNew : Type 0 → Planned → Type 0
IsNew There r = (x : State × String × String) → r ≡ ok x → ¬ There

audited-Refines :
    (There : Type 0) (actor action object_type : String) (w : World) (r : Planned)
    → IsLogless w r
    → IsNew There r
    → Refines There actor action object_type w (plainly w r) (audited actor action object_type w r)
audited-Refines There actor action object_type w (err e) k new = fails e refl refl refl refl
audited-Refines There actor action object_type w (ok (s, object_id, detail)) k new =
    let pushed = push_audit-eq actor action object_type object_id detail (record w { state = s }) in
    writes tt (logged w actor action object_type object_id detail) (new (s, object_id, detail) refl)
      refl (ap (λ (t : Result (Unit {0}) × World). t.0) pushed) refl refl refl
      (ap (λ (t : Result (Unit {0}) × World). t.1.state) pushed ∙ longer)
  where
    longer :
        ◌≡◌ {A = State}
          (record s {
            admin_audit = s.admin_audit ++ logged w actor action object_type object_id detail ∷ [];
          })
          (record s {
            admin_audit =
                w.state.admin_audit ++ logged w actor action object_type object_id detail ∷ [];
          })
    longer =
        ap
          (λ log. record s {
            admin_audit = log ++ logged w actor action object_type object_id detail ∷ [];
          })
          k

-- Both methods follow one plan, which is no call for what is there.
pub by_plan :
    {There : Type 0} {actor : String} {w : World} {p q : Result (Unit {0}) × World}
    → (action object_type : String) (r : Planned) → IsLogless w r
    → IsNew There r
    → p ≡ plainly w r
    → q ≡ audited actor action object_type w r
    → Refines There actor action object_type w p q
by_plan {There} {actor} {w} {p} {q} action object_type r k new e f =
    subst (λ t. Refines There actor action object_type w t q) (sym e)
      (subst (λ t. Refines There actor action object_type w (plainly w r) t) (sym f)
        (audited-Refines There actor action object_type w r k new))
