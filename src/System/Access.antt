-- ===== src/System/Access.antt =====
-- The Redis users of the delegates and the table of delegates.
use delegate_implementation.Base.{
  ℕ, Option-cases, Text, text_eq, text_eq_iff, List, [], ◌∷◌, ◌++◌, Option, none, some, Bool,
  Bool-cases, true, false, ◌||◌, ◌&&◌, not, ◌≡◌, ◌∙◌, refl, inl, inr, arith,
}
use delegate_implementation.Platform.{Platform, Fields}
use delegate_implementation.Models.{Db, Delegate, Detail, active, revoked}
use delegate_implementation.Models.Tables.{find_delegate, update_delegates, add_audit}
use delegate_implementation.Acl
use delegate_implementation.Acl.{
  AclServer, is_delegate_user, contains, rules, after_reset, provision_delegate, reconcile,
}
use delegate_implementation.Acl.Reconcile.{rules_of-reconcile}
use delegate_implementation.Ca.{Crypto}
use delegate_implementation.Dispatcher.Main.{
  active_ids, Attempt, reconcile_acls, reconcile_until, reconcile_once,
}
use delegate_implementation.Views.State.{ControlPlane, Response, refused}
use delegate_implementation.Views.State
use delegate_implementation.Views.Registration.{Draws, register_delegate}
use delegate_implementation.Views.Registration.Tokens.{
  register_delegate-registered, register_delegate-refused,
}
use delegate_implementation.Views.Revocation.{revoke_delegate}

module _ (server : AclServer) where
  -- The active delegates have their Redis users, with the rules of the delegate and some password,
  -- and no other name of the form of a delegate's id has one.
  pub record IsSynced (cp : ControlPlane server.State) : Type 0 where
    pub granted :
        (v : Text)
        → contains v (active_ids cp.db.delegates) ≡ true
        → (password : Text) × (server.rules_of cp.acl v ≡ some (rules password v))
    pub gone :
        (v : Text)
        → contains v (active_ids cp.db.delegates) ≡ false
        → is_delegate_user v ≡ true
        → server.rules_of cp.acl v ≡ none

  reconcile_acls-IsSynced :
      (password : Text → Text) (cp : ControlPlane server.State)
      → IsSynced (record cp { acl = reconcile_acls server password cp.db cp.acl })
  unfolding reconcile_acls
  reconcile_acls-IsSynced password cp = record {
    granted = λ v is. (
      password v,
      rules_of-reconcile server password (active_ids cp.db.delegates) cp.acl v ∙ rw is refl,
    );
    gone = λ v no named.
        rules_of-reconcile server password (active_ids cp.db.delegates) cp.acl v
        ∙ rw (no, named) refl;
  }

  contains-append :
      (v : Text) (rows : List Delegate) (d : Delegate)
      → d.status ≡ active
      → contains v (active_ids (rows ++ d ∷ [])) ≡ (text_eq d.id v || contains v (active_ids rows))
  unfolding active_ids
  contains-append v [] d is = ground arith
  contains-append v (row ∷ rows) d is = ground (arith, contains-append v rows d is)

  contains-revoked :
      (v key : Text) (rows : List Delegate)
      → contains v (active_ids (update_delegates key (λ row. record row { status = revoked }) rows))
        ≡ (not (text_eq key v) && contains v (active_ids rows))
  unfolding active_ids update_delegates
  contains-revoked v key [] = ground arith
  contains-revoked v key (row ∷ rows) = ground (
    arith,
    text_eq_iff row.id key,
    text_eq_iff row.id v,
    text_eq_iff key v,
    contains-revoked v key rows,
  )

  -- The tables and the users that IsSynced reads.
  moved-IsSynced :
      (cp cp' : ControlPlane server.State)
      → cp'.db.delegates ≡ cp.db.delegates
      → cp'.acl ≡ cp.acl
      → IsSynced cp
      → IsSynced cp'
  moved-IsSynced cp cp' rows acl s = record {
    granted = λ v is. rw acl (s.granted v (ground (arith, is)));
    gone = λ v no named. rw acl (s.gone v (ground (arith, no)) named);
  }

  -- A new active delegate with its user.
  added-IsSynced :
      (password id : Text) (d : Delegate) (cp cp' : ControlPlane server.State)
      → d.status ≡ active
      → d.id ≡ id
      → cp'.db.delegates ≡ cp.db.delegates ++ d ∷ []
      → cp'.acl ≡ provision_delegate server password id cp.acl
      → IsSynced cp
      → IsSynced cp'
  unfolding provision_delegate rules
  added-IsSynced password id d cp cp' is_new own rows acl s =
      let user = λ (v : Text). server.rules_of-setuser id v (after_reset password id) cp.acl in
      let listed = λ (v : Text). contains-append v cp.db.delegates d is_new in
      record {
        granted = λ v is. elim (Bool-cases (text_eq id v)) [
          | inl same ↦
              let e : id ≡ v = ground (arith, text_eq_iff id v) in
              (password, rw (acl, user v, same, e) refl)
          | inr other ↦
              let (old, kept) = s.granted v (ground (arith, listed v)) in
              (old, rw (acl, user v, other) kept)
        ];
        gone = λ v no named. rw acl (ground (arith, user v, listed v, s.gone v, text_eq_iff id v));
      }

  -- A revoked delegate without its user.
  revoked-IsSynced :
      (key : Text) (cp cp' : ControlPlane server.State)
      → cp'.db.delegates
        ≡ update_delegates key (λ row. record row { status = revoked }) cp.db.delegates
      → cp'.acl ≡ server.deluser key cp.acl
      → IsSynced cp
      → IsSynced cp'
  revoked-IsSynced key cp cp' rows acl s =
      let user = λ (v : Text). server.rules_of-deluser key v cp.acl in
      let listed = λ (v : Text). contains-revoked v key cp.db.delegates in
      record {
        granted = λ v is.
            let other : text_eq key v ≡ false = ground (arith, listed v) in
            let (old, kept) = s.granted v (ground (arith, listed v)) in
            (old, rw (acl, user v, other) kept);
        gone = λ v no named. rw acl (ground (arith, user v, listed v, s.gone v, text_eq_iff key v));
      }

module _ (p : Platform) (server : AclServer) (crypto : Crypto) (validity_days : ℕ) where
  -- What may happen to the tables and the users while Redis answers, but for a request that crashes.
  pub data Step : ControlPlane server.State → ControlPlane server.State → Type 0 where
    registers :
        (body : Fields) (draws : Draws) (cp cp' : ControlPlane server.State) (id cert ca : Text)
        (expires : ℕ)
        → register_delegate p server crypto validity_days (some body) draws cp
          ≡ (State.registered id cert ca expires, cp')
        → Step cp cp'
    refuses :
        (body : Option Fields) (draws : Draws) (cp cp' : ControlPlane server.State) (code : ℕ)
        (answer : Detail)
        → register_delegate p server crypto validity_days body draws cp ≡ (refused code answer, cp')
        → Step cp cp'
    revokes :
        (id : Text) (gateway : Option Bool) (cp : ControlPlane server.State)
        → Step cp (revoke_delegate server id true gateway cp).1
    reconciles :
        (a : Attempt) (cp : ControlPlane server.State)
        → Step cp (record cp { acl = reconcile_once server a cp.db cp.acl })

  pub data Steps : ControlPlane server.State → ControlPlane server.State → Type 0 where
    done : (cp : ControlPlane server.State) → Steps cp cp
    more : (cp cp' cp'' : ControlPlane server.State) → Step cp cp' → Steps cp' cp'' → Steps cp cp''

  revoke_delegate-IsSynced :
      (id : Text) (gateway : Option Bool) (cp : ControlPlane server.State)
      → IsSynced server cp
      → IsSynced server (revoke_delegate server id true gateway cp).1
  unfolding revoke_delegate Acl.revoke_delegate add_audit
  revoke_delegate-IsSynced id gateway cp s =
      elim (Option-cases (find_delegate id cp.db.delegates)) [
        | inl missing ↦ moved-IsSynced server cp _ (ground arith) (ground arith) s
        | inr (d, found) ↦ revoked-IsSynced server d.id cp _ (ground arith) (ground arith) s
      ]

  reconcile_once-IsSynced :
      (a : Attempt) (cp : ControlPlane server.State)
      → IsSynced server cp
      → IsSynced server (record cp { acl = reconcile_once server a cp.db cp.acl })
  unfolding reconcile_once
  reconcile_once-IsSynced a cp s = elim (Bool-cases a.redis_up) [
    | inl up ↦ rw up (reconcile_acls-IsSynced server a.password cp)
    | inr down ↦ rw down s
  ]

  Step-IsSynced :
      (cp cp' : ControlPlane server.State) → Step cp cp' → IsSynced server cp → IsSynced server cp'
  Step-IsSynced _ _ (registers body draws cp cp' id cert ca expires h) s =
      let r =
        register_delegate-registered p server crypto validity_days body draws cp cp' id cert ca
          expires h in
      added-IsSynced server draws.password id r.delegate cp cp' r.is_active r.has_id r.delegates
        r.acl s
  Step-IsSynced _ _ (refuses body draws cp cp' code answer h) s =
      let same =
        register_delegate-refused p server crypto validity_days body draws cp cp' code answer h in
      moved-IsSynced server cp cp' same.2 same.0 s
  Step-IsSynced _ _ (revokes id gateway cp) s = revoke_delegate-IsSynced id gateway cp s
  Step-IsSynced _ _ (reconciles a cp) s = reconcile_once-IsSynced a cp s

  Steps-IsSynced :
      (cp cp' : ControlPlane server.State) → Steps cp cp' → IsSynced server cp → IsSynced server cp'
  Steps-IsSynced _ _ (done cp) s = s
  Steps-IsSynced _ _ (more cp cp' cp'' first rest) s =
      Steps-IsSynced cp' cp'' rest (Step-IsSynced cp cp' first s)

  started-IsSynced :
      (attempts : List Attempt) (db : Db) (acl acl' : server.State)
      → reconcile_until server attempts db acl ≡ some acl'
      → IsSynced server (record { db = db; acl = acl' })
  unfolding reconcile_until
  started-IsSynced [] db acl acl' h = absurd (ground arith)
  started-IsSynced (a ∷ attempts) db acl acl' h = elim (Bool-cases a.redis_up) [
    | inl up ↦
        let e : reconcile_acls server a.password db acl ≡ acl' = ground arith in
        rw (← e) (reconcile_acls-IsSynced server a.password (record { db = db; acl = acl }))
    | inr down ↦ started-IsSynced attempts db acl acl' (ground arith)
  ]

  -- Once the dispatcher has reconciled at its start, registrations that succeed or are refused,
  -- revocations with Redis reachable, and later reconciliations, in any order, leave this true: every
  -- active delegate has its Redis user with its rules, and no other name of the form of a delegate's
  -- id has one.
  pub reconcile_until-IsSynced :
      (attempts : List Attempt) (db : Db) (acl acl' : server.State) (cp : ControlPlane server.State)
      → reconcile_until server attempts db acl ≡ some acl'
      → Steps (record { db = db; acl = acl' }) cp
      → IsSynced server cp
  reconcile_until-IsSynced attempts db acl acl' cp h steps =
      Steps-IsSynced (record { db = db; acl = acl' }) cp steps
        (started-IsSynced attempts db acl acl' h)
