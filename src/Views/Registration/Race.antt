-- ===== src/Views/Registration/Race.antt =====
-- Two registrations that are served at once, cut between the query of the token and what follows
-- from it: the token is marked as used without being read again.
use delegate_implementation.Base.{
  ℕ, ℤ, Text, [], ◌∷◌, ◌++◌, none, some, Option-cases, true, ok, ◌≡◌, ◌∙◌, refl, ap, inl, inr,
  arith,
}
use delegate_implementation.Platform.{Platform, Fields}
use delegate_implementation.Models.{lit, RegistrationToken, Delegate}
use delegate_implementation.Models.Tables.{find_token, add_audit}
use delegate_implementation.Acl.{AclServer}
use delegate_implementation.Ca.{Crypto, sign_csr}
use delegate_implementation.Views.State.{Response, registered}
use delegate_implementation.Views.Registration.{
  Draws, Cp, reject, token_problem, concurrency_of, new_delegate, create_delegate,
  register_with_token, register_fields,
}

-- A request with its four required fields.
pub record Request : Type 0 where
  pub body : Fields
  pub token : Text
  pub tenant_id : Text
  pub name : Text
  pub csr_pem : Text
  pub draws : Draws

-- Where a request is: before the query, past the tests with the row that it read, answered.
pub data Stage : Type 0 where
  asks : Stage
  holds : RegistrationToken → Stage
  answered : Response → Stage

module _ (p : Platform) (server : AclServer) (crypto : Crypto) (validity_days : ℕ) where
  abbrev pub Tables : Type 0
  Tables = Cp p server crypto validity_days

  abbrev answers : Response × Tables → Stage × Tables
  answers (r, cp) = (answered r, cp)

  -- The query of the token and the tests on its row.
  unfoldable pub look : Request → Tables → Stage × Tables
  look q cp = elim (find_token q.token cp.db.tokens) [
    | none ↦ answers (
        reject p server crypto validity_days q.tenant_id (lit "unknown token" ∷ []) 403
          (lit "invalid registration token" ∷ []) cp)
    | some row ↦ elim (token_problem row q.tenant_id q.draws.now) [
      | some (why, answer) ↦
          answers (
            reject p server crypto validity_days q.tenant_id (lit why ∷ []) 403 (lit answer ∷ [])
              cp)
      | none ↦ (holds row, cp)
    ]
  ]

  -- All that follows, on the row that was read.
  unfoldable pub finish : Request → RegistrationToken → Tables → Stage × Tables
  finish q row cp = answers (
      register_with_token p server crypto validity_days q.body row q.tenant_id q.name q.csr_pem
        q.draws cp)

  -- One step of a request, on the tables as they are then.
  pub data Move (q : Request) : Stage × Tables → Stage × Tables → Type 0 where
    looks : (cp : Tables) → Move q (asks, cp) (look q cp)
    finishes : (row : RegistrationToken) (cp : Tables) → Move q (holds row, cp) (finish q row cp)

  pub record Two : Type 0 where
    pub first : Stage
    pub second : Stage
    pub tables : Tables

  module _ (q r : Request) where
    pub data Turns : Two → Two → Type 0 where
      done : (s : Two) → Turns s s
      turn_first :
          (s t : Two) (x : Stage) (cp : Tables)
          → Move q (s.first, s.tables) (x, cp)
          → Turns (record { first = x; second = s.second; tables = cp }) t
          → Turns s t
      turn_second :
          (s t : Two) (x : Stage) (cp : Tables)
          → Move r (s.second, s.tables) (x, cp)
          → Turns (record { first = s.first; second = x; tables = cp }) t
          → Turns s t

  -- The rest of a request.
  abbrev finished : Request → Stage × Tables → Stage × Tables
  finished q (asks, cp) = (asks, cp)
  finished q (holds row, cp) = finish q row cp
  finished q (answered x, cp) = (answered x, cp)

  -- A look and a finish with nothing between them are the request.
  pub finish-look :
      (q : Request) (cp : Tables)
      → finished q (look q cp)
        ≡ answers (
            register_fields p server crypto validity_days q.body q.token q.tenant_id q.name
              q.csr_pem q.draws cp)
  unfolding look finish register_fields
  finish-look q cp = elim (Option-cases (find_token q.token cp.db.tokens)) [
    | inl e ↦ rw (look, register_fields, e) refl
    | inr (row, e) ↦ elim (Option-cases (token_problem row q.tenant_id q.draws.now)) [
      | inl good ↦ rw (look, register_fields, e, good) refl
      | inr (why, bad) ↦ rw (look, register_fields, e, bad) refl
    ]
  ]

  -- A request that registers its delegate once it holds a row: its CSR can be signed, Redis answers
  -- and its concurrency is a number.
  pub record IsGood (q : Request) : Type 0 where
    pub cert_pem : Text
    pub serial : Text
    pub expires : ℕ
    pub concurrency : ℤ
    pub signs :
        sign_csr crypto q.csr_pem q.draws.delegate_id validity_days q.draws.now q.draws.serial
        ≡ ok (cert_pem, serial, expires)
    pub redis_up : q.draws.redis_up ≡ true
    pub number : concurrency_of p server crypto validity_days q.body ≡ some concurrency

  abbrev pub delegate_of : (q : Request) → IsGood q → Delegate
  delegate_of q g =
      new_delegate q.body q.tenant_id q.name g.cert_pem g.serial g.expires q.draws.delegate_id
        g.concurrency

  finish-IsGood :
      (q : Request) (g : IsGood q) (row : RegistrationToken) (cp : Tables)
      → let (x, cp') = finish q row cp in
        (x ≡ answered (registered q.draws.delegate_id g.cert_pem crypto.ca_pem g.expires))
        × (cp'.db.delegates ≡ cp.db.delegates ++ delegate_of q g ∷ [])
  unfolding finish register_with_token create_delegate add_audit
  finish-IsGood q g row cp =
      (ground (arith, g.signs, g.redis_up, g.number), ground (arith, g.signs, g.redis_up, g.number))

  look_good :
      (q : Request) (cp : Tables) {row : RegistrationToken}
      → find_token q.token cp.db.tokens ≡ some row
      → token_problem row q.tenant_id q.draws.now ≡ none
      → look q cp ≡ (holds row, cp)
  unfolding look
  look_good q cp found good = rw (look, found, good) refl

  -- Two requests that name one token, which is good for both, and whose delegates can be made, may
  -- be served in such turns that both are answered with a certificate and both delegates are in the
  -- table, though the token is good for one.
  pub both-registered :
      (q r : Request) (cp : Tables) (row : RegistrationToken) (g : IsGood q) (h : IsGood r)
      → find_token q.token cp.db.tokens ≡ some row
      → find_token r.token cp.db.tokens ≡ some row
      → token_problem row q.tenant_id q.draws.now ≡ none
      → token_problem row r.tenant_id r.draws.now ≡ none
      → (t : Two) × Turns q r (record { first = asks; second = asks; tables = cp }) t
        × (t.first ≡ answered (registered q.draws.delegate_id g.cert_pem crypto.ca_pem g.expires))
        × (t.second ≡ answered (registered r.draws.delegate_id h.cert_pem crypto.ca_pem h.expires))
        × (t.tables.db.delegates
            ≡ (cp.db.delegates ++ delegate_of q g ∷ []) ++ delegate_of r h ∷ [])
  both-registered q r cp row g h found found' good good' =
      let (x, cp₁) = finish q row cp in
      let (y, cp₂) = finish r row cp₁ in
      let (told, added) = finish-IsGood q g row cp in
      let (told', added') = finish-IsGood r h row cp₁ in
      let looks₁ : Move q (asks, cp) (holds row, cp) =
        rw⁻¹ (look_good q cp found good) (looks cp) in
      let looks₂ : Move r (asks, cp) (holds row, cp) =
        rw⁻¹ (look_good r cp found' good') (looks cp) in
      (
        record { first = x; second = y; tables = cp₂ },
        turn_first _ _ (holds row) cp looks₁ (
            turn_second _ _ (holds row) cp looks₂ (
              turn_first _ _ x cp₁ (finishes row cp)
                (turn_second _ _ y cp₂ (finishes row cp₁) (done _)))),
        told,
        told',
        added' ∙ ap (λ ds. ds ++ delegate_of r h ∷ []) added,
      )
