-- ===== src/Dispatcher/Known.antt =====
-- Which executions the main loop watches: only such as the tables can hold, whose ids are UUIDs.
use delegate_implementation.Base.{
  Text, codes, text_eq, text_eq_iff, is_empty, lookup, List, [], ◌∷◌, ◌++◌, All, none, some,
  Option-cases, Bool, Bool-cases, true, false, ◌≡◌, ◌⊎◌, refl, inl, inr, arith, Result, ok, raise,
  validation_error,
}
use delegate_implementation.Platform.{Platform, Fields}
use delegate_implementation.Streams.{stream_keys}
use delegate_implementation.Transfer.Receiver.{is_type}
use delegate_implementation.Models.{Execution}
use delegate_implementation.Models.Tables.{find_execution}
use delegate_implementation.Dispatcher.World.{World}
use delegate_implementation.Dispatcher.Announcements.{
  Thread, MainLoop, announces, is_watched, set_watched, drop_dead, attach, attach_found, announce,
  handle_announcement, handle_announcements,
}

module _ (p : Platform) where
  abbrev pub is_uuid : Text → Bool
  is_uuid id = elim (p.to_uuid id) [ none ↦ false | some uuid ↦ true ]

  -- Only ids that are UUIDs are watched.
  abbrev pub IsKnown : List (Text × Thread) → Type 0
  IsKnown = All (λ e. is_uuid e.0 ≡ true)

  module _ (alive : Thread → Bool) where
    pub IsKnown-is_watched :
        (id : Text) (watched : List (Text × Thread))
        → p.to_uuid id ≡ none
        → IsKnown watched
        → is_watched alive id watched ≡ false
    unfolding is_watched
    IsKnown-is_watched id [] bad known = refl
    IsKnown-is_watched id ((k, t) ∷ rest) bad (first, others) =
        let here : text_eq k id ≡ false = elim (Bool-cases (text_eq k id)) [
          | inr other ↦ other
          | inl same ↦
              let e : k ≡ id = (text_eq_iff k id).0 same in
              let known : is_uuid id ≡ true = rw e at first in absurd (ground arith)
        ] in
        rw here (IsKnown-is_watched id rest bad others)

    set_watched-IsKnown :
        (id : Text) (t : Thread) (watched : List (Text × Thread))
        → is_uuid id ≡ true
        → IsKnown watched
        → IsKnown (set_watched id t watched)
    unfolding set_watched
    set_watched-IsKnown id t [] good known = (good, tt)
    set_watched-IsKnown id t ((k, old) ∷ rest) good (first, others) =
        elim (Bool-cases (text_eq k id)) [
          | inl same ↦ rw same (first, others)
          | inr other ↦ rw other (first, set_watched-IsKnown id t rest good others)
        ]

    drop_dead-IsKnown :
        (watched : List (Text × Thread)) → IsKnown watched → IsKnown (drop_dead alive watched)
    unfolding drop_dead
    drop_dead-IsKnown [] known = tt
    drop_dead-IsKnown ((k, t) ∷ rest) (first, others) = elim (Bool-cases (alive t)) [
      | inl runs ↦ rw runs (first, drop_dead-IsKnown rest others)
      | inr ended ↦ rw ended (drop_dead-IsKnown rest others)
    ]

    -- The loop raises, or goes on with known ids only.
    abbrev pub GoesOn : Result MainLoop → Type 0
    GoesOn r = (r ≡ raise validation_error) ⊎ ((s : MainLoop) × (r ≡ ok s) × IsKnown s.watched)

    attach-GoesOn :
        (id delegate_id : Text) (fields : Fields) (execution : Execution) (s : MainLoop) (w : World)
        → is_uuid id ≡ true
        → IsKnown s.watched
        → GoesOn (attach p alive id fields execution delegate_id s w).0
    unfolding attach
    attach-GoesOn id delegate_id fields execution s w good known =
        let t : Thread = record { execution_id = id; keys = stream_keys id delegate_id } in
        let s' = record s { watched = set_watched id t s.watched; started = s.started ++ t ∷ [] } in
        let later = set_watched-IsKnown id t s.watched good known in
        elim (Bool-cases (announces fields (stream_keys id delegate_id))) [
          | inl named ↦ inr (s', ground arith, later)
          | inr deviates ↦ inr (s', ground arith, later)
        ]

    announce-GoesOn :
        (id : Text) (fields : Fields) (s : MainLoop) (w : World)
        → IsKnown s.watched
        → GoesOn (announce p alive id fields s w).0
    unfolding announce attach_found
    announce-GoesOn id fields s w known = elim (Bool-cases (is_watched alive id s.watched)) [
      | inl old ↦ inr (s, ground arith, known)
      | inr new ↦ elim (Option-cases (p.to_uuid id)) [
        | inl bad ↦ inl (ground arith)
        | inr (uuid, read) ↦ elim (Option-cases (find_execution uuid w.db.executions)) [
          | inl missing ↦ inr (s, ground arith, known)
          | inr (execution, found) ↦ elim (Option-cases execution.delegate_id) [
            | inl orphan ↦ inr (s, ground arith, known)
            | inr (delegate_id, assigned) ↦
                let step : (announce p alive id fields s w).0
                    ≡ (attach p alive id fields execution delegate_id s w).0 =
                  ground arith in
                rw step (attach-GoesOn id delegate_id fields execution s w (ground arith) known)
          ]
        ]
      ]
    ]

    pub handle_announcement-GoesOn :
        (msg_id : Text) (fields : Fields) (s : MainLoop) (w : World)
        → IsKnown s.watched
        → GoesOn (handle_announcement p alive msg_id fields s w).0
    unfolding handle_announcement
    handle_announcement-GoesOn msg_id fields s w known =
        let s' = record s { last_id = msg_id } in
        elim (Bool-cases (is_type fields (codes "EXECUTION_STARTED"))) [
          | inr other ↦ inr (s', ground arith, known)
          | inl started ↦ elim (Option-cases (lookup "execution_id" fields)) [
            | inl unnamed ↦ inr (s', ground arith, known)
            | inr (id, named) ↦ elim (Bool-cases (is_empty id)) [
              | inl empty ↦ inr (s', ground arith, known)
              | inr filled ↦
                  let step : (handle_announcement p alive msg_id fields s w).0
                      ≡ (announce p alive id fields s' w).0 =
                    ground arith in
                  rw step (announce-GoesOn id fields s' w known)
            ]
          ]
        ]

    pub handle_announcements-GoesOn :
        (messages : List (Text × Fields)) (s : MainLoop) (w : World)
        → IsKnown s.watched
        → GoesOn (handle_announcements p alive messages s w).0
    unfolding handle_announcements
    handle_announcements-GoesOn [] s w known = inr (_, refl, drop_dead-IsKnown s.watched known)
    handle_announcements-GoesOn ((msg_id, fields) ∷ rest) s w known =
        let (r, w') = handle_announcement p alive msg_id fields s w in
        elim (handle_announcement-GoesOn msg_id fields s w known) [
          | inl raised ↦ inl (ground arith)
          | inr (s', went, known') ↦
              let step : (handle_announcements p alive ((msg_id, fields) ∷ rest) s w).0
                  ≡ (handle_announcements p alive rest s' w').0 =
                ground arith in
              rw step (handle_announcements-GoesOn rest s' w' known')
        ]
