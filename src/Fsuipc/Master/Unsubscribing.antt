-- ===== src/Fsuipc/Master/Unsubscribing.antt =====
-- What `unsubscribe` of the FSUIPC master leaves.
use open_airbus_cockpit.Prelude.{ℕ, ◌≡◌, refl, inl, inr, Bool-cases, true, false, none, ok, throws}
use open_airbus_cockpit.Prelude.Maps.{find, find-erase_same}
use open_airbus_cockpit.Exception.{no_such_subscription_error}
use open_airbus_cockpit.Fsuipc.Offset.{Offset, same_offset, db_no_such_subscription_error, raised}
use open_airbus_cockpit.Fsuipc.UpdateObserver.{Observed, stop_observing}
use open_airbus_cockpit.Fsuipc.OffsetDb.{remove_subscription, get_offset_for_subscription}
use open_airbus_cockpit.Fsuipc.OffsetDb.Subscriptions.{remove_subscription_lem}
use open_airbus_cockpit.Fsuipc.Master.{Environment, Master, known_offset, unsubscribe}

module _ {S H U : Type 0} (env : Environment S H U) where
  erased : (o : Offset) (ob : Observed) → find o (stop_observing o ob).offsets ≡ none
  unfolding stop_observing
  erased o ob = find-erase_same o ob.offsets

  unsubscribe_unknown :
      (id : ℕ) (m : Master S H U)
      → get_offset_for_subscription id m.db ≡ throws (db_no_such_subscription_error id)
      → unsubscribe env id m ≡ (throws (raised (no_such_subscription_error id)), m)
  unfolding unsubscribe
  unsubscribe_unknown id m e = rw e refl

  -- Unsubscribing a subscription that the master holds returns; its identifier is then unknown, so that
  -- unsubscribing it again throws and changes nothing. Where the offset is no longer known, it is not observed any more; where
  -- it is, what is observed is unchanged. The adapter and the state of the user are not touched.
  pub unsubscribe_lem :
      (id : ℕ) (o : Offset) (m : Master S H U)
      → get_offset_for_subscription id m.db ≡ ok o
      → (m' : Master S H U) × (unsubscribe env id m ≡ (ok tt, m'))
        × (m'.db ≡ remove_subscription id m.db)
        × (unsubscribe env id m' ≡ (throws (raised (no_such_subscription_error id)), m'))
        × (known_offset o m'.db.known_offsets ≡ false → find o m'.observed.offsets ≡ none)
        × (known_offset o m'.db.known_offsets ≡ true → m'.observed ≡ m.observed)
        × (m'.client ≡ m.client)
        × (m'.user ≡ m.user)
  unfolding unsubscribe
  unsubscribe_lem id o m found =
      let db' = remove_subscription id m.db in
      let (gone, _) = remove_subscription_lem id id m.db in
      elim (Bool-cases (known_offset o db'.known_offsets)) [
        | inl e ↦
            let m' : Master S H U = record m { db = db' } in
            (
              m',
              rw (found, e) refl,
              refl,
              unsubscribe_unknown id m' gone,
              λ n. absurd cc,
              λ _. refl,
              refl,
              refl,
            )
        | inr e ↦
            let m' : Master S H U = record m { db = db'; observed = stop_observing o m.observed } in
            (
              m',
              rw (found, e) refl,
              refl,
              unsubscribe_unknown id m' gone,
              λ _. erased o m.observed,
              λ n. absurd cc,
              refl,
              refl,
            )
      ]
