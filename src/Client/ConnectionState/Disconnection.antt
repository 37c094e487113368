-- ===== src/Client/ConnectionState/Disconnection.antt =====
-- Whoever asks for the disconnection is told about it, once it has come, and told the same.
use open_airbus_cockpit.Prelude.{
  ℕ, zero, suc, ◌≤◌, ◌<◌, ◌≡◌, refl, sym, ap, subst, ◌∙◌, inl, inr, arith, List, [], ◌∷◌, Bool,
  Bool-cases, true, false, Option, none, some,
}
use open_airbus_cockpit.Prelude.Maps.{
  Map, find, find-nil, assign, find-assign_same, find-assign_other, same_number,
}
use open_airbus_cockpit.Client.ConnectionState.{
  ConnectionState, create, settle_all, disconnection, disconnect, disconnect_with_error,
}

-- The numbers below `n`, the last one first.
down : ℕ → List ℕ
down zero = []
down (suc n) = n ∷ down n

module _ {E : Type 0} where
  pub data Step (s : ConnectionState E) : ConnectionState E → Type 0 where
    asks : Step s (disconnection s).1
    disconnects : Step s (disconnect s)
    fails : (e : E) → Step s (disconnect_with_error e s)

  pub data Steps (s : ConnectionState E) : ConnectionState E → Type 0 where
    stay : Steps s s
    then_step : {s' s'' : ConnectionState E} → Steps s s' → Step s' s'' → Steps s s''

  -- What has been settled stays so unless it is settled again.
  find-settle_all_other :
      (n p : ℕ) (o : Option E) (m : Map ℕ (Option E))
      → n ≤ p
      → find p (settle_all (down n) o m) ≡ find p m
  unfolding settle_all down
  find-settle_all_other zero p o m h = refl
  find-settle_all_other (suc n) p o m h =
      find-settle_all_other n p o (assign n o m) (omega arith)
      ∙ find-assign_other n p o m (λ e. absurd (omega arith))

  find-settle_all :
      (n p : ℕ) (o : Option E) (m : Map ℕ (Option E))
      → p < n
      → find p (settle_all (down n) o m) ≡ some o
  unfolding settle_all down
  find-settle_all zero p o m h = absurd (omega arith)
  find-settle_all (suc n) p o m h = elim (same_number p n) [
    | yes e ↦
        find-settle_all_other n p o (assign n o m) (omega arith)
        ∙ ap (λ q. find q (assign n o m)) e
        ∙ find-assign_same n o m
    | no other ↦ find-settle_all n p o (assign n o m) (omega arith)
  ]

  -- Connected, all promises are kept, none is settled and there is no error; disconnected, all are settled with
  -- the error.
  record IsValid (s : ConnectionState E) : Type 0 where
    promised : s.connected ≡ true → s.promises ≡ down s.made
    open_all : s.connected ≡ true → s.settled ≡ []
    no_error : s.connected ≡ true → s.error ≡ none
    told : (p : ℕ) → s.connected ≡ false → p < s.made → find p s.settled ≡ some s.error

  create-IsValid : (connected : Bool) → IsValid (create connected)
  unfolding create down
  create-IsValid connected = record {
    promised = λ _. refl;
    open_all = λ _. refl;
    no_error = λ _. refl;
    told = λ p _ h. absurd (omega arith);
  }

  -- All promises of a connected state are settled at once.
  settled-all :
      (s : ConnectionState E) (o : Option E) (p : ℕ)
      → IsValid s
      → s.connected ≡ true
      → p < s.made
      → find p (settle_all s.promises o s.settled) ≡ some o
  settled-all s o p v on h =
      ap (λ ps. find p (settle_all ps o s.settled)) (v.promised on)
      ∙ find-settle_all s.made p o s.settled h

  Step-IsValid : (s s' : ConnectionState E) → Step s s' → IsValid s → IsValid s'
  unfolding disconnection disconnect disconnect_with_error down
  Step-IsValid s _ asks v = elim (Bool-cases s.connected) [
    | inl on ↦ rw on (record {
      promised = λ _. ap (λ ps. s.made ∷ ps) (v.promised on);
      open_all = λ _. v.open_all on;
      no_error = λ _. v.no_error on;
      told = λ p off h. absurd cc;
    })
    | inr off ↦ rw off (record {
      promised = λ on. absurd cc;
      open_all = λ on. absurd cc;
      no_error = λ on. absurd cc;
      told = λ p _ h. elim (same_number p s.made) [
        | yes e ↦
            ap (λ q. find q (assign s.made s.error s.settled)) e
            ∙ find-assign_same s.made s.error s.settled
        | no other ↦ find-assign_other s.made p s.error s.settled other ∙ v.told p off (omega arith)
      ];
    })
  ]
  Step-IsValid s _ disconnects v = elim (Bool-cases s.connected) [
    | inl on ↦ rw on (record {
      promised = λ e. absurd cc;
      open_all = λ e. absurd cc;
      no_error = λ e. absurd cc;
      told = λ p _ h. settled-all s none p v on h ∙ ap some (sym (v.no_error on));
    })
    | inr off ↦ simp off v
  ]
  Step-IsValid s _ (fails e) v = elim (Bool-cases s.connected) [
    | inl on ↦ rw on (record {
      promised = λ e. absurd cc;
      open_all = λ e. absurd cc;
      no_error = λ e. absurd cc;
      told = λ p _ h. settled-all s (some e) p v on h;
    })
    | inr off ↦ simp off v
  ]

  Steps-IsValid : (s s' : ConnectionState E) → Steps s s' → IsValid s → IsValid s'
  Steps-IsValid s _ stay v = v
  Steps-IsValid s s'' (then_step {s'} steps step) v =
      Step-IsValid s' s'' step (Steps-IsValid s s' steps v)

  -- What a call ends the connection with, if it was connected: nothing, success or an error.
  abbrev pub end_of : {s s' : ConnectionState E} → Step s s' → Option (Option E)
  end_of asks = none
  end_of disconnects = some none
  end_of (fails e) = some (some e)

  abbrev pub first_of : Option (Option E) → Option (Option E) → Option (Option E)
  first_of none o = o
  first_of (some a) o = some a

  -- What the first call that ends the connection ends it with; a state that is created unconnected has ended with success.
  abbrev pub ended :
      (connected : Bool) {s : ConnectionState E} → Steps (create connected) s → Option (Option E)
  ended true stay = none
  ended false stay = some none
  ended connected (then_step steps step) = first_of (ended connected steps) (end_of step)

  -- The state has ended as the calls say, with its error.
  Tells : Option (Option E) → ConnectionState E → Type 0
  Tells none s = s.connected ≡ true
  Tells (some o) s = (s.connected ≡ false) × (s.error ≡ o)

  Step-Tells :
      (o : Option (Option E)) (s s' : ConnectionState E) (step : Step s s')
      → IsValid s
      → Tells o s
      → Tells (first_of o (end_of step)) s'
  unfolding Tells disconnection disconnect disconnect_with_error
  Step-Tells none s _ asks v on = rw on refl
  Step-Tells none s _ disconnects v on = rw on (refl, v.no_error on)
  Step-Tells none s _ (fails e) v on = rw on (refl, refl)
  Step-Tells (some o) s _ asks v (off, same) = rw off (refl, same)
  Step-Tells (some o) s _ disconnects v (off, same) = rw off (refl, same)
  Step-Tells (some o) s _ (fails e) v (off, same) = rw off (refl, same)

  Steps-Tells :
      (connected : Bool) (s : ConnectionState E) (steps : Steps (create connected) s)
      → Tells (ended connected steps) s
  unfolding Tells create
  Steps-Tells true _ stay = refl
  Steps-Tells false _ stay = (refl, refl)
  Steps-Tells connected s (then_step {s'} steps step) =
      Step-Tells (ended connected steps) s' s step
        (Steps-IsValid (create connected) s' steps (create-IsValid connected))
        (Steps-Tells connected s' steps)

  -- Whatever calls have been made of a new connection state, in whatever order: once one of them has ended the connection,
  -- every future that `disconnection` has returned, before or after, is settled with what the first such call ended it
  -- with: the error that `disconnect_with_error` was given, or success after `disconnect` or where the
  -- state was created unconnected.
  pub disconnection_told :
      (connected : Bool) (s : ConnectionState E) (p : ℕ) (o : Option E)
      (steps : Steps (create connected) s)
      → ended connected steps ≡ some o
      → p < s.made
      → find p s.settled ≡ some o
  unfolding Tells
  disconnection_told connected s p o steps at_end h =
      let (off, same) : Tells (some o) s =
        subst (λ x. Tells x s) at_end (Steps-Tells connected s steps) in
      (Steps-IsValid (create connected) s steps (create-IsValid connected)).told p off h
      ∙ ap some same

  -- Whatever calls have been made of a new connection state: as long as it is connected, no future is settled.
  pub disconnection_waits :
      (connected : Bool) (s : ConnectionState E) (p : ℕ)
      → Steps (create connected) s
      → s.connected ≡ true
      → find p s.settled ≡ none
  disconnection_waits connected s p steps on =
      ap (find p)
        ((Steps-IsValid (create connected) s steps (create-IsValid connected)).open_all on)
      ∙ find-nil p
