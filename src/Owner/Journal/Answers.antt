-- ===== src/Owner/Journal/Answers.antt =====
-- What a caller may conclude from a creation, a rebinding and a deletion that succeed.
use h_openconnect.Base.{
  ◌≡◌, refl, ap, sym, ◌∙◌, inl, inr, arith, Bool, true, false, ◌&&◌, Option, none, some, Bool-cases,
  Text, text_eq, text_eq→eq, if_true, if_false,
}
use h_openconnect.Owner.Record.{
  ProcessIdentity, pending, attached, PlatformVpnOwnerJournal, JournalRead, Result, ok, err,
  OwnerError, check, validate_attempt_id, validate_identity, validate_record, phase_eq, identity_eq,
  extension_eq, journal_eq,
}
use h_openconnect.Owner.Storage.{Entry, Io, Json, read_unlocked, read_entry}
use h_openconnect.Owner.Journal.{
  read, is_current, is_none, validate_expected, create_by, create_pending_exact, rebind_from,
  rebind_by, rebind_attached_exact, delete_if, delete_by, delete_exact,
}
use h_openconnect.Owner.Journal.Rules.{
  Reads-present, Reads, after_lift, after_lock, after_read, after_write_end, after_remove,
}
use h_openconnect.Owner.Journal.Evolution.{both_true, phase_eq→eq, is_none→eq}
use h_openconnect.Owner.Journal.Confirms.{Owned, identity_eq→eq, written-Reads, current_parts}

is_created :
    (j : PlatformVpnOwnerJournal)
    → check (phase_eq j.phase pending && is_none j.extension) OwnerError.not_pending ≡ ok tt
    → (j.phase ≡ pending) × (j.extension ≡ none)
is_created j h =
    let b = both_true (phase_eq j.phase pending) (is_none j.extension) (ground arith) in
    (phase_eq→eq j.phase pending b.0, is_none→eq j.extension b.1)

extension_eq→eq : (o p : Option ProcessIdentity) → extension_eq o p ≡ true → o ≡ p
extension_eq→eq none none h = refl
extension_eq→eq (some x) (some y) h = ap some (identity_eq→eq x y h)
extension_eq→eq none (some y) h = cc
extension_eq→eq (some x) none h = cc

-- A record that equals a pending one.
journal_parts :
    (c j : PlatformVpnOwnerJournal)
    → journal_eq c j ≡ true
    → j.phase ≡ pending
    → j.extension ≡ none
    → (c.attempt_id ≡ j.attempt_id)
      × (c.issuer ≡ j.issuer)
      × (c.phase ≡ pending)
      × (c.extension ≡ none)
unfolding journal_eq
journal_parts c j h p x =
    let t : text_eq c.attempt_id j.attempt_id ≡ true = ground arith in
    let u : identity_eq c.issuer j.issuer ≡ true = ground arith in
    let v : extension_eq c.extension j.extension ≡ true = ground arith in
    let w : phase_eq c.phase j.phase ≡ true = ground arith in
    (
      text_eq→eq c.attempt_id j.attempt_id t,
      identity_eq→eq c.issuer j.issuer u,
      phase_eq→eq c.phase j.phase w ∙ p,
      extension_eq→eq c.extension j.extension v ∙ x,
    )

module _ (json : Json) (io : Io) (e : Entry) where
  abbrev Seen : Result JournalRead × Entry → Type 0
  Seen out =
      (out.1 ≡ e)
      × ((c : PlatformVpnOwnerJournal) → out.0 ≡ ok (JournalRead.present c) → Reads json e c)

  -- A read changes nothing, and a record that it answers is the file's.
  pub read_confirms : Seen (read json io e)
  unfolding read read_unlocked
  read_confirms =
      after_lock Seen json io (λ u. read_unlocked json io) e (λ x. (refl, λ c h. cc))
        (
          refl,
          λ c h. elim (Bool-cases io.inspect_fails) [
            | inl t ↦
                cc (sym (if_true io.inspect_fails (err OwnerError.io) (read_entry json io e) t) ∙ h)
            | inr t ↦
                Reads-present json io e c
                  (sym (if_false io.inspect_fails (err OwnerError.io) (read_entry json io e) t) ∙ h)
          ],
        )

  abbrev Created : PlatformVpnOwnerJournal → Result (Unit {0}) × Entry → Type 0
  Created j out = out.0 ≡ ok tt → Owned json out.1 j.attempt_id j.issuer pending none

  create_by-Created :
      (j c : PlatformVpnOwnerJournal)
      → Reads json e c
      → (j.phase ≡ pending) × (j.extension ≡ none)
      → Created j (create_by json io j (JournalRead.present c) e)
  create_by-Created j c r q = elim (Bool-cases (journal_eq c j)) [
    | inl t ↦ let p = journal_parts c j t q.0 q.1 in rw t (λ g. (c, r, p.0, p.1, p.2, p.3))
    | inr t ↦ rw t (λ g. cc)
  ]

  -- When a creation reports success, the file has a pending record of that attempt and issuer, with no
  -- Extension.
  pub create_confirms :
      (j : PlatformVpnOwnerJournal)
      → (create_pending_exact json io j e).0 ≡ ok tt
      → Owned json (create_pending_exact json io j e).1 j.attempt_id j.issuer pending none
  unfolding create_pending_exact
  create_confirms j =
      after_lift (Created j) (validate_record j) _ e (λ y g. cc)
        λ _ v.
          after_lift (Created j)
            (check (phase_eq j.phase pending && is_none j.extension) OwnerError.not_pending) _ e
            (λ y g. cc)
            λ _ h.
              let q = is_created j h in
              after_lock (Created j) json io _ e (λ y g. cc)
                (after_read (Created j) json io (create_by json io j) e (λ y g. cc)
                  (λ a.
                    after_write_end (Created j) json io j e (λ y g. cc)
                      (λ w r g. (j, written-Reads json j w, refl, refl, q.0, q.1)))
                  (λ c r. create_by-Created j c r q))

  abbrev Rebound : Text → ProcessIdentity → ProcessIdentity → Result (Unit {0}) × Entry → Type 0
  Rebound a i y out = out.0 ≡ ok tt → Owned json out.1 a i attached (some y)

  rebind_from-Rebound :
      (o : Option ProcessIdentity) (c : PlatformVpnOwnerJournal) (a : Text)
      (i x y : ProcessIdentity)
      → Reads json e c
      → (c.attempt_id ≡ a) × (c.issuer ≡ i)
      → c.phase ≡ attached
      → c.extension ≡ o
      → Rebound a i y (rebind_from json io o c x y e)
  rebind_from-Rebound none c a i x y r q p k = λ g. cc
  rebind_from-Rebound (some z) c a i x y r q p k = elim (Bool-cases (identity_eq z y)) [
    | inl u ↦
        let own : Owned json e a i attached (some y) =
          (c, r, q.0, q.1, p, k ∙ ap some (identity_eq→eq z y u)) in
        elim (Bool-cases (identity_eq z x)) [
          | inl t ↦ rw (t, u) (λ g. own)
          | inr t ↦ rw (t, u) (λ g. own)
        ]
    | inr u ↦ elim (Bool-cases (identity_eq z x)) [
      | inl t ↦
          rw (t, u)
            (after_write_end (Rebound a i y) json io _ e (λ w g. cc)
              (λ v r' g.
                (record c { extension = some y }, written-Reads json _ v, q.0, q.1, p, refl)))
      | inr t ↦ rw (t, u) (λ g. cc)
    ]
  ]

  rebind_by-Rebound :
      (c : PlatformVpnOwnerJournal) (a : Text) (i x y : ProcessIdentity)
      → Reads json e c
      → Rebound a i y (rebind_by json io a i x y (JournalRead.present c) e)
  rebind_by-Rebound c a i x y r =
      elim (Bool-cases (is_current c a i && phase_eq c.phase attached)) [
        | inl t ↦
            let b = both_true (is_current c a i) (phase_eq c.phase attached) t in
            rw t (
              rebind_from-Rebound c.extension c a i x y r (current_parts c a i b.0)
                (phase_eq→eq c.phase attached b.1) refl)
        | inr t ↦ rw t (λ g. cc)
      ]

  -- When a rebinding reports success, the file has an attached record of that attempt and issuer with
  -- the replacement as its Extension.
  pub rebind_confirms :
      (a : Text) (i x y : ProcessIdentity)
      → (rebind_attached_exact json io a i x y e).0 ≡ ok tt
      → Owned json (rebind_attached_exact json io a i x y e).1 a i attached (some y)
  unfolding rebind_attached_exact
  rebind_confirms a i x y =
      after_lift (Rebound a i y) (validate_attempt_id a) _ e (λ w g. cc)
        λ _ _.
          after_lift (Rebound a i y) (validate_identity i) _ e (λ w g. cc)
            λ _ _.
              after_lift (Rebound a i y) (validate_identity x) _ e (λ w g. cc)
                λ _ _.
                  after_lift (Rebound a i y) (validate_identity y) _ e (λ w g. cc)
                    λ _ _.
                      after_lock (Rebound a i y) json io _ e (λ w g. cc)
                        (after_read (Rebound a i y) json io (rebind_by json io a i x y) e
                          (λ w g. cc) (λ _ g. cc) (λ c r. rebind_by-Rebound c a i x y r))

  -- The file had a record of the attempt with exactly that Extension, and is gone.
  abbrev pub Removed : Text → Option ProcessIdentity → Entry → Type 0
  Removed a o after =
      ((c : PlatformVpnOwnerJournal) × Reads json e c × (c.attempt_id ≡ a) × (c.extension ≡ o))
      × (after ≡ Entry.absent)

  abbrev Deleted : Text → Option ProcessIdentity → Result Bool × Entry → Type 0
  Deleted a o out = out.0 ≡ ok true → Removed a o out.1

  delete_if-Deleted :
      (a : Text) (o : Option ProcessIdentity) (c : PlatformVpnOwnerJournal) (b : Bool)
      → Reads json e c
      → (b ≡ true → (c.attempt_id ≡ a) × (c.extension ≡ o))
      → Deleted a o (delete_if json io b e)
  delete_if-Deleted a o c true r h =
      let p = h refl in
      after_remove (Deleted a o) json io _ e (λ x g. cc) (λ x g. cc) (λ g. ((c, r, p.0, p.1), refl))
  delete_if-Deleted a o c false r h = λ g. cc

  -- When a deletion reports that it removed the record, the file had a record of that attempt with
  -- exactly the expected Extension, and is gone.
  pub delete_confirms :
      (a : Text) (o : Option ProcessIdentity)
      → (delete_exact json io a o e).0 ≡ ok true
      → Removed a o (delete_exact json io a o e).1
  unfolding delete_exact
  delete_confirms a o =
      after_lift (Deleted a o) (validate_attempt_id a) _ e (λ w g. cc)
        λ _ _.
          after_lift (Deleted a o) (validate_expected o) _ e (λ w g. cc)
            λ _ _.
              after_lock (Deleted a o) json io _ e (λ w g. cc)
                (after_read (Deleted a o) json io (delete_by json io a o) e (λ w g. cc) (λ _ g. cc)
                  (λ c r.
                    delete_if-Deleted a o c (text_eq c.attempt_id a && extension_eq c.extension o) r
                      (λ t.
                        let b = both_true (text_eq c.attempt_id a) (extension_eq c.extension o) t in
                        (text_eq→eq c.attempt_id a b.0, extension_eq→eq c.extension o b.1))))
