-- ===== src/Owner/Journal/Confirms.antt =====
-- What a caller may conclude from the answer of an operation on the owner journal.
use h_openconnect.Base.{
  ◌≡◌, ◌≢◌, refl, ap, ◌∙◌, inl, inr, arith, Bool, true, false, Option, none, some, Bool-cases, Text,
  text_eq, text_eq→eq, ==→eq,
}
use h_openconnect.Owner.Record.{
  ProcessIdentity, PlatformVpnOwnerPhase, pending, attached, stopping, PlatformVpnOwnerJournal,
  JournalRead, Result, ok, validate_attempt_id, validate_identity, validate_record, phase_eq,
  identity_eq, to_stored, from_stored, StoredPlatformVpnOwnerJournal,
}
use h_openconnect.Owner.Storage.{Entry, Io, Json, decoded}
use h_openconnect.Owner.Journal.{
  is_current, attach_by, upgrade_by, fence_phase, fence_by, delete_pending_by,
  upgrade_attached_exact, fence_pending_stop_exact, delete_pending_exact,
}
use h_openconnect.Owner.Journal.Rules.{
  Reads, written, after_lift, after_lock, after_read, after_write, after_write_end,
}
use h_openconnect.Owner.Journal.Evolution.{both_true}
use h_openconnect.Owner.Journal.Outcomes.{Reads-unique}

pub identity_eq→eq : (a b : ProcessIdentity) → identity_eq a b ≡ true → a ≡ b
unfolding identity_eq
identity_eq→eq a b h =
    ground
      (arith, text_eq→eq a.boot_id b.boot_id, ==→eq a.pid b.pid, ==→eq a.start_time b.start_time)

from_stored-to_stored :
    (j : PlatformVpnOwnerJournal) → validate_record j ≡ ok tt → from_stored (to_stored j) ≡ ok j
unfolding from_stored to_stored
from_stored-to_stored j v = rw v refl

decoded_present :
    (json : Json) (s : StoredPlatformVpnOwnerJournal) (r : PlatformVpnOwnerJournal)
    → from_stored s ≡ ok r
    → decoded json (some s) ≡ ok (JournalRead.present r)
decoded_present json s r h = rw (h, decoded) refl

-- What was written is read back.
pub written-Reads :
    (json : Json) (j : PlatformVpnOwnerJournal)
    → validate_record j ≡ ok tt
    → Reads json (written json j) j
written-Reads json j v = (
  json.encode (to_stored j),
  refl,
  ap (decoded json) (json.decode-encode (to_stored j))
      ∙ decoded_present json (to_stored j) j (from_stored-to_stored j v),
)

-- The file has a record of the attempt and issuer, in the given phase and with the given Extension.
abbrev pub Owned :
    Json → Entry → Text → ProcessIdentity → PlatformVpnOwnerPhase → Option ProcessIdentity → Type 0
Owned json e a i ph o =
    (c : PlatformVpnOwnerJournal) × Reads json e c
    × (c.attempt_id ≡ a)
    × (c.issuer ≡ i)
    × (c.phase ≡ ph)
    × (c.extension ≡ o)

pub current_parts :
    (c : PlatformVpnOwnerJournal) (a : Text) (i : ProcessIdentity)
    → is_current c a i ≡ true
    → (c.attempt_id ≡ a) × (c.issuer ≡ i)
current_parts c a i h =
    let b = both_true (text_eq c.attempt_id a) (identity_eq c.issuer i) h in
    (text_eq→eq c.attempt_id a b.0, identity_eq→eq c.issuer i b.1)

module _ (json : Json) (io : Io) (e : Entry) (a : Text) (i : ProcessIdentity) where
  abbrev Fenced : Result Bool × Entry → Type 0
  Fenced out = out.0 ≡ ok true → Owned json out.1 a i stopping none

  fence_phase-Fenced :
      (ph : PlatformVpnOwnerPhase) (o : Option ProcessIdentity) (c : PlatformVpnOwnerJournal)
      → Reads json e c
      → is_current c a i ≡ true
      → c.phase ≡ ph
      → c.extension ≡ o
      → Fenced (fence_phase json io ph o c e)
  fence_phase-Fenced pending none c r h p x =
      let q = current_parts c a i h in
      after_write Fenced json io _ _ e (λ y. λ g. cc) (λ v y. λ g. cc)
        (λ v. λ g. (record c { phase = stopping }, written-Reads json _ v, q.0, q.1, refl, x))
  fence_phase-Fenced stopping none c r h p x =
      let q = current_parts c a i h in λ g. (c, r, q.0, q.1, p, x)
  fence_phase-Fenced attached (some y) c r h p x = λ g. cc
  fence_phase-Fenced pending (some y) c r h p x = λ g. cc
  fence_phase-Fenced attached none c r h p x = λ g. cc
  fence_phase-Fenced stopping (some y) c r h p x = λ g. cc

  fence_found :
      (c : PlatformVpnOwnerJournal)
      → Reads json e c
      → Fenced (fence_by json io a i (JournalRead.present c) e)
  fence_found c r = elim (Bool-cases (is_current c a i)) [
    | inl t ↦ rw t (fence_phase-Fenced c.phase c.extension c r t refl refl)
    | inr t ↦ rw t (λ g. cc)
  ]

  -- When the fence reports success, the file has a stopping record of that attempt and issuer, with
  -- no Extension.
  pub fence_confirms :
      (fence_pending_stop_exact json io a i e).0 ≡ ok true
      → Owned json (fence_pending_stop_exact json io a i e).1 a i stopping none
  unfolding fence_pending_stop_exact
  fence_confirms =
      after_lift Fenced (validate_attempt_id a) _ e (λ y g. cc)
        λ _ _.
          after_lift Fenced (validate_identity i) _ e (λ y g. cc)
            λ _ _.
              after_lock Fenced json io _ e (λ y g. cc)
                (after_read Fenced json io (fence_by json io a i) e (λ y g. cc) (λ _ g. cc)
                  fence_found)

  abbrev Upgraded : ProcessIdentity → Result (Unit {0}) × Entry → Type 0
  Upgraded x out = out.0 ≡ ok tt → Owned json out.1 a i attached (some x)

  attach_by-Upgraded :
      (ph : PlatformVpnOwnerPhase) (o : Option ProcessIdentity) (c : PlatformVpnOwnerJournal)
      (x : ProcessIdentity)
      → Reads json e c
      → is_current c a i ≡ true
      → c.phase ≡ ph
      → c.extension ≡ o
      → Upgraded x (attach_by json io ph o c x e)
  attach_by-Upgraded pending none c x r h p k =
      let q = current_parts c a i h in
      after_write_end (Upgraded x) json io _ e (λ y. λ g. cc)
        (λ v r'. λ g. (
          record c { phase = attached; extension = some x },
          written-Reads json _ v,
          q.0,
          q.1,
          refl,
          refl,
        ))
  attach_by-Upgraded attached (some y) c x r h p k = elim (Bool-cases (identity_eq y x)) [
    | inl t ↦
        let q = current_parts c a i h in
        rw t (λ g. (c, r, q.0, q.1, p, k ∙ ap some (identity_eq→eq y x t)))
    | inr t ↦ rw t (λ g. cc)
  ]
  attach_by-Upgraded pending (some y) c x r h p k = λ g. cc
  attach_by-Upgraded attached none c x r h p k = λ g. cc
  attach_by-Upgraded stopping o c x r h p k = λ g. cc

  -- When an attachment reports success, the file has an attached record of that attempt and issuer
  -- with exactly that Extension.
  pub upgrade_confirms :
      (x : ProcessIdentity)
      → (upgrade_attached_exact json io a i x e).0 ≡ ok tt
      → Owned json (upgrade_attached_exact json io a i x e).1 a i attached (some x)
  unfolding upgrade_attached_exact
  upgrade_confirms x =
      after_lift (Upgraded x) (validate_attempt_id a) _ e (λ y g. cc)
        λ _ _.
          after_lift (Upgraded x) (validate_identity i) _ e (λ y g. cc)
            λ _ _.
              after_lift (Upgraded x) (validate_identity x) _ e (λ y g. cc)
                λ _ _.
                  after_lock (Upgraded x) json io _ e (λ y g. cc)
                    (after_read (Upgraded x) json io (upgrade_by json io a i x) e (λ y g. cc)
                      (λ _ g. cc)
                      (λ c r. elim (Bool-cases (is_current c a i)) [
                        | inl t ↦ rw t (attach_by-Upgraded c.phase c.extension c x r t refl refl)
                        | inr t ↦ rw t (λ g. cc)
                      ]))

-- Dropping a start that was not dispatched never removes a fenced or an attached record.
pub delete_pending_keeps :
    (json : Json) (io : Io) (e : Entry) (a : Text) (c : PlatformVpnOwnerJournal)
    → Reads json e c
    → c.phase ≢ pending
    → (delete_pending_exact json io a e).1 ≡ e
unfolding delete_pending_exact
delete_pending_keeps json io e a c r n =
    after_lift Same (validate_attempt_id a) _ e (λ y. refl)
      λ _ _.
        after_lock Same json io _ e (λ y. refl)
          (after_read Same json io (delete_pending_by json io a) e (λ y. refl) (λ _. refl) found)
  where
    Same : {A : Type 0} → Result A × Entry → Type 0
    Same out = out.1 ≡ e

    not_pending : (ph : PlatformVpnOwnerPhase) → ph ≢ pending → phase_eq ph pending ≡ false
    not_pending pending m = absurd (m refl)
    not_pending attached m = refl
    not_pending stopping m = refl

    found :
        (d : PlatformVpnOwnerJournal)
        → Reads json e d
        → Same (delete_pending_by json io a (JournalRead.present d) e)
    found d q =
        let s = Reads-unique json e c d r q in
        let t = not_pending d.phase (λ p. n (ap PlatformVpnOwnerJournal.phase s ∙ p)) in
        elim (Bool-cases (text_eq d.attempt_id a)) [ inl m ↦ rw (m, t) refl | inr m ↦ rw m refl ]
