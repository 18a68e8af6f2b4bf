-- ===== src/Engine/Contract/Adopted.antt =====
-- What adopting an attempt leaves in the journal, by the record that was read.
use h_openconnect.Base.{
  ◌≡◌, refl, ap, ◌∙◌, Option, none, some, Text, text_eq, text_eq→eq, Bool-cases, inl, inr,
}
use h_openconnect.Bridge.Envelope.{is_present}
use h_openconnect.Owner.Record.{
  ProcessIdentity, PlatformVpnOwnerPhase, pending, attached, stopping, PlatformVpnOwnerJournal,
  JournalRead, Result, PlatformVpnOwnerLeaseRecord, identity_eq,
}
use h_openconnect.Owner.Storage.{Json, Entry}
use h_openconnect.Owner.Lease.{PlatformVpnOwnerLeaseObservation}
use h_openconnect.Owner.Journal.Rules.{Reads}
use h_openconnect.Owner.Journal.Confirms.{Owned, upgrade_confirms, identity_eq→eq}
use h_openconnect.Owner.Journal.Answers.{rebind_confirms}
use h_openconnect.Engine.State.{SessionEngine, Env, Action, ◌>>=◌, ◌>>◌, CoreResult, ok, err}
use h_openconnect.Engine.Ownership.{
  Host, lift, on_journal, journal_of, require_held, require_released,
}
use h_openconnect.Engine.Extension.{adopt_by, adopt_attached, keep_lease}
use h_openconnect.Engine.Contract.{Yields, bind-Yields, journal-Yields}

-- The journal has the attempt attached to this process.
abbrev pub AttachedBy : Json → Text → ProcessIdentity → Entry → Type 0
AttachedBy json a owner y = (issuer : ProcessIdentity) × Owned json y a issuer attached (some owner)

-- What is left of a record that was read: its attempt.
abbrev pub Found : Json → Text → PlatformVpnOwnerJournal → SessionEngine → Type 0
Found json a j e = Reads json e.journal j × (j.attempt_id ≡ a)

pub Found-Yields :
    (json : Json) (a : Text) (r : JournalRead) (e : SessionEngine)
    → ((c : PlatformVpnOwnerJournal) → r ≡ JournalRead.present c → Reads json e.journal c)
    → Yields (Found json a) (journal_of a r e)
Found-Yields json a JournalRead.missing e h = tt
Found-Yields json a (JournalRead.present c) e h = elim (Bool-cases (text_eq c.attempt_id a)) [
  | inl t ↦ rw t (h c refl, text_eq→eq c.attempt_id a t)
  | inr t ↦ rw t tt
]

abbrev pub Any : {A : Type 0} → A → SessionEngine → Type 0
Any a e = Unit {0}

pub Any-Yields : {A : Type 0} (r : CoreResult A × SessionEngine) → Yields Any r
Any-Yields (ok a, e) = tt
Any-Yields (err x, e) = tt

module _ (json : Json) (env : Env) (host : Host) (a : Text) (owner : ProcessIdentity) where
  abbrev pub Here : {A : Type 0} → A → SessionEngine → Type 0
  Here x e = AttachedBy json a owner e.journal

  lifted :
      {A B : Type 0} (r : Result A) (f : A → Action B) (e : SessionEngine)
      → ((x : A) → Yields Here (f x e))
      → Yields Here ((lift r >>= f) e)
  unfolding ◌>>=◌
  lifted (Result.ok x) f e k = k x
  lifted (Result.err y) f e k = tt

  required :
      {B : Type 0} (o : PlatformVpnOwnerLeaseObservation) (m : Action B) (e : SessionEngine)
      → Yields Here (m e)
      → Yields Here ((require_held o >> m) e) × Yields Here ((require_released o >> m) e)
  unfolding ◌>>=◌
  required PlatformVpnOwnerLeaseObservation.held_exact m e k = (k, tt)
  required PlatformVpnOwnerLeaseObservation.released m e k = (tt, k)
  required PlatformVpnOwnerLeaseObservation.held_other m e k = (tt, tt)

  kept :
      (act : Entry → Result (Unit {0}) × Entry) (l : PlatformVpnOwnerLeaseRecord)
      (e : SessionEngine)
      → ((act e.journal).0 ≡ Result.ok tt → AttachedBy json a owner (act e.journal).1)
      → Yields Here ((on_journal act >> keep_lease json env host l) e)
  kept act l e k =
      bind-Yields Here Here (on_journal act) (λ u. keep_lease json env host l) e
        (journal-Yields Here act e (λ u h. k h)) (λ u f h. h)

  adopt_attached-Here :
      (c : ProcessIdentity) (j : PlatformVpnOwnerJournal) (e : SessionEngine)
      → Found json a j e
      → j.phase ≡ attached
      → j.extension ≡ some c
      → Yields Here (adopt_attached json env host c a owner j e)
  adopt_attached-Here c j e (r, q) p x = elim (Bool-cases (identity_eq c owner)) [
    | inl t ↦
        let own : AttachedBy json a owner e.journal =
          (j.issuer, (j, r, q, refl, p, x ∙ ap some (identity_eq→eq c owner t))) in
        elim (Bool-cases (is_present e.inner.platform_vpn_extension_lease)) [
          | inl u ↦ rw (t, u) own
          | inr u ↦ rw (t, u) (lifted _ (keep_lease json env host) e (λ l. own))
        ]
    | inr t ↦ rw t (
        lifted _ _ e λ o.
          (required o _ e (
            lifted _ _ e λ l. kept _ l e (λ h.
              (j.issuer, rebind_confirms json host.update e.journal a j.issuer c owner h)))).1)
  ]

  pub adopt_by-Here :
      (ph : PlatformVpnOwnerPhase) (x : Option ProcessIdentity) (j : PlatformVpnOwnerJournal)
      (e : SessionEngine)
      → Found json a j e
      → j.phase ≡ ph
      → j.extension ≡ x
      → Yields Here (adopt_by json env host ph x a owner j e)
  adopt_by-Here pending none j e f p q = lifted _ _ e λ o.
      (required o _ e (
        lifted _ _ e λ l.
          kept _ l e
            (λ h. (j.issuer, upgrade_confirms json host.update e.journal a j.issuer owner h)))).0
  adopt_by-Here attached (some c) j e f p q = adopt_attached-Here c j e f p q
  adopt_by-Here pending (some c) j e f p q = tt
  adopt_by-Here attached none j e f p q = tt
  adopt_by-Here stopping x j e f p q = tt
