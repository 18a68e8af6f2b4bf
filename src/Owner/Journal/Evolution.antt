-- ===== src/Owner/Journal/Evolution.antt =====
-- Which records an operation can leave behind, whatever fails on the way.
use h_openconnect.Base.{
  ◌≡◌, refl, inl, inr, arith, Bool, true, false, ◌&&◌, Option, none, some, if◌then◌else◌,
  Bool-cases, Text, text_eq,
}
use h_openconnect.Owner.Record.{
  ProcessIdentity, PlatformVpnOwnerPhase, pending, attached, stopping, PlatformVpnOwnerJournal,
  JournalRead, OwnerError, Result, ok, check, validate_attempt_id, validate_identity,
  validate_record, phase_eq, identity_eq, journal_eq, extension_eq,
}
use h_openconnect.Owner.Storage.{Entry, Io, Json, Action}
use h_openconnect.Owner.Journal.{
  is_current, is_none, validate_expected, create_by, attach_by, upgrade_by, fence_phase, fence_by,
  rebind_from, rebind_by, delete_if, delete_by, delete_pending_by, create_pending_exact,
  upgrade_attached_exact, fence_pending_stop_exact, rebind_attached_exact, delete_exact,
  delete_pending_exact,
}
use h_openconnect.Owner.Journal.Rules.{
  Reads, written, after_lift, after_lock, after_read, after_write, after_write_end, after_remove,
}

-- The life of a record: created pending, then attached by an Extension or fenced for stopping; an
-- attached record may pass to another Extension; any record may be removed.
pub data Evolves (json : Json) : Entry → Entry → Type 0 where
  unchanged : (e : Entry) → Evolves json e e
  created :
      {e : Entry} (j : PlatformVpnOwnerJournal)
      → e ≡ Entry.absent
      → j.phase ≡ pending
      → j.extension ≡ none
      → Evolves json e (written json j)
  attaches :
      {e : Entry} (c : PlatformVpnOwnerJournal) (x : ProcessIdentity)
      → Reads json e c
      → c.phase ≡ pending
      → Evolves json e (written json (record c { phase = attached; extension = some x }))
  fenced :
      {e : Entry} (c : PlatformVpnOwnerJournal)
      → Reads json e c
      → c.phase ≡ pending
      → Evolves json e (written json (record c { phase = stopping }))
  rebound :
      {e : Entry} (c : PlatformVpnOwnerJournal) (x : ProcessIdentity)
      → Reads json e c
      → c.phase ≡ attached
      → Evolves json e (written json (record c { extension = some x }))
  removed : {e : Entry} (c : PlatformVpnOwnerJournal) → Reads json e c → Evolves json e Entry.absent

pub phase_eq→eq : (a b : PlatformVpnOwnerPhase) → phase_eq a b ≡ true → a ≡ b
phase_eq→eq a b h = ground arith

pub both_true : (a b : Bool) → (a && b) ≡ true → (a ≡ true) × (b ≡ true)
both_true a b h = ground arith

pub is_none→eq : (o : Option ProcessIdentity) → is_none o ≡ true → o ≡ none
is_none→eq o h = ground arith

module _ (json : Json) (io : Io) (e : Entry) where
  abbrev pub Kept : {B : Type 0} → Result B × Entry → Type 0
  Kept out = Evolves json e out.1

  same : Evolves json e e
  same = unchanged e

  Kept-if :
      {B : Type 0} (b : Bool) (x y : Action B)
      → Kept (x e)
      → Kept (y e)
      → Kept ((if b then x else y) e)
  Kept-if true x y hx hy = hx
  Kept-if false x y hx hy = hy

  create_by-Evolves :
      (j : PlatformVpnOwnerJournal)
      → (check (phase_eq j.phase pending && is_none j.extension) OwnerError.not_pending ≡ ok tt)
      → (found : JournalRead) → (found ≡ JournalRead.missing → e ≡ Entry.absent)
      → Kept (create_by json io j found e)
  create_by-Evolves j h JournalRead.missing a =
      let b = both_true (phase_eq j.phase pending) (is_none j.extension) (ground arith) in
      after_write_end Kept json io j e (λ x. same)
        (λ v r. created j (a refl) (phase_eq→eq j.phase pending b.0) (is_none→eq j.extension b.1))
  create_by-Evolves j h (JournalRead.present c) a = Kept-if (journal_eq c j) _ _ same same

  pub create-Evolves : (j : PlatformVpnOwnerJournal) → Kept (create_pending_exact json io j e)
  unfolding create_pending_exact
  create-Evolves j =
      after_lift Kept (validate_record j) _ e (λ x. same)
        λ _ _.
          after_lift Kept
            (check (phase_eq j.phase pending && is_none j.extension) OwnerError.not_pending) _ e
            (λ x. same)
            λ _ h.
              after_lock Kept json io _ e (λ x. same)
                (after_read Kept json io (create_by json io j) e (λ x. same)
                  (λ a. create_by-Evolves j h JournalRead.missing (λ _. a))
                  (λ c r. create_by-Evolves j h (JournalRead.present c) (λ m. cc)))

  attach-Evolves :
      (ph : PlatformVpnOwnerPhase) (o : Option ProcessIdentity) (c : PlatformVpnOwnerJournal)
      (x : ProcessIdentity)
      → Reads json e c
      → c.phase ≡ ph
      → Kept (attach_by json io ph o c x e)
  attach-Evolves pending none c x r h =
      after_write_end Kept json io _ e (λ x. same) (λ v r'. attaches c x r h)
  attach-Evolves attached (some y) c x r h = Kept-if (identity_eq y x) _ _ same same
  attach-Evolves _ _ c x r h = same

  pub upgrade-Evolves :
      (a : Text) (i x : ProcessIdentity) → Kept (upgrade_attached_exact json io a i x e)
  unfolding upgrade_attached_exact
  upgrade-Evolves a i x =
      after_lift Kept (validate_attempt_id a) _ e (λ x. same)
        λ _ _.
          after_lift Kept (validate_identity i) _ e (λ x. same)
            λ _ _.
              after_lift Kept (validate_identity x) _ e (λ x. same)
                λ _ _.
                  after_lock Kept json io _ e (λ x. same)
                    (after_read Kept json io (upgrade_by json io a i x) e (λ x. same) (λ _. same)
                      (λ c r.
                        Kept-if (is_current c a i) _ _
                          (attach-Evolves c.phase c.extension c x r refl) same))

  fence_phase-Evolves :
      (ph : PlatformVpnOwnerPhase) (o : Option ProcessIdentity) (c : PlatformVpnOwnerJournal)
      → Reads json e c
      → c.phase ≡ ph
      → Kept (fence_phase json io ph o c e)
  fence_phase-Evolves pending none c r h =
      after_write Kept json io _ _ e (λ x. same) (λ v x. fenced c r h) (λ v. fenced c r h)
  fence_phase-Evolves stopping none c r h = same
  fence_phase-Evolves attached (some y) c r h = same
  fence_phase-Evolves _ _ c r h = same

  pub fence-Evolves :
      (a : Text) (i : ProcessIdentity) → Kept (fence_pending_stop_exact json io a i e)
  unfolding fence_pending_stop_exact
  fence-Evolves a i =
      after_lift Kept (validate_attempt_id a) _ e (λ x. same)
        λ _ _.
          after_lift Kept (validate_identity i) _ e (λ x. same)
            λ _ _.
              after_lock Kept json io _ e (λ x. same)
                (after_read Kept json io (fence_by json io a i) e (λ x. same) (λ _. same)
                  (λ c r.
                    Kept-if (is_current c a i) _ _
                      (fence_phase-Evolves c.phase c.extension c r refl) same))

  rebind_from-Evolves :
      (o : Option ProcessIdentity) (c : PlatformVpnOwnerJournal) (x y : ProcessIdentity)
      → Reads json e c
      → c.phase ≡ attached
      → Kept (rebind_from json io o c x y e)
  rebind_from-Evolves none c x y r h = same
  rebind_from-Evolves (some z) c x y r h =
      Kept-if (identity_eq z x) _ _
        (Kept-if (identity_eq z y) _ _ same
          (after_write_end Kept json io _ e (λ x. same) (λ v r'. rebound c y r h)))
        (Kept-if (identity_eq z y) _ _ same same)

  pub rebind-Evolves :
      (a : Text) (i x y : ProcessIdentity) → Kept (rebind_attached_exact json io a i x y e)
  unfolding rebind_attached_exact
  rebind-Evolves a i x y =
      after_lift Kept (validate_attempt_id a) _ e (λ x. same)
        λ _ _.
          after_lift Kept (validate_identity i) _ e (λ x. same)
            λ _ _.
              after_lift Kept (validate_identity x) _ e (λ x. same)
                λ _ _.
                  after_lift Kept (validate_identity y) _ e (λ x. same)
                    λ _ _.
                      after_lock Kept json io _ e (λ x. same)
                        (after_read Kept json io (rebind_by json io a i x y) e (λ x. same)
                          (λ _. same) rebinds)
    where
      rebinds :
          (c : PlatformVpnOwnerJournal)
          → Reads json e c
          → Kept (rebind_by json io a i x y (JournalRead.present c) e)
      rebinds c r = elim (Bool-cases (is_current c a i && phase_eq c.phase attached)) [
        | inl t ↦ rw t (
            rebind_from-Evolves c.extension c x y r (
              phase_eq→eq c.phase attached
                (both_true (is_current c a i) (phase_eq c.phase attached) t).1))
        | inr t ↦ rw t same
      ]

  delete_if-Evolves :
      (b : Bool) (c : PlatformVpnOwnerJournal) → Reads json e c → Kept (delete_if json io b e)
  delete_if-Evolves b c r =
      Kept-if b _ _ (after_remove Kept json io _ e (λ x. same) (λ x. removed c r) (removed c r))
        same

  pub delete-Evolves : (a : Text) (o : Option ProcessIdentity) → Kept (delete_exact json io a o e)
  unfolding delete_exact
  delete-Evolves a o =
      after_lift Kept (validate_attempt_id a) _ e (λ x. same)
        λ _ _.
          after_lift Kept (validate_expected o) _ e (λ x. same)
            λ _ _.
              after_lock Kept json io _ e (λ x. same)
                (after_read Kept json io (delete_by json io a o) e (λ x. same) (λ _. same)
                  (λ c r.
                    delete_if-Evolves (text_eq c.attempt_id a && extension_eq c.extension o) c r))

  pub delete_pending-Evolves : (a : Text) → Kept (delete_pending_exact json io a e)
  unfolding delete_pending_exact
  delete_pending-Evolves a =
      after_lift Kept (validate_attempt_id a) _ e (λ x. same)
        λ _ _.
          after_lock Kept json io _ e (λ x. same)
            (after_read Kept json io (delete_pending_by json io a) e (λ x. same) (λ _. same)
              (λ c r.
                delete_if-Evolves
                  (text_eq c.attempt_id a && phase_eq c.phase pending && is_none c.extension) c r))
