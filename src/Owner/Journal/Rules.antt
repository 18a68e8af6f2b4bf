-- ===== src/Owner/Journal/Rules.antt =====
-- Rules for the chains of checks, locking and reading that every journal operation begins with.
use mathlib.Core.Path.{subst}
use h_openconnect.Base.{
  ◌≡◌, inl, inr, refl, sym, Bool, Option, none, some, if◌then◌else◌, Bool-cases, List, ℕ, arith,
}
use h_openconnect.Owner.Record.{
  PlatformVpnOwnerJournal, JournalRead, StoredPlatformVpnOwnerJournal, OwnerError, Result, ok, err,
  to_stored, validate_record,
}
use h_openconnect.Owner.Storage.{
  Entry, Io, Json, Action, continue, ◌>>=◌, lift, lock_result, lock_journal, decoded, read_entry,
  read_unlocked, ReplaceOutcome, replace_file, write_unlocked, RemoveOutcome, remove_by,
  remove_file,
}

-- The file has a record that decodes and validates.
abbrev pub Reads : Json → Entry → PlatformVpnOwnerJournal → Type 0
Reads json e c =
    (bytes : List ℕ) × (e ≡ Entry.file bytes)
    × (decoded json (json.decode bytes) ≡ ok (JournalRead.present c))

module _ {A B : Type 0} (Q : Result B × Entry → Type 0) where
  -- A step that leaves the file alone: the rest runs on its result, or the chain ends in its error.
  pub after_lift :
      (r : Result A) (f : A → Action B) (e : Entry)
      → ((x : OwnerError) → Q (err x, e))
      → ((a : A) → r ≡ ok a → Q (f a e))
      → Q ((lift r >>= f) e)
  after_lift (ok a) f e bad good = good a refl
  after_lift (err x) f e bad good = bad x

module _ (json : Json) where
  decoded-ne-missing :
      (o : Option StoredPlatformVpnOwnerJournal) → ¬ (decoded json o ≡ ok JournalRead.missing)
  decoded-ne-missing none h = cc
  decoded-ne-missing (some s) h = ground arith

  -- What a read that succeeds says of the file.
  Reads-missing :
      (io : Io) (e : Entry) → read_entry json io e ≡ ok JournalRead.missing → e ≡ Entry.absent
  Reads-missing io Entry.absent h = refl
  Reads-missing io Entry.not_file h = cc
  Reads-missing io (Entry.file bytes) h = ground (arith, decoded-ne-missing (json.decode bytes))

  pub Reads-present :
      (io : Io) (e : Entry) (c : PlatformVpnOwnerJournal)
      → read_entry json io e ≡ ok (JournalRead.present c)
      → Reads json e c
  Reads-present io Entry.absent c h = cc
  Reads-present io Entry.not_file c h = cc
  Reads-present io (Entry.file bytes) c h = (bytes, refl, ground arith)

module _ {B : Type 0} (Q : Result B × Entry → Type 0) (json : Json) (io : Io) where
  pub after_lock :
      (f : Unit {0} → Action B) (e : Entry)
      → ((x : OwnerError) → Q (err x, e))
      → Q (f tt e)
      → Q ((lock_journal io >>= f) e)
  unfolding lock_journal
  after_lock f e bad good = after_lift Q (lock_result io.lock) f e bad (λ t h. good)

  after_found :
      (r : Result JournalRead) (f : JournalRead → Action B) (e : Entry)
      → ((x : OwnerError) → Q (err x, e))
      → (r ≡ ok JournalRead.missing → Q (f JournalRead.missing e))
      → ((c : PlatformVpnOwnerJournal)
          → r ≡ ok (JournalRead.present c)
          → Q (f (JournalRead.present c) e))
      → Q (continue (r, e) f)
  after_found (err x) f e bad none_found found = bad x
  after_found (ok JournalRead.missing) f e bad none_found found = none_found refl
  after_found (ok (JournalRead.present c)) f e bad none_found found = found c refl

  pub after_read :
      (f : JournalRead → Action B) (e : Entry)
      → ((x : OwnerError) → Q (err x, e))
      → (e ≡ Entry.absent → Q (f JournalRead.missing e))
      → ((c : PlatformVpnOwnerJournal) → Reads json e c → Q (f (JournalRead.present c) e))
      → Q ((read_unlocked json io >>= f) e)
  unfolding read_unlocked
  after_read f e bad none_found found = elim (Bool-cases io.inspect_fails) [
    | inl t ↦
        subst
          (λ (b : Bool). Q (continue (if b then err OwnerError.io else read_entry json io e, e) f))
          (sym t) (bad OwnerError.io)
    | inr t ↦
        subst
          (λ (b : Bool). Q (continue (if b then err OwnerError.io else read_entry json io e, e) f))
          (sym t)
          (after_found (read_entry json io e) f e bad (λ h. none_found (Reads-missing json io e h))
            (λ c h. found c (Reads-present json io e c h)))
  ]

-- The file that a record is written as.
abbrev pub written : Json → PlatformVpnOwnerJournal → Entry
written json j = Entry.file (json.encode (to_stored j))

module _ {B : Type 0} (Q : Result B × Entry → Type 0) (json : Json) (io : Io) where
  after_replace :
      (o : ReplaceOutcome) (j : PlatformVpnOwnerJournal) (f : Unit {0} → Action B) (e : Entry)
      → ((x : OwnerError) → Q (err x, e))
      → ((x : OwnerError) → Q (err x, written json j))
      → Q (f tt (written json j))
      → Q ((replace_file json o (json.encode (to_stored j)) >>= f) e)
  after_replace ReplaceOutcome.replaced j f e bad late good = good
  after_replace ReplaceOutcome.not_replaced j f e bad late good = bad OwnerError.io
  after_replace ReplaceOutcome.replaced_unsynced j f e bad late good = late OwnerError.io

  -- A write is refused, fails, or replaces the file by a record that validates.
  pub after_write :
      (j : PlatformVpnOwnerJournal) (f : Unit {0} → Action B) (e : Entry)
      → ((x : OwnerError) → Q (err x, e))
      → (validate_record j ≡ ok tt → (x : OwnerError) → Q (err x, written json j))
      → (validate_record j ≡ ok tt → Q (f tt (written json j)))
      → Q ((write_unlocked json io j >>= f) e)
  unfolding write_unlocked
  after_write j f e bad late good =
      after_lift (λ out. Q (continue out f)) (validate_record j)
        (λ u. replace_file json io.replace (json.encode (to_stored j))) e bad
        (λ t h. after_replace io.replace j f e bad (late h) (good h))

  after_remove_by :
      (o : RemoveOutcome) (f : Unit {0} → Action B) (e : Entry)
      → ((x : OwnerError) → Q (err x, e))
      → ((x : OwnerError) → Q (err x, Entry.absent))
      → Q (f tt Entry.absent)
      → Q ((remove_by o >>= f) e)
  after_remove_by RemoveOutcome.removed f e bad late good = good
  after_remove_by RemoveOutcome.not_removed f e bad late good = bad OwnerError.io
  after_remove_by RemoveOutcome.removed_unsynced f e bad late good = late OwnerError.io

  pub after_remove :
      (f : Unit {0} → Action B) (e : Entry)
      → ((x : OwnerError) → Q (err x, e))
      → ((x : OwnerError) → Q (err x, Entry.absent))
      → Q (f tt Entry.absent)
      → Q ((remove_file io >>= f) e)
  unfolding remove_file
  after_remove f e bad late good = after_remove_by io.remove f e bad late good

module _ (Q : Result (Unit {0}) × Entry → Type 0) (json : Json) (io : Io) where
  after_replace_end :
      (o : ReplaceOutcome) (j : PlatformVpnOwnerJournal) (e : Entry)
      → ((x : OwnerError) → Q (err x, e))
      → ((r : Result (Unit {0})) → Q (r, written json j))
      → Q (replace_file json o (json.encode (to_stored j)) e)
  after_replace_end ReplaceOutcome.replaced j e bad good = good (ok tt)
  after_replace_end ReplaceOutcome.not_replaced j e bad good = bad OwnerError.io
  after_replace_end ReplaceOutcome.replaced_unsynced j e bad good = good (err OwnerError.io)

  -- The write as the last step of a chain.
  pub after_write_end :
      (j : PlatformVpnOwnerJournal) (e : Entry)
      → ((x : OwnerError) → Q (err x, e))
      → (validate_record j ≡ ok tt → (r : Result (Unit {0})) → Q (r, written json j))
      → Q (write_unlocked json io j e)
  unfolding write_unlocked
  after_write_end j e bad good =
      after_lift Q (validate_record j)
        (λ u. replace_file json io.replace (json.encode (to_stored j))) e bad
        (λ t h. after_replace_end io.replace j e bad (good h))
