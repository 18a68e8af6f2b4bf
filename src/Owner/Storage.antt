-- ===== src/Owner/Storage.antt =====
-- The journal file of crates/hopenconnect_core/src/platform_owner.rs: reading, replacing and removing
-- it under its lock. `Io` says which calls of the operating system fail during one operation; the
-- record's text is third-party JSON, a parameter with its round trip.
use h_openconnect.Base.{ℕ, ◌*◌, ltb, Bool, List, if◌then◌else◌, length, Option, none, some, ◌≡◌}
use h_openconnect.Owner.Record.{
  PlatformVpnOwnerJournal, JournalRead, StoredPlatformVpnOwnerJournal, OwnerError, Result, ok, err,
  validate_record, to_stored, from_stored,
}

pub data Entry : Type 0 where
  absent not_file : Entry
  file : List ℕ → Entry

pub data LockOutcome : Type 0 where
  acquired held_elsewhere lock_failed : LockOutcome

-- A replacement fails before the rename, or only when the directory is synced after it.
pub data ReplaceOutcome : Type 0 where
  replaced not_replaced replaced_unsynced : ReplaceOutcome

pub data RemoveOutcome : Type 0 where
  removed not_removed removed_unsynced : RemoveOutcome

pub record Io : Type 0 where
  pub lock : LockOutcome
  pub inspect_fails : Bool
  pub read_fails : Bool
  pub replace : ReplaceOutcome
  pub remove : RemoveOutcome

pub record Json : Type 0 where
  pub encode : StoredPlatformVpnOwnerJournal → List ℕ
  pub decode : List ℕ → Option StoredPlatformVpnOwnerJournal
  pub decode-encode : (s : StoredPlatformVpnOwnerJournal) → decode (encode s) ≡ some s

abbrev pub max_journal_bytes : ℕ
max_journal_bytes = 16 * 1024

-- A method over the journal file: a result, and the file afterwards.
abbrev pub Action : Type 0 → Type 0
Action A = Entry → Result A × Entry

abbrev pub continue : {A B : Type 0} → Result A × Entry → (A → Action B) → Result B × Entry
continue (ok a, e) f = f a e
continue (err x, e) f = (err x, e)

infixl 5 ◌>>=◌ ◌>>◌
abbrev pub ◌>>=◌ : {A B : Type 0} → Action A → (A → Action B) → Action B
◌>>=◌ m f e = continue (m e) f

abbrev pub ◌>>◌ : {B : Type 0} → Action (Unit {0}) → Action B → Action B
m >> k = m >>= λ _. k

abbrev pub lift : {A : Type 0} → Result A → Action A
lift r e = (r, e)

abbrev pub fail : {A : Type 0} → OwnerError → Action A
fail x e = (err x, e)

abbrev pub return : {A : Type 0} → A → Action A
return a e = (ok a, e)

abbrev pub lock_result : LockOutcome → Result (Unit {0})
lock_result LockOutcome.acquired = ok tt
lock_result LockOutcome.held_elsewhere = err OwnerError.busy
lock_result LockOutcome.lock_failed = err OwnerError.io

unfoldable pub lock_journal : Io → Action (Unit {0})
lock_journal io e = (lock_result io.lock, e)

module _ (json : Json) where
  abbrev pub decoded : Option StoredPlatformVpnOwnerJournal → Result JournalRead
  decoded none = err OwnerError.malformed
  decoded (some s) = elim (from_stored s) [ ok r ↦ ok (JournalRead.present r) | err x ↦ err x ]

  abbrev pub read_entry : Io → Entry → Result JournalRead
  read_entry io Entry.absent = ok JournalRead.missing
  read_entry io Entry.not_file = err OwnerError.not_regular
  read_entry io (Entry.file bytes) =
      if ltb max_journal_bytes (length bytes)
      then err OwnerError.too_large
      else if io.read_fails
      then err OwnerError.io
      else decoded (json.decode bytes)

  unfoldable pub read_unlocked : Io → Action JournalRead
  read_unlocked io e = (if io.inspect_fails then err OwnerError.io else read_entry io e, e)

  abbrev pub replace_file : ReplaceOutcome → List ℕ → Action (Unit {0})
  replace_file ReplaceOutcome.replaced bytes e = (ok tt, Entry.file bytes)
  replace_file ReplaceOutcome.not_replaced bytes e = (err OwnerError.io, e)
  replace_file ReplaceOutcome.replaced_unsynced bytes e = (err OwnerError.io, Entry.file bytes)

  unfoldable pub write_unlocked : Io → PlatformVpnOwnerJournal → Action (Unit {0})
  write_unlocked io j = do
    lift (validate_record j)
    replace_file io.replace (json.encode (to_stored j))

abbrev pub remove_by : RemoveOutcome → Action (Unit {0})
remove_by RemoveOutcome.removed e = (ok tt, Entry.absent)
remove_by RemoveOutcome.not_removed e = (err OwnerError.io, e)
remove_by RemoveOutcome.removed_unsynced e = (err OwnerError.io, Entry.absent)

unfoldable pub remove_file : Io → Action (Unit {0})
remove_file io = remove_by io.remove
