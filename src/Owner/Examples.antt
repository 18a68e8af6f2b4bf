-- ===== src/Owner/Examples.antt =====
-- The theorems on the owner journal at a concrete codec: fields one after the other, a text by its
-- code points plus one and a closing zero.
use h_openconnect.Base.{
  ℕ, zero, suc, ◌≡◌, ◌⊎◌, refl, false, Option, none, some, List, [], ◌∷◌, Text, codes,
}
use h_openconnect.Base.{trim, text_eq}
use h_openconnect.Base.Optional.{◌>>=◌}
use h_openconnect.Owner.Record.{
  validate_attempt_id, validate_identity, validate_record, to_stored, from_stored, identity_eq,
  ProcessIdentity, PlatformVpnOwnerPhase, pending, attached, stopping, PlatformVpnOwnerJournal,
  StoredPlatformVpnOwnerJournal,
}
use h_openconnect.Owner.Storage.{
  remove_file, lock_journal, read_unlocked, write_unlocked, Entry, Io, Json, LockOutcome,
  ReplaceOutcome, RemoveOutcome,
}
use h_openconnect.Owner.Journal.{
  create_pending_exact, rebind_attached_exact, delete_exact, fence_pending_stop_exact,
  upgrade_attached_exact, delete_pending_exact,
}
use h_openconnect.Owner.Journal.Rules.{Reads, written}
use h_openconnect.Owner.Journal.Evolution.{Evolves}
use h_openconnect.Owner.Journal.Outcomes.{
  fences, upgrades, file_after, file_after-Evolves, stopping_is_final,
}
use h_openconnect.Owner.Journal.Answers.{
  create_confirms, rebind_confirms, delete_confirms, Removed, Removed,
}
use h_openconnect.Owner.Journal.Confirms.{
  Owned, written-Reads, fence_confirms, upgrade_confirms, delete_pending_keeps,
}

unfoldable pub put_text : Text → List ℕ → List ℕ
put_text [] rest = 0 ∷ rest
put_text (c ∷ cs) rest = suc c ∷ put_text cs rest

unfoldable pub take_text : List ℕ → Option (Text × List ℕ)
take_text [] = none
take_text (zero ∷ rest) = some ([], rest)
take_text (suc c ∷ rest) = elim (take_text rest) [
  | none ↦ none
  | some (t, tail) ↦ some (c ∷ t, tail)
]

take_text-put_text : (t : Text) (rest : List ℕ) → take_text (put_text t rest) ≡ some (t, rest)
unfolding take_text put_text
take_text-put_text [] rest = refl
take_text-put_text (c ∷ cs) rest = rw (take_text-put_text cs rest)

unfoldable pub put_identity : ProcessIdentity → List ℕ → List ℕ
put_identity p rest = put_text p.boot_id (p.pid ∷ p.start_time ∷ rest)

unfoldable pub extension_of : Option (ProcessIdentity × List ℕ) → Option ProcessIdentity
extension_of none = none
extension_of (some (p, tail)) = some p

abbrev pub identity_of : Text × List ℕ → Option (ProcessIdentity × List ℕ)
identity_of (b, p ∷ s ∷ rest) = some (record { boot_id = b; pid = p; start_time = s }, rest)
identity_of _ = none

unfoldable pub take_identity : List ℕ → Option (ProcessIdentity × List ℕ)
take_identity bs = take_text bs >>= identity_of

take_identity-put_identity :
    (p : ProcessIdentity) (rest : List ℕ) → take_identity (put_identity p rest) ≡ some (p, rest)
unfolding take_identity put_identity
take_identity-put_identity p rest = rw (take_text-put_text p.boot_id (p.pid ∷ p.start_time ∷ rest))

abbrev pub put_phase : PlatformVpnOwnerPhase → ℕ
put_phase pending = 0
put_phase attached = 1
put_phase stopping = 2

abbrev pub phase_of : ℕ → PlatformVpnOwnerPhase
phase_of zero = pending
phase_of (suc zero) = attached
phase_of (suc (suc n)) = stopping

phase_of-put_phase : (p : PlatformVpnOwnerPhase) → phase_of (put_phase p) ≡ p
phase_of-put_phase pending = refl
phase_of-put_phase attached = refl
phase_of-put_phase stopping = refl

unfoldable pub put_extension : Option ProcessIdentity → List ℕ
put_extension none = 0 ∷ []
put_extension (some p) = 1 ∷ put_identity p []

unfoldable pub take_extension : List ℕ → Option ProcessIdentity
take_extension (suc n ∷ rest) = extension_of (take_identity rest)
take_extension _ = none

take_extension-put_extension : (o : Option ProcessIdentity) → take_extension (put_extension o) ≡ o
unfolding take_extension put_extension extension_of
take_extension-put_extension none = refl
take_extension-put_extension (some p) = rw (take_identity-put_identity p [])

unfoldable pub encode : StoredPlatformVpnOwnerJournal → List ℕ
encode s =
    s.version
    ∷ put_phase s.phase
    ∷ put_text s.attempt_id (put_identity s.issuer (put_extension s.extension))

abbrev pub finish :
    ℕ → ℕ → Text → Option (ProcessIdentity × List ℕ) → Option StoredPlatformVpnOwnerJournal
finish v p t none = none
finish v p t (some (i, rest)) = some (record {
  version = v;
  attempt_id = t;
  issuer = i;
  extension = take_extension rest;
  phase = phase_of p;
})

unfoldable pub after_attempt : ℕ → ℕ → Option (Text × List ℕ) → Option StoredPlatformVpnOwnerJournal
after_attempt v p none = none
after_attempt v p (some (t, tail)) = finish v p t (take_identity tail)

unfoldable pub decode : List ℕ → Option StoredPlatformVpnOwnerJournal
decode (v ∷ p ∷ rest) = after_attempt v p (take_text rest)
decode _ = none

pub decode-encode : (s : StoredPlatformVpnOwnerJournal) → decode (encode s) ≡ some s
unfolding decode encode after_attempt
decode-encode s = rw (
  take_text-put_text s.attempt_id (put_identity s.issuer (put_extension s.extension)),
  take_identity-put_identity s.issuer (put_extension s.extension),
  take_extension-put_extension s.extension,
  phase_of-put_phase s.phase,
)

abbrev pub codec : Json
codec = record { encode = encode; decode = decode; decode-encode = decode-encode }

abbrev pub no_failure : Io
no_failure = record {
  lock = LockOutcome.acquired;
  inspect_fails = false;
  read_fails = false;
  replace = ReplaceOutcome.replaced;
  remove = RemoveOutcome.removed;
}

-- The directory cannot be synced after the rename.
abbrev unsynced : Io
unsynced = record no_failure { replace = ReplaceOutcome.replaced_unsynced }

abbrev pub app : ProcessIdentity
app = record { boot_id = codes "boot"; pid = 7; start_time = 100 }

abbrev worker : ProcessIdentity
worker = record { boot_id = codes "boot"; pid = 8; start_time = 120 }

abbrev dispatched : PlatformVpnOwnerJournal
dispatched = record { attempt_id = codes "a1"; issuer = app; extension = none; phase = pending }

abbrev fenced_record : PlatformVpnOwnerJournal
fenced_record = record dispatched { phase = stopping }

fenced-Reads : Reads codec (written codec fenced_record) fenced_record
unfolding validate_record trim
fenced-Reads = written-Reads codec fenced_record refl

file_after-Evolves_example :
    Evolves codec
      (written codec dispatched)
      (file_after codec unsynced (fences (codes "a1") app) (written codec dispatched))
file_after-Evolves_example =
    file_after-Evolves codec unsynced (fences (codes "a1") app) (written codec dispatched)

stopping_is_final_example :
    let after =
      file_after codec no_failure
        (upgrades (codes "a1") app worker)
        (written codec fenced_record) in
    (after ≡ written codec fenced_record) ⊎ (after ≡ Entry.absent)
stopping_is_final_example =
    stopping_is_final codec no_failure (upgrades (codes "a1") app worker)
      (written codec fenced_record) fenced_record fenced-Reads refl

fence_confirms_example :
    Owned codec
      (fence_pending_stop_exact codec no_failure (codes "a1") app (written codec dispatched)).1
      (codes "a1")
      app
      stopping
      none
unfolding fence_pending_stop_exact validate_attempt_id trim validate_identity lock_journal
    read_unlocked write_unlocked encode put_text to_stored put_identity put_extension decode
    after_attempt take_text take_identity take_extension extension_of from_stored validate_record
    text_eq identity_eq
fence_confirms_example =
    fence_confirms codec no_failure (written codec dispatched) (codes "a1") app refl

upgrade_confirms_example :
    Owned codec
      (upgrade_attached_exact codec no_failure (codes "a1") app worker (written codec dispatched)).1
      (codes "a1")
      app
      attached
      (some worker)
unfolding upgrade_attached_exact validate_attempt_id trim validate_identity lock_journal
    read_unlocked write_unlocked encode put_text to_stored put_identity put_extension decode
    after_attempt take_text take_identity take_extension extension_of from_stored validate_record
    text_eq identity_eq
upgrade_confirms_example =
    upgrade_confirms codec no_failure (written codec dispatched) (codes "a1") app worker refl

delete_pending_keeps_example :
    (delete_pending_exact codec no_failure (codes "a1") (written codec fenced_record)).1
    ≡ written codec fenced_record
delete_pending_keeps_example =
    delete_pending_keeps codec no_failure (written codec fenced_record) (codes "a1") fenced_record
      fenced-Reads (λ h. cc)

abbrev attached_record : PlatformVpnOwnerJournal
attached_record = record dispatched { phase = attached; extension = some worker }

-- The process that takes the place of the Extension after a crash.
abbrev restarted : ProcessIdentity
restarted = record worker { pid = 9 }

create_confirms_example :
    Owned codec
      (create_pending_exact codec no_failure dispatched Entry.absent).1
      (codes "a1")
      app
      pending
      none
unfolding create_pending_exact validate_record validate_attempt_id trim validate_identity
    lock_journal read_unlocked write_unlocked to_stored
create_confirms_example = create_confirms codec no_failure Entry.absent dispatched refl

rebind_confirms_example :
    Owned codec
      (rebind_attached_exact codec no_failure
        (codes "a1")
        app
        worker
        restarted
        (written codec attached_record)).1
      (codes "a1")
      app
      attached
      (some restarted)
unfolding rebind_attached_exact validate_attempt_id trim validate_identity lock_journal
    read_unlocked write_unlocked encode put_text to_stored put_identity put_extension decode
    after_attempt take_text take_identity take_extension extension_of from_stored validate_record
    text_eq identity_eq
rebind_confirms_example =
    rebind_confirms codec no_failure (written codec attached_record) (codes "a1") app worker
      restarted refl

delete_confirms_example :
    Removed codec no_failure
      (written codec fenced_record)
      (codes "a1")
      none
      (delete_exact codec no_failure (codes "a1") none (written codec fenced_record)).1
unfolding delete_exact validate_attempt_id trim validate_identity lock_journal read_unlocked
    remove_file encode put_text to_stored put_identity put_extension decode after_attempt take_text
    take_identity take_extension extension_of from_stored validate_record text_eq identity_eq
delete_confirms_example =
    delete_confirms codec no_failure (written codec fenced_record) (codes "a1") none refl
