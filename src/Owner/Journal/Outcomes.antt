-- ===== src/Owner/Journal/Outcomes.antt =====
-- What the operations on the owner journal promise to their callers.
use h_openconnect.Base.{◌≡◌, refl, sym, ap, ◌∙◌, ◌⊎◌, inl, inr, Option, Text}
use h_openconnect.Owner.Record.{ProcessIdentity, stopping, PlatformVpnOwnerJournal, JournalRead, ok}
use h_openconnect.Owner.Storage.{Entry, Io, Json, decoded}
use h_openconnect.Owner.Journal.{
  create_pending_exact, upgrade_attached_exact, fence_pending_stop_exact, rebind_attached_exact,
  delete_exact, delete_pending_exact,
}
use h_openconnect.Owner.Journal.Rules.{Reads}
use h_openconnect.Owner.Journal.Evolution.{
  Evolves, create-Evolves, upgrade-Evolves, fence-Evolves, rebind-Evolves, delete-Evolves,
  delete_pending-Evolves, unchanged, created, attaches, fenced, rebound, removed,
}

-- The operations with their arguments.
pub data Operation : Type 0 where
  creates : PlatformVpnOwnerJournal → Operation
  upgrades : Text → ProcessIdentity → ProcessIdentity → Operation
  fences : Text → ProcessIdentity → Operation
  rebinds : Text → ProcessIdentity → ProcessIdentity → ProcessIdentity → Operation
  deletes : Text → Option ProcessIdentity → Operation
  deletes_pending : Text → Operation

-- The file after an operation.
abbrev pub file_after : Json → Io → Operation → Entry → Entry
file_after json io (creates j) e = (create_pending_exact json io j e).1
file_after json io (upgrades a i x) e = (upgrade_attached_exact json io a i x e).1
file_after json io (fences a i) e = (fence_pending_stop_exact json io a i e).1
file_after json io (rebinds a i x y) e = (rebind_attached_exact json io a i x y e).1
file_after json io (deletes a o) e = (delete_exact json io a o e).1
file_after json io (deletes_pending a) e = (delete_pending_exact json io a e).1

-- Whichever calls of the operating system fail, an operation leaves the file as it was, or moves the
-- record one step along its life.
pub file_after-Evolves :
    (json : Json) (io : Io) (op : Operation) (e : Entry) → Evolves json e (file_after json io op e)
file_after-Evolves json io (creates j) e = create-Evolves json io e j
file_after-Evolves json io (upgrades a i x) e = upgrade-Evolves json io e a i x
file_after-Evolves json io (fences a i) e = fence-Evolves json io e a i
file_after-Evolves json io (rebinds a i x y) e = rebind-Evolves json io e a i x y
file_after-Evolves json io (deletes a o) e = delete-Evolves json io e a o
file_after-Evolves json io (deletes_pending a) e = delete_pending-Evolves json io e a

pub Reads-unique :
    (json : Json) (e : Entry) (c d : PlatformVpnOwnerJournal)
    → Reads json e c
    → Reads json e d
    → c ≡ d
Reads-unique json e c d (bs, p, q) (bs', p', q') =
    let s : bs ≡ bs' = file_injective bs bs' (sym p ∙ p') in
    present_injective c d (sym q ∙ (ap (λ b. decoded json (json.decode b)) s ∙ q'))
  where
    file_injective : (b b' : _) → Entry.file b ≡ Entry.file b' → b ≡ b'
    file_injective b b' h = cc

    present_injective :
        (c d : PlatformVpnOwnerJournal)
        → ok (JournalRead.present c) ≡ ok (JournalRead.present d)
        → c ≡ d
    present_injective c d h = cc

Reads-absent :
    (json : Json) (e : Entry) (c : PlatformVpnOwnerJournal) → e ≡ Entry.absent → ¬ Reads json e c
Reads-absent json e c h (bs, p, q) = cc

Evolves-stopping :
    {json : Json} {e e' : Entry}
    → Evolves json e e'
    → (c : PlatformVpnOwnerJournal) → Reads json e c
    → c.phase ≡ stopping
    → (e' ≡ e) ⊎ (e' ≡ Entry.absent)
Evolves-stopping (unchanged e) c r s = inl refl
Evolves-stopping {json} {e} (created j a p n) c r s = absurd (Reads-absent json e c a r)
Evolves-stopping {json} {e} (attaches d x r' p) c r s = let u = Reads-unique json e c d r r' in cc
Evolves-stopping {json} {e} (fenced d r' p) c r s = let u = Reads-unique json e c d r r' in cc
Evolves-stopping {json} {e} (rebound d x r' p) c r s = let u = Reads-unique json e c d r r' in cc
Evolves-stopping (removed d r') c r s = inr refl

-- A fenced record cannot be attached or changed by any operation: it stays, or is removed.
pub stopping_is_final :
    (json : Json) (io : Io) (op : Operation) (e : Entry) (c : PlatformVpnOwnerJournal)
    → Reads json e c
    → c.phase ≡ stopping
    → (file_after json io op e ≡ e) ⊎ (file_after json io op e ≡ Entry.absent)
stopping_is_final json io op e c r s = Evolves-stopping (file_after-Evolves json io op e) c r s
