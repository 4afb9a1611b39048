-- ===== src/Anchors/Safety.antt =====
-- An anchoring that raises.
use nexuscone.Prelude.{
  ◌≡◌, refl, sym, ◌∙◌, ap, inl, inr, Bool, true, false, Option, none, some, Bool-cases,
}
use nexuscone.Time.{DateTime}
use nexuscone.Schedule.{AnchorSchedule}
use nexuscone.Exec.{Error, Result, ok, err}
use nexuscone.Exec.Action.{Action, pure, lift, after_result, ◌>>=◌}
use nexuscone.Store.{Database, Ledger, Connection, closed, open_on}
use nexuscone.Rfc3161.{Tsa, TsaResponse, submit_tsa_track}
use nexuscone.Entries.{LedgerEntry}
use nexuscone.Entries.Query.{get_latest_entry}
use nexuscone.Ledger.{method, run_on}
use nexuscone.Ots.{Ots}
use nexuscone.Anchors.Submit.{
  OtsResult, submit_ots_track, require_one, violates, insert_anchor, anchor_head, anchor_if_any,
  anchor_locked, effective, anchor_with, anchor,
}

-- An action that writes nothing where it raises.
unfoldable Safe : {A : Type 0} → Action Database A → Type 0
Safe m = (db : Database) (e : Error) → (m db).0 ≡ err e → (m db).1 ≡ db

module _ {A B : Type 0} where
  lift-Safe :
      (r : Result A) (f : A → Action Database B) → ((a : A) → Safe (f a)) → Safe (lift r >>= f)
  unfolding Safe
  lift-Safe (ok a) f s db e h = s a db e h
  lift-Safe (err x) f s db e h = refl

  after_result-Safe :
      (r : Result A) (f : A → Action Database B) (db : Database) (e : Error)
      → ((a : A) → Safe (f a))
      → (after_result r f db).0 ≡ err e
      → (after_result r f db).1 ≡ db
  unfolding Safe
  after_result-Safe (ok a) f db e s h = s a db e h
  after_result-Safe (err x) f db e s h = refl

  keeps-Safe :
      (m : Action Database A) (f : A → Action Database B)
      → ((db : Database) → (m db).1 ≡ db)
      → ((a : A) → Safe (f a))
      → Safe (m >>= f)
  unfolding Safe
  keeps-Safe m f keeps s db e h = after_result-Safe (m db).0 f (m db).1 e s h ∙ keeps db

  then_value :
      (g : A → B) (r : Result A) (db' db : Database) (e : Error)
      → (r ≡ err e → db' ≡ db)
      → (after_result r (λ a. pure (g a)) db').0 ≡ err e
      → (after_result r (λ a. pure (g a)) db').1 ≡ db
  then_value g (ok a) db' db e same h = cc
  then_value g (err x) db' db e same h = same (cc h)

  then_value-Safe : (m : Action Database A) (g : A → B) → Safe m → Safe (m >>= λ a. pure (g a))
  unfolding Safe
  then_value-Safe m g s db e h = then_value g (m db).0 (m db).1 db e (s db e) h

abbrev is_ok : {A : Type 0} → Result A → Bool
is_ok (ok a) = true
is_ok (err e) = false

insert_anchor-returns :
    (now : DateTime) (entry : LedgerEntry) (proofs : OtsResult) (response : Option TsaResponse)
    (db : Database)
    → violates db entry.entry_id proofs.proof ≡ false
    → is_ok (insert_anchor now entry proofs response db).0 ≡ true
unfolding insert_anchor
insert_anchor-returns now entry proofs response db there = rw there

pure-Safe : {A : Type 0} (a : A) → Safe {A = A} (pure a)
unfolding Safe
pure-Safe a db e h = refl

insert_anchor-Safe :
    (now : DateTime) (entry : LedgerEntry) (proofs : OtsResult) (response : Option TsaResponse)
    → Safe (insert_anchor now entry proofs response)
unfolding Safe insert_anchor
insert_anchor-Safe now entry proofs response db e h =
    elim (Bool-cases (violates db entry.entry_id proofs.proof)) [
      | inr there ↦ cc (ap is_ok h, insert_anchor-returns now entry proofs response db there)
      | inl missing ↦ rw missing
    ]

anchor_head-Safe :
    (ots : Ots) (tsa : Tsa) (now : DateTime) (schedule : AnchorSchedule) (entry : LedgerEntry)
    → Safe (anchor_head ots tsa now schedule entry)
unfolding anchor_head
anchor_head-Safe ots tsa now schedule entry = lift-Safe _ _ (λ digest.
    lift-Safe (submit_ots_track ots digest schedule.calendar_servers) _ (λ proofs.
      lift-Safe (submit_tsa_track tsa 0 digest none schedule.tsa_urls) _ (λ track.
        lift-Safe (require_one proofs track) _ (λ _. insert_anchor-Safe now entry proofs track.0))))

anchor_if_any-Safe :
    (ots : Ots) (tsa : Tsa) (now : DateTime) (schedule : AnchorSchedule)
    (latest : Option LedgerEntry)
    → Safe (anchor_if_any ots tsa now schedule latest)
anchor_if_any-Safe ots tsa now schedule none = pure-Safe none
anchor_if_any-Safe ots tsa now schedule (some latest) =
    then_value-Safe (anchor_head ots tsa now schedule latest) some
      (anchor_head-Safe ots tsa now schedule latest)

get_latest_entry-keeps : (db : Database) → (get_latest_entry db).1 ≡ db
unfolding get_latest_entry
get_latest_entry-keeps db = refl

anchor_locked-Safe :
    (ots : Ots) (tsa : Tsa) (now : DateTime) (schedule : AnchorSchedule)
    → Safe (anchor_locked ots tsa now schedule)
unfolding anchor_locked
anchor_locked-Safe ots tsa now schedule =
    keeps-Safe get_latest_entry _ get_latest_entry-keeps (anchor_if_any-Safe ots tsa now schedule)

run_on-Safe :
    {A : Type 0} (m : Action Database A) (l : Ledger) (c : Connection) (e : Error)
    → Safe m
    → l.connection ≡ c
    → (run_on l c m).0 ≡ err e
    → (run_on l c m).1 ≡ l
unfolding Safe
run_on-Safe m l (closed f) e s same h = refl
run_on-Safe m l (open_on db) e s same h =
    rw (s db e h) (ap (λ c. record l { connection = c }) (sym same))

method-Safe :
    {A : Type 0} (m : Action Database A) (l : Ledger) (e : Error)
    → Safe m
    → (method m l).0 ≡ err e
    → (method m l).1 ≡ l
unfolding method
method-Safe m l e s h = run_on-Safe m l l.connection e s refl h

anchor_with-err :
    (ots : Ots) (tsa : Tsa) (now : DateTime) (schedule : Option AnchorSchedule) (l : Ledger)
    (e : Error)
    → (anchor_with ots tsa now schedule l).0 ≡ err e
    → (anchor_with ots tsa now schedule l).1 ≡ l
anchor_with-err ots tsa now none l e h = refl
anchor_with-err ots tsa now (some s) l e h = elim (Bool-cases s.enabled) [
  | inl on ↦
      let run : anchor_with ots tsa now (some s) l ≡ method (anchor_locked ots tsa now s) l =
        rw on in
      ap (λ p. p.1) run
      ∙ method-Safe _ l e (anchor_locked-Safe ots tsa now s) (ap (λ p. p.0) (sym run) ∙ h)
  | inr off ↦ rw off
]

-- Where `Ledger.anchor` raises, for whatever reason, the ledger is as it was.
pub anchor-err :
    (ots : Ots) (tsa : Tsa) (now : DateTime) (schedule : Option AnchorSchedule) (l : Ledger)
    (e : Error)
    → (anchor ots tsa now schedule l).0 ≡ err e
    → (anchor ots tsa now schedule l).1 ≡ l
unfolding anchor
anchor-err ots tsa now schedule l e h = anchor_with-err ots tsa now (effective schedule l) l e h
