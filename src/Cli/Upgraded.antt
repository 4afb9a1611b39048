-- ===== src/Cli/Upgraded.antt =====
-- The check of an anchor that the poller has confirmed.
use nexuscone.Prelude.{ℕ, ◌+◌, ◌≡◌, refl, sym, ◌∙◌, ap, Option, some, ==_refl, [], ◌∷◌, ◌++◌}
use nexuscone.Text.{Bytes}
use nexuscone.Text.Hex.{from_hex}
use nexuscone.Time.{DateTime}
use nexuscone.Time.RoundTrip.{IsReadable}
use nexuscone.Schedule.{AnchorSchedule}
use nexuscone.Exec.{Result, ok}
use nexuscone.Store.{Database, Ledger}
use nexuscone.Ots.{Timestamp, bitcoin, message, Ots}
use nexuscone.Ots.Laws.{IsAttested, OtsLaws}
use nexuscone.Anchors.{AnchorRecord, Confirmation, get_anchor, confirm_anchor}
use nexuscone.Anchors.Confirm.{confirmed, get_anchor-confirm_anchor}
use nexuscone.Poller.{Mempool, upgraded, upgraded_proof, upgrade_one}
use nexuscone.Poller.Tree.{first_bitcoin_attestation}
use nexuscone.Poller.Frame.{opened}
use nexuscone.Poller.Upgrade.{
  first_bitcoin_attestation-IsAttested, IsAttested-first_bitcoin_attestation,
  upgraded_proof-IsUpgrade,
}
use nexuscone.Poller.Outcomes.{confirmation_of, upgrade_one-WasConfirmed}
use nexuscone.Cli.{AnchorTally, add_proof, check_proof, check_anchor, anchor_verified}

-- Every attestation of a Bitcoin block names the same height.
abbrev pub HasOneBlock : Timestamp → Type 0
HasOneBlock t =
    (m n : Bytes) (h j : ℕ) → IsAttested (m, bitcoin h) t → IsAttested (n, bitcoin j) t → h ≡ j

-- A stored proof of a block of the stored height is accepted.
check_proof-confirmed :
    (ots : Ots) (laws : OtsLaws ots) (a : AnchorRecord) (c : Confirmation) (t : Timestamp)
    → from_hex a.chain_head_hash ≡ some (message t)
    → ots.serialize t ≡ some c.upgraded_proof_blob
    → first_bitcoin_attestation ots t ≡ some c.bitcoin_block_height
    → HasOneBlock t
    → check_proof ots (confirmed c a) c.upgraded_proof_blob ≡ ok tt
unfolding check_proof
check_proof-confirmed ots laws a c t head_bytes written block one =
    let (u, read, same) = laws.read_back t c.upgraded_proof_blob written in
    let (m, there) = first_bitcoin_attestation-IsAttested ots laws t c.bitcoin_block_height block in
    let (k, found) =
      IsAttested-first_bitcoin_attestation ots laws u m c.bitcoin_block_height
        ((same (m, bitcoin c.bitcoin_block_height)).1 there) in
    let (n, here) = first_bitcoin_attestation-IsAttested ots laws u k found in
    let equal = one n m k c.bitcoin_block_height ((same (n, bitcoin k)).0 here) there in
    rw (head_bytes, read, found) rw (sym equal) rw (==_refl k) refl

-- Where the poller upgrades a stored anchor at a time in the years 1000 to 9999, and the attestations
-- of the upgraded proof name one Bitcoin block, `get_anchor` reads the anchor afterwards, and the
-- check that `--check-anchors` makes of an anchor, applied to it, counts one more confirmed anchor
-- and adds one line, with the height that was stored. Which anchors the command lists is not said.
pub check_anchor-upgraded :
    (ots : Ots) (laws : OtsLaws ots) (web : Mempool) (k : ℕ) (now : DateTime) (a : AnchorRecord)
    (s : Option AnchorSchedule) (db : Database) (l' : Ledger) (tally : AnchorTally)
    → upgrade_one ots web k now a (opened s db) ≡ (ok upgraded, l')
    → (get_anchor a.anchor_id db).0 ≡ ok a
    → IsReadable now
    → ((t : Timestamp) → upgraded_proof ots k a ≡ ok (some t) → HasOneBlock t)
    → (b : AnchorRecord) × (db' : Database) × (height : ℕ) × (l' ≡ opened s db')
      × (get_anchor a.anchor_id db' ≡ (ok b, db'))
      × (b.bitcoin_block_height ≡ some height)
      × (check_anchor ots b tally
          ≡ ok (record tally {
            confirmed = tally.confirmed + 1;
            lines = tally.lines ++ anchor_verified a.chain_head_hash (some height) ∷ [];
          }))
unfolding check_anchor
check_anchor-upgraded ots laws web k now a s db l' tally e read valid one =
    let w = upgrade_one-WasConfirmed ots web k now a s db l' e in
    let up = upgraded_proof-IsUpgrade ots laws k a w.proof w.upgraded_to in
    let c = confirmation_of web k now w.blob w.height in
    let about : up.msg ≡ message w.proof =
      sym (up.upgrades.0 ∙ laws.deserialize_message up.blob up.msg up.before up.read) in
    let passes =
      check_proof-confirmed ots laws a c w.proof (up.head_bytes ∙ ap (λ m. some m) about)
        w.serialized w.block (one w.proof w.upgraded_to) in
    (
      confirmed c a,
      (confirm_anchor a.anchor_id c db).1,
      w.height,
      w.after,
      (get_anchor-confirm_anchor a.anchor_id c a db valid read).1,
      refl,
      ap (λ (r : Result (Unit {0})). ok (add_proof (confirmed c a) r tally)) passes,
    )
