-- ===== src/Tests/Upgrades.antt =====
-- The theorems on the poller and on the command-line program at concrete inputs.
use nexuscone.Prelude.{ℕ, ◌*◌, ◌≤◌, arith, ◌≡◌, refl, sym, ◌∙◌, ap, subst, none, some, [], ◌∷◌, ◌+◌}
use mathlib.Core.List.Memᴰ.{head, tail}
use nexuscone.Prelude.Int.{pos}
use nexuscone.Text.{Bytes, codes}
use nexuscone.Time.{DateTime, iso, in_range}
use nexuscone.Time.{days_in_month, is_leap, micros, ordinal, days_before_month}
use nexuscone.Time.RoundTrip.{from_iso-iso, IsReadable}
use nexuscone.Time.Order.{year_1000}
use nexuscone.Json.{arr, nil}
use nexuscone.Json.Parse.{loads, parse_value, parse_items, parse_scalar, skip_space}
use nexuscone.Text.{text_eq}
use nexuscone.Text.Hex.{from_hex, hex_value}
use nexuscone.Store.Query.{first_row, where_rows, limit_rows}
use nexuscone.Anchors.{row_to_anchor, list_of, is_pending}
use nexuscone.Poller.{upgrade_tree, confirm_upgraded, fetch_block_hash}
use nexuscone.Poller.Outcomes.{confirmation_of}
use nexuscone.Poller.Tree.{
  collect_pending, pending_at, merge_at_commitment, first_bitcoin, first_bitcoin_attestation,
}
use nexuscone.Tests.Calendar.{decode, encode, merged, write}
use nexuscone.Exec.{ok, map_result}
use nexuscone.Exec.Inversion.{ok-injective}
use nexuscone.Store.{AnchorRow, Database, Ledger}
use nexuscone.Ledger.{method}
use nexuscone.Ots.{Attestation, pending, bitcoin, Timestamp, node, leaf, attested}
use nexuscone.Ots.Laws.{IsAttested}
use nexuscone.Anchors.{
  AnchorRecord, Confirmation, get_anchor, confirm_anchor, list_unconfirmed_anchors,
}
use nexuscone.Anchors.Age.{HasTime, is_young, list_unconfirmed-is_young}
use nexuscone.Anchors.Confirm.{confirmed, get_anchor-confirm_anchor}
use nexuscone.Poller.{
  Mempool, Counters, upgraded, upgraded_proof, upgrade_one, upgrade_pending_anchors,
}
use nexuscone.Poller.Counts.{upgrade_pending-returns}
use nexuscone.Poller.Frame.{opened, Confirms, upgrade_pending-Confirms}
use nexuscone.Poller.Upgrade.{IsUpgrade, upgraded_proof-IsUpgrade}
use nexuscone.Cli.{anchor_verified, no_anchors, check_anchor}
use nexuscone.Cli.Upgraded.{HasOneBlock, check_anchor-upgraded}
use nexuscone.Tests.Base.{empty_db, noon}
use nexuscone.Tests.Calendar.{calendar, calendar_laws}

-- An anchor whose proof waits for the calendar.
abbrev pub waiting : AnchorRow
waiting = record {
  anchor_id = 1;
  chain_head_hash = codes "00";
  chain_head_entry_id = 1;
  ots_proof_blob = some (0 ∷ []);
  submitted_at = iso noon;
  calendar_servers = codes "[]";
  confirmed_at = none;
  bitcoin_block_height = none;
  bitcoin_block_hash = none;
  tst_blob = none;
  tsa_url = none;
  tsa_gen_time = none;
}

abbrev pub waiting_db : Database
waiting_db = record empty_db {
  anchors = record empty_db.anchors { sequence = 1; rows = waiting ∷ [] };
}

abbrev web : Mempool
web = record { urlopen = λ k url. none }

abbrev pub waiting_anchor : AnchorRecord
waiting_anchor = record {
  anchor_id = 1;
  chain_head_hash = codes "00";
  chain_head_entry_id = 1;
  submitted_at = noon;
  calendar_servers = [];
  ots_proof_blob = some (0 ∷ []);
  confirmed_at = none;
  bitcoin_block_height = none;
  bitcoin_block_hash = none;
  tst_blob = none;
  tsa_url = none;
  tsa_gen_time = none;
}

valid : IsReadable noon
unfolding in_range days_in_month is_leap
valid = (refl, omega arith)

no_calendars : loads (codes "[]") ≡ some (arr nil)
unfolding loads parse_value parse_items parse_scalar skip_space
no_calendars = refl

pub waiting_reads : row_to_anchor waiting ≡ ok waiting_anchor
unfolding row_to_anchor list_of
waiting_reads = rw (from_iso-iso noon valid, no_calendars) refl

stored : (get_anchor 1 waiting_db).0 ≡ ok waiting_anchor
unfolding get_anchor first_row
stored = waiting_reads

listed : (list_unconfirmed_anchors none noon (pos 500) waiting_db).0 ≡ ok (waiting_anchor ∷ [])
unfolding list_unconfirmed_anchors is_pending where_rows limit_rows map_result
listed = rw waiting_reads refl

abbrev l : Ledger
l = opened none waiting_db

clock : ℕ → DateTime
clock k = noon

listed_by_method :
    (method (list_unconfirmed_anchors none noon (pos 500)) l).0 ≡ ok (waiting_anchor ∷ [])
unfolding method
listed_by_method = listed

upgrade_pending-returns_example :
    (c : Counters) × ((upgrade_pending_anchors calendar web clock noon none l).0 ≡ ok c)
    × (c.attempted ≡ 1)
    × (c.upgraded + c.still_pending + c.failed ≡ 1)
upgrade_pending-returns_example =
    upgrade_pending-returns calendar web clock noon none l (waiting_anchor ∷ []) listed_by_method

upgrade_pending-Confirms_example :
    Confirms (1 ∷ []) none waiting_db (upgrade_pending_anchors calendar web clock noon none l).1
upgrade_pending-Confirms_example =
    upgrade_pending-Confirms calendar web clock noon none none waiting_db (waiting_anchor ∷ [])
      listed

-- The proof with the calendar's answer.
abbrev attested_proof : Timestamp
attested_proof = node (0 ∷ []) (pending [] ∷ bitcoin 800000 ∷ []) leaf

proof : upgraded_proof calendar 0 waiting_anchor ≡ ok (some attested_proof)
unfolding upgraded_proof upgrade_tree decode collect_pending pending_at merge_at_commitment merged
    from_hex hex_value text_eq
proof = refl

upgraded_proof-IsUpgrade_example : IsUpgrade calendar 0 waiting_anchor attested_proof
upgraded_proof-IsUpgrade_example =
    upgraded_proof-IsUpgrade calendar calendar_laws 0 waiting_anchor attested_proof proof

only_block : (m : Bytes) (h : ℕ) → IsAttested (m, bitcoin h) attested_proof → h ≡ 800000
unfolding attested
only_block m h (head e) =
    let never : bitcoin h ≡ pending [] = ap (λ (x : Bytes × Attestation). x.1) e in cc
only_block m h (tail (head e)) =
    let same : bitcoin h ≡ bitcoin 800000 = ap (λ (x : Bytes × Attestation). x.1) e in cc
only_block m h (tail (tail i)) = elim i [ ]

one_block : (t : Timestamp) → upgraded_proof calendar 0 waiting_anchor ≡ ok (some t) → HasOneBlock t
one_block t e =
    let same : some attested_proof ≡ some t = ok-injective _ _ (sym proof ∙ e) in
    let equal : attested_proof ≡ t = cc in
    subst HasOneBlock equal λ m n h j a b. only_block m h a ∙ sym (only_block n j b)

abbrev confirmation : Confirmation
confirmation = confirmation_of web 0 noon (0 ∷ 800001 ∷ []) 800000

abbrev after : Ledger
after = opened none (confirm_anchor 1 confirmation waiting_db).1

upgrade : upgrade_one calendar web 0 noon waiting_anchor l ≡ (ok upgraded, after)
unfolding upgrade_one confirm_upgraded fetch_block_hash first_bitcoin_attestation first_bitcoin
    attested write encode method
upgrade =
    let returned =
      (get_anchor-confirm_anchor 1 confirmation waiting_anchor waiting_db valid stored).0 in
    rw proof rw returned refl

check_anchor-upgraded_example :
    (b : AnchorRecord) × (db' : Database) × (height : ℕ) × (after ≡ opened none db')
    × (get_anchor 1 db' ≡ (ok b, db'))
    × (b.bitcoin_block_height ≡ some height)
    × (check_anchor calendar b no_anchors
        ≡ ok (record no_anchors {
          confirmed = 1;
          lines = anchor_verified (codes "00") (some height) ∷ [];
        }))
check_anchor-upgraded_example =
    check_anchor-upgraded calendar calendar_laws web 0 noon waiting_anchor none waiting_db after
      no_anchors upgrade stored valid one_block

waiting-HasTime : HasTime waiting
waiting-HasTime = (noon, valid, refl)

long_after : micros year_1000 + 1440 * 60000000 ≤ micros noon
unfolding micros ordinal days_before_month days_in_month is_leap
long_after = omega arith

list_unconfirmed-is_young_example :
    (list_unconfirmed_anchors (some 1440) noon (pos 500) waiting_db).0
    ≡ map_result row_to_anchor
        (limit_rows (pos 500) (where_rows (is_young 1440 noon) waiting_db.anchors.rows))
list_unconfirmed-is_young_example =
    list_unconfirmed-is_young 1440 noon (pos 500) waiting_db valid.0 long_after
      (waiting-HasTime, tt)
