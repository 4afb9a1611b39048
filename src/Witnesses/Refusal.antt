-- ===== src/Witnesses/Refusal.antt =====
-- When `attest_with_witness` writes nothing.
use nexuscone.Prelude.{ℕ, ◌≡◌, sym, ◌⊎◌, inl, inr, Bool-cases, Option-cases, last?, ◌==◌}
use nexuscone.Text.{text_eq, text_eq_iff}
use nexuscone.Time.{DateTime}
use nexuscone.Json.Parse.{loads}
use nexuscone.Canonical.{Sha256}
use nexuscone.Exec.Inversion.{Result-cases}
use nexuscone.Store.{WitnessRow, Database}
use nexuscone.Store.Query.{first_row}
use nexuscone.Entries.{Signer, row_to_entry}
use nexuscone.Entries.Query.{get_latest_entry}
use nexuscone.Witnesses.{row_to_witness, get_witness}
use nexuscone.Witnesses.Attest.{attest_with_witness}
use nexuscone.Witnesses.Signing.{CanAttest}

-- `attest_with_witness` leaves the database as it was, or the witness may sign: it is registered and
-- not retired, the signer has its key, and the chain has a head that can be read.
pub attest_with_witness-refused :
    (h : Sha256) (now : DateTime) (i : ℕ) (signer : Signer) (db : Database)
    → ((attest_with_witness h now i signer db).1 ≡ db) ⊎ CanAttest db i signer
unfolding attest_with_witness get_witness get_latest_entry row_to_entry
attest_with_witness-refused h now i signer db =
    elim (Option-cases (first_row (λ (r : WitnessRow). r.witness_id == i) db.witnesses.rows)) [
      | inl missing ↦ inl (rw missing)
      | inr (row, found) ↦ elim (Result-cases (row_to_witness row)) [
        | inr (e, unreadable) ↦ inl (rw (found, unreadable))
        | inl (w, readable) ↦ elim (Option-cases w.retired_at) [
          | inr (t, retired) ↦ inl (rw (found, readable, retired))
          | inl active ↦ elim (Bool-cases (text_eq signer.key_id w.public_key_hex)) [
            | inr other ↦ inl (rw (found, readable, active, other))
            | inl same ↦ elim (Option-cases (last? db.entries.rows)) [
              | inl empty ↦ inl (rw (found, readable, active, same, empty))
              | inr (head, tip) ↦ elim (Option-cases (loads head.payload)) [
                | inl bad ↦ inl (rw (found, readable, active, same, tip, bad))
                | inr (payload, decoded) ↦ inr (record {
                  witness_row = row;
                  witness = w;
                  head = head;
                  payload = payload;
                  found = found;
                  readable = readable;
                  active = active;
                  keyed = sym ((text_eq_iff signer.key_id w.public_key_hex).0 same);
                  tip = tip;
                  decoded = decoded;
                })
              ]
            ]
          ]
        ]
      ]
    ]
